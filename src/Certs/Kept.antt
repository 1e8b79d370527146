-- ===== src/Certs/Kept.antt =====
-- What the handling of pasted certificates leaves alone.
use oneagent.Prelude.{ℕ, ◌≡◌, true, false, ◌⊎◌, ◌&&◌, ◌==◌, trim_space, arith}
use oneagent.Config.Types.{InboundConfig}
use oneagent.Config.Errors.{Result, ok, err}
use oneagent.Platform.{World}
use oneagent.Certs.{pasted_cert_paths, materialize_inbound_certificate_content}

-- What a value that was returned satisfies.
abbrev Returns : {A : Type 0} → (A → Type 0) → Result A × World → Type 0
Returns P (ok a, w) = P a
Returns P (err e, w) = Unit

-- What becomes of an inbound at the time `now`: without a pasted certificate it stays as it is; with one
-- it names the two files, drops the texts and has TLS.
abbrev pub Certified : ℕ → InboundConfig → InboundConfig → Type 0
Certified now i j =
    (((trim_space i.certificate_content == "") && (trim_space i.key_content == "") ≡ true)
      × (j ≡ i))
    ⊎ (((trim_space i.certificate_content == "") ≡ false)
        × ((trim_space i.key_content == "") ≡ false)
        × (j ≡ record i {
          certificate_path = (pasted_cert_paths now i.name).0;
          key_path = (pasted_cert_paths now i.name).1;
          certificate_content = "";
          key_content = "";
          tls = true;
        }))

pub materialize-Certified :
    (i j : InboundConfig) (w w' : World)
    → materialize_inbound_certificate_content i w ≡ (ok j, w')
    → Certified w.clock i j
unfolding materialize_inbound_certificate_content
materialize-Certified i j w w' h = ground arith

-- The inbound keeps all but its certificate.
pub materialize_name :
    (i j : InboundConfig) (w w' : World)
    → materialize_inbound_certificate_content i w ≡ (ok j, w')
    → (j.name ≡ i.name) × (j.port ≡ i.port) × (j.disabled ≡ i.disabled)
unfolding materialize_inbound_certificate_content
materialize_name i j w w' h = ground arith
