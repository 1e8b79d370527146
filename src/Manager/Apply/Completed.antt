-- ===== src/Manager/Apply/Completed.antt =====
-- core/manager.go: `enrichOutboundFromRaw`, and what it completes in the outbounds of a configuration.
use oneagent.Prelude.{
  String, Bool, true, false, ◌||◌, ◌≡◌, ◌≢◌, refl, ◌⊎◌, inl, inr, List, [], ◌∷◌, Option, none, some,
  contains, ◌==◌, if◌then◌else◌, arith, eq_iff, Bool-cases,
}
use oneagent.Config.Types.{OutboundConfig}
use oneagent.Manager.Apply.{first_non_empty, filled, enrich_outbound_from_raw, enrich_all}

-- The third text is the first one, or the second where the first is empty.
abbrev pub Fills : String → String → String → Type 0
Fills a b r = ((a ≢ "") × (r ≡ a)) ⊎ ((a ≡ "") × (r ≡ b))

first_non_empty-Fills : (a b : String) → Fills a b (first_non_empty a b)
first_non_empty-Fills a b = elim (Bool-cases (a == "")) [
  | inl e ↦ inr (ground (arith, e, eq_iff a ""), ground (arith, e))
  | inr e ↦ inl (λ same. ground (arith, e, same, eq_iff a ""), ground (arith, e))
]

-- The third outbound is the first, with what its link says in the fields that the first leaves empty.
pub record IsFilled (o p r : OutboundConfig) : Type 0 where
  pub flow : Fills o.flow p.flow r.flow
  pub security : Fills o.security p.security r.security
  pub server_name : Fills o.server_name p.server_name r.server_name
  pub public_key : Fills o.public_key p.public_key r.public_key
  pub short_id : Fills o.short_id p.short_id r.short_id
  pub fingerprint : Fills o.fingerprint p.fingerprint r.fingerprint
  pub transport : Fills o.transport p.transport r.transport
  pub path : Fills o.path p.path r.path
  pub host : Fills o.host p.host r.host
  pub alpn : Fills o.alpn p.alpn r.alpn
  pub tls : r.tls ≡ o.tls || p.tls
  pub skip_cert_verify : r.skip_cert_verify ≡ o.skip_cert_verify || p.skip_cert_verify
  pub rest : r ≡ record o {
    flow = r.flow;
    security = r.security;
    server_name = r.server_name;
    public_key = r.public_key;
    short_id = r.short_id;
    fingerprint = r.fingerprint;
    transport = r.transport;
    path = r.path;
    host = r.host;
    alpn = r.alpn;
    tls = r.tls;
    skip_cert_verify = r.skip_cert_verify;
  }

filled-IsFilled : (o p : OutboundConfig) → IsFilled o p (filled o (some p))
filled-IsFilled o p = record {
  flow = first_non_empty-Fills o.flow p.flow;
  security = first_non_empty-Fills o.security p.security;
  server_name = first_non_empty-Fills o.server_name p.server_name;
  public_key = first_non_empty-Fills o.public_key p.public_key;
  short_id = first_non_empty-Fills o.short_id p.short_id;
  fingerprint = first_non_empty-Fills o.fingerprint p.fingerprint;
  transport = first_non_empty-Fills o.transport p.transport;
  path = first_non_empty-Fills o.path p.path;
  host = first_non_empty-Fills o.host p.host;
  alpn = first_non_empty-Fills o.alpn p.alpn;
  tls = ground arith;
  skip_cert_verify = ground arith;
  rest = refl;
}

module _ (parse_link : String → Option OutboundConfig) where
  -- An outbound whose raw text is a link that can be read is filled from it; any other stays.
  abbrev pub IsCompleted : OutboundConfig → OutboundConfig → Type 0
  IsCompleted o r =
      (((contains o.raw "://" ≡ false) ⊎ (parse_link o.raw ≡ none)) × (r ≡ o))
      ⊎ ((p : OutboundConfig) × (contains o.raw "://" ≡ true)
          × (parse_link o.raw ≡ some p)
          × IsFilled o p r)

  abbrev pub AreCompleted : List OutboundConfig → List OutboundConfig → Type 0
  AreCompleted [] [] = Unit
  AreCompleted [] (r ∷ rs) = ⊥
  AreCompleted (o ∷ os) [] = ⊥
  AreCompleted (o ∷ os) (r ∷ rs) = IsCompleted o r × AreCompleted os rs

  enrich_outbound_from_raw-IsCompleted :
      (o : OutboundConfig) → IsCompleted o (enrich_outbound_from_raw parse_link o)
  unfolding enrich_outbound_from_raw
  enrich_outbound_from_raw-IsCompleted o = go (contains o.raw "://") (parse_link o.raw) refl refl
    where
      go :
          (b : Bool) (q : Option OutboundConfig)
          → contains o.raw "://" ≡ b
          → parse_link o.raw ≡ q
          → IsCompleted o (if b then filled o q else o)
      go false q e h = inl (inl e, refl)
      go true none e h = inl (inr h, refl)
      go true (some p) e h = inr (p, e, h, filled-IsFilled o p)

  pub enrich_all_lem : (os : List OutboundConfig) → AreCompleted os (enrich_all parse_link os)
  unfolding enrich_all
  enrich_all_lem [] = tt
  enrich_all_lem (o ∷ os) = (enrich_outbound_from_raw-IsCompleted o, enrich_all_lem os)
