-- ===== src/Certs.antt =====
-- core/certs.go: the certificates of inbounds that need one.
pub mod Kept
use Prim.Native.String.{[], ◌∷◌}
use Prim.Native.Char.{Char, code}
use oneagent.Prelude.{
  ℕ, String, Bool, true, false, ◌&&◌, ◌||◌, List, Option, none, some, ◌==◌, leb, eqb, if◌then◌else◌,
  Dict, insert, lookup, has, trim, trim_space, contains, not, itoa, ◌+s◌,
}
use mathlib.Core.List as L
use oneagent.Config.Types.{InboundConfig}
use oneagent.Config.Errors.{Error, Field, certificate_pair, not_pem, Result, ok, err}
use oneagent.Exec.{Exec, continue, ◌>>=◌, ◌>>◌, pure, get, modify}
use oneagent.Platform.{File, pem, partial, World, Action, call}
use oneagent.Manager.Runtime.{needs_generated_certificate}

abbrev file_char : Char → Char
file_char c =
    if (leb b'a' (code c) && leb (code c) b'z')
      || (leb b'A' (code c) && leb (code c) b'Z')
      || (leb b'0' (code c) && leb (code c) b'9')
      || eqb (code c) b'-'
      || eqb (code c) b'_'
    then c
    else "-"

map_chars : String → String
map_chars [] = []
map_chars (c ∷ s) = file_char c ∷ map_chars s

-- `sanitizeFileName`, at the time `now`
unfoldable pub sanitize_file_name : ℕ → String → String
unfolding map_chars trim trim_space itoa
sanitize_file_name now value =
    if trim_space value == ""
    then "inbound"
    else let out = trim (λ c. eqb c b'-') (map_chars (trim_space value)) in
      if out == "" then "inbound-" +s itoa now else out

-- `generatedCertPaths`; `filepath.Join` has nothing to clean in these names.
unfoldable pub generated_cert_paths : ℕ → String → String × String
unfolding sanitize_file_name
generated_cert_paths now name =
    let base = sanitize_file_name now name in
    ("certs/" +s base +s ".crt", "certs/" +s base +s ".key")

-- `certs/NAME.pasted.crt` and its key
unfoldable pub pasted_cert_paths : ℕ → String → String × String
unfolding sanitize_file_name
pasted_cert_paths now name =
    let base = sanitize_file_name now name in
    ("certs/" +s base +s ".pasted.crt", "certs/" +s base +s ".pasted.key")

abbrev is_blank : String → Bool
is_blank s = trim_space s == ""

put_file : String → File → World → World
put_file path f w = record w { files = insert path f w.files }

-- A file is opened and cut to nothing, and then written.
unfoldable pub write_file : String → File → Action (Unit {0})
unfolding call put_file ◌>>=◌
write_file path f = do
  call "open"
  modify (put_file path partial)
  call "write"
  modify (put_file path f)

pasted : String × String → InboundConfig → InboundConfig
pasted (cert_path, key_path) inbound = record inbound {
  certificate_path = cert_path;
  key_path = key_path;
  certificate_content = "";
  key_content = "";
  tls = true;
}

write_pasted : String × String → Action (Unit {0})
unfolding ◌>>=◌
write_pasted (cert_path, key_path) = do
  call "make directory"
  write_file cert_path pem
  write_file key_path pem

-- `materializeInboundCertificateContent`. A handler is given the inbound that it leaves.
unfoldable pub materialize_inbound_certificate_content : InboundConfig → Action InboundConfig
unfolding call trim_space contains write_file pasted_cert_paths pasted write_pasted
materialize_inbound_certificate_content inbound w =
    let paths = pasted_cert_paths w.clock inbound.name in
    if is_blank inbound.certificate_content && is_blank inbound.key_content
    then (ok inbound, w)
    else if is_blank inbound.certificate_content || is_blank inbound.key_content
    then (err certificate_pair, w)
    else if not (contains inbound.certificate_content "BEGIN CERTIFICATE")
    then (err (not_pem Field.certificate), w)
    else if not (contains inbound.key_content "PRIVATE KEY")
    then (err (not_pem Field.key), w)
    else continue (write_pasted paths w) (λ _. pure (pasted paths inbound))

make_certificate : String → String → Action (Unit {0})
unfolding ◌>>=◌
make_certificate cert_path key_path = do
  call "make directory"
  call "generate key"
  call "serial number"
  call "create certificate"
  write_file cert_path pem
  call "close"
  call "marshal key"
  write_file key_path pem
  call "close"

-- `ensureSelfSignedCertificate`; the server's name only shows in the certificate.
unfoldable pub ensure_self_signed_certificate : String → String → Action (Unit {0})
unfolding write_file make_certificate
ensure_self_signed_certificate cert_path key_path w =
    if has cert_path w.files && has key_path w.files
    then (ok tt, w)
    else make_certificate cert_path key_path w

with_paths : String × String → InboundConfig → InboundConfig
with_paths (cert_path, key_path) inbound = record inbound {
  certificate_path = cert_path;
  key_path = key_path;
  tls = true;
}

-- The body of the loop of `ensureInboundTLSAssets`.
ensure_inbound : InboundConfig → Action InboundConfig
ensure_inbound inbound w =
    let paths = generated_cert_paths w.clock inbound.name in
    if needs_generated_certificate inbound
    then continue (ensure_self_signed_certificate paths.0 paths.1 w)
        (λ _. pure (with_paths paths inbound))
    else (ok inbound, w)

unfoldable pub ensure_inbound_tls_assets : List InboundConfig → Action (List InboundConfig)
unfolding ensure_inbound with_paths needs_generated_certificate generated_cert_paths
    ensure_self_signed_certificate ◌>>=◌
ensure_inbound_tls_assets L.[] = pure L.[]
ensure_inbound_tls_assets (L.◌∷◌ inbound rest) = do
  first ← ensure_inbound inbound
  others ← ensure_inbound_tls_assets rest
  pure (L.◌∷◌ first others)
