-- ===== src/Share/Hosts.antt =====
-- core/share.go: the host that a link names.
pub mod Best
use oneagent.Prelude.{
  ℕ, String, Bool, true, false, not, ◌&&◌, ◌||◌, List, [], ◌∷◌, Option, none, some, ◌==◌,
  if◌then◌else◌, eqb, trim, trim_space, trim_first, trim_last, to_lower, contains, has_prefix,
}
use oneagent.Share.Library.{Library}

is_bracket : ℕ → Bool
is_bracket c = eqb c b'[' || eqb c b']'

-- `isLocalShareHost`
unfoldable pub is_local_share_host : String → Bool
unfolding is_bracket trim to_lower has_prefix
is_local_share_host host =
    let normalized = to_lower (trim is_bracket host) in
    normalized == "localhost"
    || normalized == "::1"
    || normalized == "0.0.0.0"
    || has_prefix normalized "127."

abbrev otherwise : String → Option String → String
otherwise host none = host
otherwise host (some other) = other

module _ (lib : Library) where
  -- The host of a URL, where the text is one
  of_url : String → String
  of_url host = if contains host "://" then otherwise host (lib.url_host host) else host

  without_port : String → String
  without_port host = otherwise host (lib.split_host_port host)

  -- `cleanShareHost`
  unfoldable pub clean_share_host : String → String
  unfolding is_bracket trim trim_space contains trim_first trim_last of_url without_port
  clean_share_host candidate =
      let host = trim_space candidate in
      if host == ""
      then ""
      else trim is_bracket
          (trim_space (without_port (trim_last b']' (trim_first b'[' (of_url host)))))

  -- `bestShareHost`
  unfoldable pub best_share_host : List String → String
  unfolding clean_share_host is_local_share_host
  best_share_host [] = ""
  best_share_host (candidate ∷ hosts) =
      let host = clean_share_host candidate in
      let rest = best_share_host hosts in
      if host == "" || is_local_share_host host then rest else host
