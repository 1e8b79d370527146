-- ===== src/Share/Hosts/Best.antt =====
-- Which host `bestShareHost` picks.
use oneagent.Prelude.{String, true, false, ◌||◌, ◌≡◌, ◌≢◌, ap, List, ◌∷◌, ◌++◌, All, ◌==◌}
use oneagent.Share.Library.{Library}
use oneagent.Share.Hosts.{clean_share_host, is_local_share_host}

-- Nothing is left of the candidate, or it names the machine itself.
abbrev pub IsUseless : Library → String → Type 0
IsUseless lib candidate =
    (clean_share_host lib candidate == "" || is_local_share_host (clean_share_host lib candidate))
    ≡ true

-- The host is that of a candidate which is not useless, and all before it are.
pub record FirstUseful (lib : Library) (hosts : List String) (host : String) : Type 0 where
  pub before : List String
  pub candidate : String
  pub after : List String
  pub splits : hosts ≡ before ++ candidate ∷ after
  pub useless : All (IsUseless lib) before
  pub cleaned : host ≡ clean_share_host lib candidate
  pub not_empty : host ≢ ""
  pub not_local : is_local_share_host host ≡ false

abbrev after_useless :
    {lib : Library} {hosts : List String} {host : String} (c : String)
    → IsUseless lib c
    → FirstUseful lib hosts host
    → FirstUseful lib (c ∷ hosts) host
after_useless c u f = record {
  before = c ∷ f.before;
  candidate = f.candidate;
  after = f.after;
  splits = ap (λ rest. c ∷ rest) f.splits;
  useless = (u, f.useless);
  cleaned = f.cleaned;
  not_empty = f.not_empty;
  not_local = f.not_local;
}
