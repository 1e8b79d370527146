-- ===== src/Links/Text/Counted.antt =====
-- What `ParseOutboundLinksDetailed` makes of each of the links.
use oneagent.Prelude.{
  ℕ, zero, suc, ◌+◌, ◌-◌, ◌∙◌, Option, none, some, ◌≤◌, String, List, [], ◌∷◌, ◌≡◌, ◌≢◌, refl,
  length, pos, All, arith,
}
use oneagent.Config.Types.{OutboundConfig}
use oneagent.Links.Library.{Library, LinkError, LinkResult, failed, parsed}
use oneagent.Links.Parse.{parse_outbound_link}
use oneagent.Links.Parse.Sound.{parse_outbound_link_lem}
use oneagent.Links.Text.{bad_link, ImportParseError, parse_candidates, add_result}

-- The numbers of the errors grow, from the first of these on, and stay below the second.
abbrev pub IsNumbered : ℕ → ℕ → List ImportParseError → Type 0
IsNumbered first end [] = first ≤ end
IsNumbered first end (e ∷ errors) = (first ≤ e.index) × IsNumbered (suc e.index) end errors

-- The outbound can be reached: it has a server and a port.
abbrev pub IsReachable : OutboundConfig → Type 0
IsReachable o = (o.address ≢ "") × (o.port ≢ pos 0)

IsNumbered-within :
    (first next end last : ℕ) (errors : List ImportParseError)
    → first ≤ next
    → end ≤ last
    → IsNumbered next end errors
    → IsNumbered first last errors
IsNumbered-within first next end last [] l m h = omega (arith, l, m, h)
IsNumbered-within first next end last (e ∷ errors) l m (k, h) =
    (omega (arith, l, k), IsNumbered-within _ _ end last errors (omega arith) m h)

abbrev item_at : {A : Type 0} → ℕ → List A → Option A
item_at n [] = none
item_at zero (x ∷ xs) = some x
item_at (suc n) (x ∷ xs) = item_at n xs

-- The link with the error's own number, in items of which the first has the given number, is one that
-- the parser refuses, with the error's problem.
abbrev pub IsOf : Library → ℕ → List String → ImportParseError → Type 0
IsOf lib first items e =
    (link : String) × (problem : LinkError) × (item_at (e.index - first) items ≡ some link)
    × (parse_outbound_link lib link ≡ failed problem)
    × (e.error ≡ bad_link e.index problem)

-- Each item from the one with the given number on gave a result, in order.
abbrev pub Accounts :
    Library → ℕ → List String → List OutboundConfig × List ImportParseError → Type 0
Accounts lib first items (outbounds, errors) =
    (length outbounds + length errors ≡ length items)
    × All IsReachable outbounds
    × IsNumbered first (first + length items) errors
    × All (IsOf lib first items) errors

item_at-later :
    {A : Type 0} (n first : ℕ) (x : A) (xs : List A)
    → suc first ≤ n
    → item_at (n - first) (x ∷ xs) ≡ item_at (n - suc first) xs
item_at-later n first x xs h = let e : n - first ≡ suc (n - suc first) = omega arith in rw e refl

IsOf-later :
    (lib : Library) (first next end : ℕ) (item : String) (items : List String)
    (errors : List ImportParseError)
    → suc first ≤ next
    → IsNumbered next end errors
    → All (IsOf lib (suc first) items) errors
    → All (IsOf lib first (item ∷ items)) errors
IsOf-later lib first next end item items [] le n h = tt
IsOf-later lib first next end item items (e ∷ errors) le (l, n) ((link, p, at, fails, own), h) = (
  (link, p, item_at-later e.index first item items (omega (arith, le, l)) ∙ at, fails, own),
  IsOf-later lib first (suc e.index) end item items errors (omega (arith, le, l)) n h,
)

same_number : (n : ℕ) → n - n ≡ 0
same_number n = omega arith

add_result-Accounts :
    (lib : Library) (first : ℕ) (item : String) (items : List String) (r : LinkResult)
    (results : List OutboundConfig × List ImportParseError)
    → parse_outbound_link lib item ≡ r
    → ((o : OutboundConfig) → r ≡ parsed o → IsReachable o)
    → Accounts lib (suc first) items results
    → Accounts lib first (item ∷ items) (add_result first item r results)
add_result-Accounts lib first item items (parsed o) (outbounds, errors) own f
      (n, reachable, numbered, of) =
    (
      omega (arith, n),
      (f o refl, reachable),
      IsNumbered-within first (suc first) (suc first + length items) (first + suc (length items))
          errors (omega arith) (omega arith) numbered,
      IsOf-later lib first (suc first) _ item items errors (omega arith) numbered of,
    )
add_result-Accounts lib first item items (failed e) (outbounds, errors) own f
      (n, reachable, numbered, of) =
    (
      omega (arith, n),
      reachable,
      (
        omega arith,
        IsNumbered-within (suc first) (suc first) (suc first + length items)
            (first + suc (length items)) errors (omega arith) (omega arith) numbered,
      ),
      (
        (item, e, rw (same_number first) refl, own, refl),
        IsOf-later lib first (suc first) _ item items errors (omega arith) numbered of,
      ),
    )

-- Each of the links, the first of which has the given number, gives an outbound with a server and a
-- port, or an error; the errors come in order, and the link with an error's number is one that
-- `parseOutboundLink` refuses with that error.
pub parse_candidates_lem :
    (lib : Library) (first : ℕ) (items : List String)
    → Accounts lib first items (parse_candidates lib first items)
unfolding parse_candidates
parse_candidates_lem lib first [] = (refl, tt, omega arith, tt)
parse_candidates_lem lib first (item ∷ items) =
    add_result-Accounts lib first item items (parse_outbound_link lib item)
      (parse_candidates lib (suc first) items) refl (parse_outbound_link_lem lib item)
      (parse_candidates_lem lib (suc first) items)
