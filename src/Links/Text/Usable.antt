-- ===== src/Links/Text/Usable.antt =====
-- What `ParseOutboundLinksDetailed` gives, from links and from lists of proxies.
use mathlib.Core.Path.{subst}
use oneagent.Prelude.{
  ℕ, zero, suc, String, Bool, true, false, not, ◌&&◌, ◌≡◌, ◌≢◌, refl, sym, ap, if◌then◌else◌, List,
  [], ◌∷◌, Option, none, some, ℤ, pos, ltℤ, All, All-map, arith, eq_iff, trim_space, ◌==◌, map,
}
use oneagent.Config.Types.{OutboundConfig}
use oneagent.Links.Texts.{size}
use oneagent.Links.Values.{Anys, nil, cons, Fields, at, as_list, object}
use oneagent.Links.Library.{Library}
use oneagent.Links.Proxies.{parse_yaml_proxy_list, read_proxy, append_if, is_usable}
use oneagent.Links.SingBox.{parse_sing_box_outbound_list, read_outbound}
use oneagent.Links.Parse.{decode}
use oneagent.Links.Text.{
  ImportParseError, unique_outbounds, parse_candidates, extract_link_candidates, yaml_root,
  parse_outbound_yaml, nothing_parsed, links_or, text_step, detailed_fueled,
  parse_outbound_links_detailed,
}
use oneagent.Links.Text.Counted.{IsReachable, parse_candidates_lem}
use oneagent.Links.Text.Names.{unnamed, HasShortName, unique_outbounds_lem}

-- An item of a list that is read has a name, a server and a port that is positive.
abbrev pub IsListed : OutboundConfig → Type 0
IsListed o = (o.name ≢ "") × (o.address ≢ "") × (ltℤ (pos 0) o.port ≡ true)

is_usable-IsListed : (o : OutboundConfig) → is_usable o ≡ true → IsListed o
is_usable-IsListed o h = ground (arith, h, eq_iff o.name "", eq_iff o.address "")

append_if-All :
    (P : OutboundConfig → Type 0) (b : Bool) (o : OutboundConfig) (rest : List OutboundConfig)
    → (b ≡ true → P o)
    → All P rest
    → All P (append_if b o rest)
unfolding append_if
append_if-All P true o rest f h = (f refl, h)
append_if-All P false o rest f h = h

-- Every outbound that is read from a list of proxies, in the format of mihomo, has a name, a server
-- and a positive port.
pub parse_yaml_proxy_list_lem : (items : Anys) → All IsListed (parse_yaml_proxy_list items)
unfolding parse_yaml_proxy_list
parse_yaml_proxy_list_lem nil = tt
parse_yaml_proxy_list_lem (cons (object proxy) items) =
    append_if-All IsListed (is_usable (read_proxy proxy)) (read_proxy proxy)
      (parse_yaml_proxy_list items) (is_usable-IsListed (read_proxy proxy))
      (parse_yaml_proxy_list_lem items)
parse_yaml_proxy_list_lem (cons _ items) = parse_yaml_proxy_list_lem items

-- Every outbound that is read from a list in the format of sing-box has a name, a server and a
-- positive port, and is not of the protocol `direct`.
pub parse_sing_box_outbound_list_lem :
    (items : Anys)
    → All (λ o. IsListed o × (o.protocol ≢ "direct")) (parse_sing_box_outbound_list items)
unfolding parse_sing_box_outbound_list
parse_sing_box_outbound_list_lem nil = tt
parse_sing_box_outbound_list_lem (cons (object fields) items) =
    append_if-All (λ o. IsListed o × (o.protocol ≢ "direct")) _ (read_outbound fields)
      (parse_sing_box_outbound_list items) (λ h. item (read_outbound fields) h)
      (parse_sing_box_outbound_list_lem items)
  where
    item :
        (o : OutboundConfig)
        → (is_usable o && not (o.protocol == "direct")) ≡ true
        → IsListed o × (o.protocol ≢ "direct")
    item o h = ground (arith, h, eq_iff o.name "", eq_iff o.address "", eq_iff o.protocol "direct")
parse_sing_box_outbound_list_lem (cons _ items) = parse_sing_box_outbound_list_lem items

not_zero : (n : ℤ) → ltℤ (pos 0) n ≡ true → n ≢ pos 0
not_zero n h e = ground (arith, h, ap (ltℤ (pos 0)) e)

IsListed-IsReachable : (o : OutboundConfig) → IsListed o → IsReachable o
IsListed-IsReachable o (_, address, port) = (address, not_zero o.port port)

All-unnamed : (xs : List OutboundConfig) → All IsReachable xs → All IsReachable (map unnamed xs)
All-unnamed [] h = tt
All-unnamed (o ∷ xs) (p, h) = (p, All-unnamed xs h)

All-named : (xs : List OutboundConfig) → All IsReachable (map unnamed xs) → All IsReachable xs
All-named [] h = tt
All-named (o ∷ xs) (p, h) = (p, All-named xs h)

-- The outbound can be reached, and its name is not too long.
abbrev pub IsImportable : OutboundConfig → Type 0
IsImportable o = IsReachable o × HasShortName o

both : (xs : List OutboundConfig) → All IsReachable xs → All HasShortName xs → All IsImportable xs
both [] h k = tt
both (o ∷ xs) (p, h) (q, k) = ((p, q), both xs h k)

unique_outbounds-IsImportable :
    (xs : List OutboundConfig) → All IsReachable xs → All IsImportable (unique_outbounds xs)
unique_outbounds-IsImportable xs h =
    let (same, short) = unique_outbounds_lem xs in
    both (unique_outbounds xs)
      (All-named (unique_outbounds xs) (subst (All IsReachable) (sym same) (All-unnamed xs h)))
      short

listed : (xs : List OutboundConfig) → All IsListed xs → All IsReachable xs
listed xs h = All-map IsListed-IsReachable xs h

module _ (lib : Library) where
  yaml_root-IsReachable : (root : Fields) → All IsReachable (yaml_root lib root)
  unfolding yaml_root
  yaml_root-IsReachable root = go (as_list (at "proxies" root)) (as_list (at "outbounds" root))
    where
      go :
          (o p : Option Anys)
          → All IsReachable (elim o [
            | some proxies ↦ parse_yaml_proxy_list proxies
            | none ↦ elim p [ some outbounds ↦ parse_sing_box_outbound_list outbounds | none ↦ [] ]
          ])
      go (some proxies) p = listed _ (parse_yaml_proxy_list_lem proxies)
      go none (some outbounds) =
          All-map (λ o h. IsListed-IsReachable o h.0) _ (parse_sing_box_outbound_list_lem outbounds)
      go none none = tt

  parse_outbound_yaml-IsReachable : (text : String) → All IsReachable (parse_outbound_yaml lib text)
  unfolding parse_outbound_yaml
  parse_outbound_yaml-IsReachable text = go (lib.yaml_object text) (lib.yaml_list text)
    where
      go :
          (o : Option Fields) (p : Option Anys)
          → All IsReachable (elim o [
            | some root ↦ yaml_root lib root
            | none ↦ elim p [ none ↦ [] | some proxies ↦ parse_yaml_proxy_list proxies ]
          ])
      go (some root) p = yaml_root-IsReachable root
      go none none = tt
      go none (some proxies) = listed _ (parse_yaml_proxy_list_lem proxies)

  links_or-IsImportable :
      (next : String → List OutboundConfig × List ImportParseError)
      (r : List OutboundConfig × List ImportParseError) (o : Option String)
      → ((other : String) → All IsImportable (next other).0)
      → All IsReachable r.0
      → All IsImportable (links_or next r o).0
  unfolding links_or
  links_or-IsImportable next (outbounds, errors) none f k =
      unique_outbounds-IsImportable outbounds k
  links_or-IsImportable next r (some other) f k = f other

  text_step-IsImportable :
      (fuel : ℕ) (next : String → List OutboundConfig × List ImportParseError) (text : String)
      (yaml : List OutboundConfig)
      → ((other : String) → All IsImportable (next other).0)
      → All IsReachable yaml
      → All IsImportable (text_step lib fuel next text yaml).0
  text_step-IsImportable fuel next text (o ∷ yaml) f h = unique_outbounds-IsImportable (o ∷ yaml) h
  text_step-IsImportable fuel next text [] f h =
      let items = extract_link_candidates lib fuel text in
      links_or-IsImportable next (parse_candidates lib 1 items)
        (nothing_parsed (parse_candidates lib 1 items).0 (decode lib text)) f
        (parse_candidates_lem lib 1 items).1

  either :
      (b : Bool) (r s : List OutboundConfig × List ImportParseError)
      → All IsImportable r.0
      → All IsImportable s.0
      → All IsImportable (if b then r else s).0
  either true r s h k = h
  either false r s h k = k

  detailed_fueled-IsImportable :
      (fuel : ℕ) (text : String) → All IsImportable (detailed_fueled lib fuel text).0
  unfolding detailed_fueled
  detailed_fueled-IsImportable zero text = tt
  detailed_fueled-IsImportable (suc fuel) text = either (trim_space text == "") _ _ tt (
      text_step-IsImportable (suc (size (trim_space text))) (detailed_fueled lib fuel)
        (trim_space text) (parse_outbound_yaml lib (trim_space text))
        (detailed_fueled-IsImportable fuel) (parse_outbound_yaml-IsReachable (trim_space text)))

  -- Whatever text is imported, each outbound that `ParseOutboundLinksDetailed` reads from it has a
  -- server, a port that is not 0, and a name of at most 80 bytes.
  pub parse_outbound_links_detailed_lem :
      (text : String) → All IsImportable (parse_outbound_links_detailed lib text).0
  unfolding parse_outbound_links_detailed
  parse_outbound_links_detailed_lem text = detailed_fueled-IsImportable (suc (size text)) text
