-- ===== src/Share/Outbound/Outcomes.antt =====
-- When `outboundShareLink` gives a link.
use oneagent.Prelude.{
  String, Bool, true, false, not, ◌&&◌, ◌||◌, ◌≡◌, refl, List, [], ◌∷◌, Option, none, some, Dict,
  one_of, if◌then◌else◌, ◌==◌, arith,
}
use oneagent.Config.Types.{OutboundConfig}
use oneagent.Share.Library.{Library, ShareResult, ShareError, refused, link}
use oneagent.Share.Outbound.{
  outbound_share_link, protocol_link, vmess_link, vmess_payload, keeps_raw, lacks_address,
  proxy_link,
}

-- The protocols that have links
abbrev pub link_protocols : List String
link_protocols =
    "vless" ∷ "vmess" ∷ "trojan" ∷ "shadowsocks" ∷ "ss" ∷ "shadowtls" ∷ "anytls" ∷ "hysteria2"
    ∷ "hy2" ∷ "tuic" ∷ "http" ∷ "socks" ∷ "socks5" ∷ []

abbrev pub is_link : ShareResult → Bool
is_link (refused e) = false
is_link (link text) = true

abbrev pub is_some : Option String → Bool
is_some none = false
is_some (some text) = true

-- Whether the result is a link
Answers : ShareResult → Bool → Type 0
Answers r b = is_link r ≡ b

link-Answers : (text : String) → Answers (link text) true
unfolding Answers
link-Answers text = refl

last_case :
    (b c d : Bool) (text : String) (e : ShareError)
    → Answers
        (if (if b then true else if c then true else if d then true else false)
          then link text
          else refused e)
        (if b then true else if c then true else if d then true else false)
unfolding Answers
last_case true c d text e = refl
last_case false true d text e = refl
last_case false false true text e = refl
last_case false false false text e = refl

one_case :
    (b : Bool) (x y : ShareResult) (rest : Bool)
    → Answers x true
    → Answers y rest
    → Answers (if b then x else y) (if b then true else rest)
one_case true x y rest h k = h
one_case false x y rest h k = k

two_cases :
    (b c : Bool) (x y : ShareResult) (rest : Bool)
    → Answers x true
    → Answers y rest
    → Answers
        (if (if b then true else if c then true else false) then x else y)
        (if b then true else if c then true else rest)
two_cases true c x y rest h k = h
two_cases false true x y rest h k = h
two_cases false false x y rest h k = k

module _ (lib : Library) (json : (d : Dict String) → is_some (lib.json_text d) ≡ true)
    (o : OutboundConfig) where
  vmess_link-Answers : Answers (vmess_link lib o) true
  unfolding vmess_link Answers
  vmess_link-Answers = ground (arith, json (vmess_payload lib o))

  abbrev is : String → Bool
  is protocol = o.protocol == protocol

  protocol_link-Answers : Answers (protocol_link lib o) (one_of o.protocol link_protocols)
  unfolding protocol_link one_of proxy_link
  protocol_link-Answers = one_case (is "vless") _ _ _ (link-Answers _) (
      one_case (is "vmess") _ _ _ vmess_link-Answers (
        one_case (is "trojan") _ _ _ (link-Answers _) (
          two_cases (is "shadowsocks") (is "ss") _ _ _ (link-Answers _) (
            one_case (is "shadowtls") _ _ _ (link-Answers _) (
              one_case (is "anytls") _ _ _ (link-Answers _) (
                two_cases (is "hysteria2") (is "hy2") _ _ _ (link-Answers _) (
                  one_case (is "tuic") _ _ _ (link-Answers _)
                    (last_case (is "http") (is "socks") (is "socks5") _ _))))))))

  -- Where JSON can write a map of strings, an outbound has a link exactly if it came from one, or it
  -- has a server and a positive port and is of one of the protocols that have links.
  pub outbound_share_link_lem :
      is_link (outbound_share_link lib o)
      ≡ (keeps_raw lib o || (not (lacks_address lib o) && one_of o.protocol link_protocols))
  unfolding outbound_share_link Answers
  outbound_share_link_lem = ground (arith, protocol_link-Answers)
