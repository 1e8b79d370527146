-- ===== src/Subscription/Preview.antt =====
-- core/subscription.go: `PreviewSubscription` and `ParseSubscription`.
pub mod Counted
use oneagent.Prelude.{
  ℕ, suc, ◌+◌, String, Bool, true, false, ◌&&◌, ◌||◌, List, [], ◌∷◌, ◌++◌, Option, none, some,
  length, ltb, eqb, ◌==◌, if◌then◌else◌, trim_space, has_prefix, split_lines,
}
use oneagent.Links.Values.{
  Any, text, list, object, Anys, nil, cons, Fields, end, field, at, as_list, as_object,
}
use oneagent.Subscription.Texts.{normalize_base64, uri_display_name}

pub data Warning : Type 0 where
  no_proxies no_uris : Warning

pub record SubscriptionPreview : Type 0 where
  pub url : String
  pub format : String
  pub proxy_count : ℕ
  pub group_count : ℕ
  pub rule_count : ℕ
  pub provider_count : ℕ
  pub proxy_names : List String
  pub group_names : List String
  pub warnings : List Warning

pub data PreviewError : Type 0 where
  no_url not_fetched empty : PreviewError

pub data PreviewResult : Type 0 where
  refused : PreviewError → PreviewResult
  preview : SubscriptionPreview → PreviewResult

-- value.(string), and "" where it is none
abbrev string_or_empty : Any → String
string_or_empty (text s) = s
string_or_empty _ = ""

add_name : String → List String → List String
add_name name names = if name == "" then names else name ∷ names

-- The loop of `namesFromList`.
names_of : Anys → List String
names_of nil = []
names_of (cons item items) =
    let rest = names_of items in
    elim (as_object item) [ none ↦ rest | some m ↦ add_name (string_or_empty (at "name" m)) rest ]

-- `namesFromList`
unfoldable pub names_from_list : Any → List String
unfolding names_of add_name at
names_from_list value = elim (as_list value) [ none ↦ [] | some items ↦ names_of items ]

-- The loop of `stringList`.
strings_of : Anys → List String
strings_of nil = []
strings_of (cons (text s) items) = s ∷ strings_of items
strings_of (cons _ items) = strings_of items

-- `stringList`
unfoldable pub string_list : Any → List String
unfolding strings_of
string_list value = elim (as_list value) [ none ↦ [] | some items ↦ strings_of items ]

-- len of a map
count_fields : Fields → ℕ
count_fields end = 0
count_fields (field name value rest) = suc (count_fields rest)

abbrev count_providers : Any → ℕ
count_providers value = elim (as_object value) [ none ↦ 0 | some m ↦ count_fields m ]

abbrev warn_if : Bool → Warning → List Warning
warn_if true w = w ∷ []
warn_if false w = []

-- `parseYAMLSubscription` behind the decoding
unfoldable pub yaml_preview : String → Fields → SubscriptionPreview
unfolding names_from_list string_list count_fields at
yaml_preview url raw =
    let proxies = names_from_list (at "proxies" raw) in
    let groups = names_from_list (at "proxy-groups" raw) in
    let providers = count_providers (at "proxy-providers" raw) in
    record {
      url = url;
      format = "yaml";
      proxy_count = length proxies;
      group_count = length groups;
      rule_count = length (string_list (at "rules" raw));
      provider_count = providers;
      proxy_names = proxies;
      group_names = groups;
      warnings = warn_if (eqb (length proxies) 0 && eqb providers 0) no_proxies;
    }

-- Whether a line is the link of a node
is_uri : String → Bool
is_uri line =
    has_prefix line "ss://"
    || has_prefix line "ssr://"
    || has_prefix line "vmess://"
    || has_prefix line "vless://"
    || has_prefix line "trojan://"
    || has_prefix line "hysteria2://"
    || has_prefix line "hy2://"

-- The body of the loop of `parseURIList`, on `ProxyCount` and `ProxyNames`; the line is trimmed.
uri_line : String → ℕ × List String → ℕ × List String
uri_line line (count, names) =
    if line == ""
    then (count, names)
    else if is_uri line
    then (suc count, names ++ uri_display_name line ∷ [])
    else (count, names)

uri_loop : List String → ℕ × List String → ℕ × List String
uri_loop [] found = found
uri_loop (line ∷ lines) found = uri_loop lines (uri_line (trim_space line) found)

-- `parseURIList`
unfoldable pub parse_uri_list : String → String → SubscriptionPreview
unfolding uri_loop uri_line is_uri uri_display_name trim_space split_lines has_prefix
parse_uri_list url body =
    let (count, names) = uri_loop (split_lines body) (0, []) in
    record {
      url = url;
      format = "uri-list";
      proxy_count = count;
      group_count = 0;
      rule_count = 0;
      provider_count = 0;
      proxy_names = names;
      group_names = [];
      warnings = warn_if (eqb count 0) no_uris;
    }

-- The test behind both decodings
abbrev has_content : SubscriptionPreview → Bool
has_content p =
    ltb 0 p.proxy_count || ltb 0 p.group_count || ltb 0 p.rule_count || ltb 0 p.provider_count

-- The decoders of YAML and base64 and the download, as in PreviewSubscription; none is an error.
module _ (yaml_object : String → Option Fields) (decode_base64 : String → Option String)
    (fetch : String → Option String) where
  decoded_yaml : String → String → Option Fields → SubscriptionPreview
  decoded_yaml url decoded none = parse_uri_list url decoded
  decoded_yaml url decoded (some raw) =
      if has_content (yaml_preview url raw)
      then record (yaml_preview url raw) { format = "base64-yaml" }
      else parse_uri_list url decoded

  not_yaml : String → String → Option String → SubscriptionPreview
  not_yaml url given none = parse_uri_list url given
  not_yaml url given (some decoded) = decoded_yaml url decoded (yaml_object decoded)

  yaml_or : String → String → Option Fields → SubscriptionPreview
  yaml_or url given none = not_yaml url given (decode_base64 (normalize_base64 given))
  yaml_or url given (some raw) =
      if has_content (yaml_preview url raw)
      then yaml_preview url raw
      else not_yaml url given (decode_base64 (normalize_base64 given))

  -- `ParseSubscription`
  unfoldable pub parse_subscription : String → String → PreviewResult
  unfolding decoded_yaml not_yaml yaml_or yaml_preview parse_uri_list normalize_base64 trim_space
  parse_subscription url body =
      let given = trim_space body in
      if given == "" then refused empty else preview (yaml_or url given (yaml_object given))

  fetched_preview : String → Option String → PreviewResult
  fetched_preview url none = refused not_fetched
  fetched_preview url (some body) = parse_subscription url body

  -- `PreviewSubscription`
  unfoldable pub preview_subscription : String → PreviewResult
  unfolding fetched_preview parse_subscription trim_space
  preview_subscription given =
      let url = trim_space given in
      if url == "" then refused no_url else fetched_preview url (fetch url)
