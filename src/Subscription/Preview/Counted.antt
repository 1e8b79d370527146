-- ===== src/Subscription/Preview/Counted.antt =====
-- What a preview of a subscription says.
use oneagent.Prelude.{
  ℕ, String, Bool, List, [], ◌∷◌, length-append, split_lines, true, false, ◌&&◌, ◌≡◌, refl, Option,
  none, some, length, eqb, ◌==◌, if◌then◌else◌, trim_space, arith,
}
use oneagent.Links.Values.{Fields}
use oneagent.Subscription.Texts.{normalize_base64, uri_display_name}
use oneagent.Subscription.Preview.{
  SubscriptionPreview, PreviewError, no_url, empty, PreviewResult, refused, preview, yaml_preview,
  uri_line, uri_loop, parse_uri_list, has_content, decoded_yaml, not_yaml, yaml_or,
  parse_subscription, fetched_preview, preview_subscription,
}

-- The preview is of the address, its counts are those of its lists, and it has a warning exactly if it
-- has found neither a proxy nor a provider.
pub record IsCounted (url : String) (p : SubscriptionPreview) : Type 0 where
  pub same_url : p.url ≡ url
  pub proxies : p.proxy_count ≡ length p.proxy_names
  pub groups : p.group_count ≡ length p.group_names
  pub warned : length p.warnings ≡ (if eqb p.proxy_count 0 && eqb p.provider_count 0 then 1 else 0)

yaml_preview-IsCounted : (url : String) (raw : Fields) → IsCounted url (yaml_preview url raw)
unfolding yaml_preview
yaml_preview-IsCounted url raw = record {
  same_url = refl;
  proxies = refl;
  groups = refl;
  warned = ground arith;
}

-- The names that were found so far are counted.
uri_line_lem :
    (line : String) (found : ℕ × List String)
    → found.0 ≡ length found.1
    → (uri_line line found).0 ≡ length (uri_line line found).1
unfolding parse_uri_list
uri_line_lem line (count, names) h =
    ground (arith, length-append names (uri_display_name line ∷ []), h)

uri_loop_lem :
    (lines : List String) (found : ℕ × List String)
    → found.0 ≡ length found.1
    → (uri_loop lines found).0 ≡ length (uri_loop lines found).1
unfolding parse_uri_list
uri_loop_lem [] found h = h
uri_loop_lem (line ∷ lines) found h = uri_loop_lem lines _ (uri_line_lem (trim_space line) found h)

parse_uri_list-IsCounted : (url body : String) → IsCounted url (parse_uri_list url body)
unfolding parse_uri_list
parse_uri_list-IsCounted url body = record {
  same_url = refl;
  proxies = uri_loop_lem (split_lines body) (0, []) refl;
  groups = refl;
  warned = ground arith;
}

either :
    (url : String) (b : Bool) (p q : SubscriptionPreview)
    → IsCounted url p
    → IsCounted url q
    → IsCounted url (if b then p else q)
either url true p q h k = h
either url false p q h k = k

-- An error, or a preview of the predicate
abbrev pub WhenShown : (SubscriptionPreview → Type 0) → PreviewResult → Type 0
WhenShown P (refused e) = Unit
WhenShown P (preview p) = P p

unless :
    (P : SubscriptionPreview → Type 0) (b : Bool) (e : PreviewError) (r : PreviewResult)
    → WhenShown P r
    → WhenShown P (if b then refused e else r)
unless P true e r h = tt
unless P false e r h = h

module _ (yaml_object : String → Option Fields) (decode_base64 : String → Option String)
    (fetch : String → Option String) where
  decoded_yaml-IsCounted :
      (url decoded : String) (o : Option Fields)
      → IsCounted url (decoded_yaml yaml_object decode_base64 fetch url decoded o)
  unfolding decoded_yaml
  decoded_yaml-IsCounted url decoded none = parse_uri_list-IsCounted url decoded
  decoded_yaml-IsCounted url decoded (some raw) =
      let c = yaml_preview-IsCounted url raw in
      either url (has_content (yaml_preview url raw)) _ _
        (record {
          same_url = c.same_url;
          proxies = c.proxies;
          groups = c.groups;
          warned = c.warned;
        })
        (parse_uri_list-IsCounted url decoded)

  not_yaml-IsCounted :
      (url given : String) (o : Option String)
      → IsCounted url (not_yaml yaml_object decode_base64 fetch url given o)
  unfolding not_yaml
  not_yaml-IsCounted url given none = parse_uri_list-IsCounted url given
  not_yaml-IsCounted url given (some decoded) =
      decoded_yaml-IsCounted url decoded (yaml_object decoded)

  yaml_or-IsCounted :
      (url given : String) (o : Option Fields)
      → IsCounted url (yaml_or yaml_object decode_base64 fetch url given o)
  unfolding yaml_or
  yaml_or-IsCounted url given none =
      not_yaml-IsCounted url given (decode_base64 (normalize_base64 given))
  yaml_or-IsCounted url given (some raw) =
      either url (has_content (yaml_preview url raw)) _ _ (yaml_preview-IsCounted url raw)
        (not_yaml-IsCounted url given (decode_base64 (normalize_base64 given)))

  parse_subscription-IsCounted :
      (url body : String)
      → WhenShown (IsCounted url) (parse_subscription yaml_object decode_base64 fetch url body)
  unfolding parse_subscription
  parse_subscription-IsCounted url body =
      unless (IsCounted url) (trim_space body == "") empty
        (preview (
          yaml_or yaml_object decode_base64 fetch url (trim_space body)
            (yaml_object (trim_space body))))
        (yaml_or-IsCounted url (trim_space body) (yaml_object (trim_space body)))

  fetched_preview-IsCounted :
      (url : String) (body : Option String)
      → WhenShown (IsCounted url) (fetched_preview yaml_object decode_base64 fetch url body)
  unfolding fetched_preview
  fetched_preview-IsCounted url none = tt
  fetched_preview-IsCounted url (some body) = parse_subscription-IsCounted url body

  -- `PreviewSubscription` gives an error, or a preview of the address, whose counts of proxies and
  -- groups are those of its lists, and which has one warning if it has found neither a proxy nor a
  -- provider and none otherwise.
  pub preview_subscription_lem :
      (url : String)
      → WhenShown
          (IsCounted (trim_space url))
          (preview_subscription yaml_object decode_base64 fetch url)
  unfolding preview_subscription
  preview_subscription_lem url =
      unless (IsCounted (trim_space url)) (trim_space url == "") no_url
        (fetched_preview yaml_object decode_base64 fetch (trim_space url) (fetch (trim_space url)))
        (fetched_preview-IsCounted (trim_space url) (fetch (trim_space url)))
