-- ===== src/Manager/Updates/Answered.antt =====
-- An update of the subscriptions reports of each provider that has an address, whatever fails on the way.
use oneagent.Prelude.{
  ℕ, ◌+◌, String, Bool, true, false, not, ◌≡◌, refl, ap, map, ◌⊎◌, inl, inr, List, [], ◌∷◌, ◌++◌,
  Option, none, some, length, select, ◌==◌, if◌then◌else◌,
}
use oneagent.Config.Types.{OutboundConfig, ProxyProviderConfig}
use oneagent.Config.Errors.{Error, Result, ok, err}
use oneagent.Exec.{continue, ◌>>=◌, ◌>>◌, pure}
use oneagent.Manager.State.{State, Method}
use oneagent.Manager.Import.{ImportOutboundsReport, ImportOutboundsOptions, import_outbounds}
use oneagent.Manager.Import.Counts.{Sums, WhenOk, import_outbounds_lem}
use oneagent.Manager.Subscriptions.{mark_subscription_updated}
use oneagent.Manager.Updates.{
  UpdateError, not_fetched, not_parsed, not_imported, SubscriptionUpdateResult, started,
  imported_result, attempt, parse_link, import_parsed, update_fetched, update_downloaded,
  update_loop, update_subscriptions_for_providers,
}
use oneagent.Links.Library.{Library}
use oneagent.Links.Text.{ImportParseError, parse_outbound_links_detailed}

-- The method succeeds, with an answer of the predicate.
abbrev pub Succeeds : {A : Type 0} → (A → Type 0) → Result A × State → Type 0
Succeeds P (ok a, t) = P a
Succeeds P (err e, t) = ⊥

module _ {A B : Type 0} (P : A → Type 0) (Q : B → Type 0) where
  Succeeds-continue :
      (r : Result A × State) (f : A → Method B)
      → Succeeds P r
      → ((a : A) (t : State) → P a → Succeeds Q (f a t))
      → Succeeds Q (continue r f)
  Succeeds-continue (ok a, t) f h k = k a t h
  Succeeds-continue (err e, t) f h k = absurd h

  Succeeds-bind :
      (m : Method A) (f : A → Method B) (s : State)
      → Succeeds P (m s)
      → ((a : A) (t : State) → P a → Succeeds Q (f a t))
      → Succeeds Q ((m >>= f) s)
  unfolding ◌>>=◌
  Succeeds-bind m f s h k = Succeeds-continue (m s) f h k

-- The report says that so many outbounds were read, and it has the errors of the links that were not
-- read; the import counts each outbound as added, updated or unchanged, or it failed, which is one
-- more error and counts nothing.
abbrev pub Counts : ℕ → List UpdateError → SubscriptionUpdateResult → Type 0
Counts n errors result =
    (result.parsed ≡ n)
    × (((result.added + result.updated + result.unchanged ≡ n) × (result.errors ≡ errors))
        ⊎ ((e : Error) × (result.added + result.updated + result.unchanged ≡ 0)
            × (result.errors ≡ errors ++ not_imported e ∷ [])))

-- What a report says of the text that was downloaded, if it was.
abbrev pub Reads : Library → Option String → SubscriptionUpdateResult → Type 0
Reads lib none result = (result.parsed ≡ 0) × (result.errors ≡ not_fetched ∷ [])
Reads lib (some body) result =
    Counts (length (parse_outbound_links_detailed lib body).0)
      (map (λ (detail : ImportParseError). not_parsed detail.error)
        (parse_outbound_links_detailed lib body).1)
      result

-- The report is about the provider.
abbrev pub IsAbout : ProxyProviderConfig → SubscriptionUpdateResult → Type 0
IsAbout provider result = (result.provider ≡ provider.name) × (result.url ≡ provider.url)

-- A report for each of the providers, in their order
abbrev pub AllReported :
    Library
    → (String → Option String)
    → List ProxyProviderConfig
    → List SubscriptionUpdateResult
    → Type 0
AllReported lib fetch [] [] = Unit
AllReported lib fetch [] (result ∷ results) = ⊥
AllReported lib fetch (provider ∷ providers) [] = ⊥
AllReported lib fetch (provider ∷ providers) (result ∷ results) =
    (IsAbout provider result × Reads lib (fetch provider.url) result)
    × AllReported lib fetch providers results

-- What is said of an answer holds where there is one.
abbrev OkIs : {A : Type 0} → (A → Type 0) → Result A → Type 0
OkIs P (ok a) = P a
OkIs P (err e) = Unit

OkIs-WhenOk : {A : Type 0} (P : A → Type 0) (r : Result A × State) → WhenOk P r → OkIs P r.0
OkIs-WhenOk P (ok a, t) h = h
OkIs-WhenOk P (err e, t) h = tt

attempt-Succeeds :
    {A : Type 0} (P : A → Type 0) (m : Method A) (s : State)
    → WhenOk P (m s)
    → Succeeds (OkIs P) (attempt m s)
unfolding attempt
attempt-Succeeds P m s h = OkIs-WhenOk P (m s) h

-- The report of an import that was given so many outbounds
Imported : ℕ → ImportOutboundsReport → Type 0
Imported n report = Sums n report × (report.parsed ≡ n)

-- The report of a provider, of a text with so many outbounds and with these errors
Told : ProxyProviderConfig → ℕ → List UpdateError → SubscriptionUpdateResult → Type 0
Told provider n errors result = IsAbout provider result × Counts n errors result

module _ (provider : ProxyProviderConfig) (n : ℕ) (errors : List UpdateError)
    (result : SubscriptionUpdateResult) (about : IsAbout provider result)
    (parsed : result.parsed ≡ n) (same : result.errors ≡ errors)
    (no_counts : result.added + result.updated + result.unchanged ≡ 0) where
  imported_result-Told :
      (r : Result ImportOutboundsReport)
      → OkIs (Imported n) r
      → Told provider n errors (imported_result result r)
  unfolding imported_result Imported Told
  imported_result-Told (err e) h =
      (about, (parsed, inr (e, no_counts, ap (λ es. es ++ not_imported e ∷ []) same)))
  imported_result-Told (ok report) ((sum, _, _), _) = (about, (parsed, inl (sum, same)))

abbrev pub has_url : ProxyProviderConfig → Bool
has_url provider = not (provider.url == "")

module _ (lib : Library) (fetch : String → Option String) where
  import_parsed-Told :
      (provider : ProxyProviderConfig) (result : SubscriptionUpdateResult)
      (outbounds : List OutboundConfig) (errors : List UpdateError) (s : State)
      → IsAbout provider result
      → result.parsed ≡ length outbounds
      → result.errors ≡ errors
      → result.added + result.updated + result.unchanged ≡ 0
      → Succeeds
          (Told provider (length outbounds) errors)
          (import_parsed lib fetch provider result outbounds s)
  unfolding import_parsed Told Imported
  import_parsed-Told provider result [] errors s about parsed same none_yet =
      (about, (parsed, inl (none_yet, same)))
  import_parsed-Told provider result (o ∷ outbounds) errors s about parsed same none_yet =
      let given = o ∷ outbounds in
      let options : ImportOutboundsOptions = record {
        provider = provider;
        from_subscription = true;
      } in
      Succeeds-bind (OkIs (Imported (length given))) (Told provider (length given) errors)
        (attempt (import_outbounds (parse_link lib fetch) options given))
        (λ r. pure (imported_result result r)) s
        (attempt-Succeeds (Imported (length given))
          (import_outbounds (parse_link lib fetch) options given) s
          (import_outbounds_lem (parse_link lib fetch) options given s))
        (λ r t h.
          imported_result-Told provider (length given) errors result about parsed same none_yet r h)

  mark-Succeeds :
      (P : SubscriptionUpdateResult → Type 0) (result : SubscriptionUpdateResult) (name : String)
      (s : State)
      → P result
      → Succeeds P ((mark_subscription_updated name >> pure result) s)
  unfolding mark_subscription_updated ◌>>=◌
  mark-Succeeds P result name s h = h

  update_downloaded-Reads :
      (provider : ProxyProviderConfig) (body : Option String) (s : State)
      → Succeeds
          (λ result. IsAbout provider result × Reads lib body result)
          (update_downloaded lib fetch provider body s)
  unfolding update_downloaded update_fetched started Told
  update_downloaded-Reads provider none s = ((refl, refl), (refl, refl))
  update_downloaded-Reads provider (some body) s =
      let (outbounds, details) = parse_outbound_links_detailed lib body in
      let errors = map (λ (detail : ImportParseError). not_parsed detail.error) details in
      Succeeds-bind (Told provider (length outbounds) errors)
        (Told provider (length outbounds) errors) _ _ s
        (import_parsed-Told provider _ outbounds errors s (refl, refl) refl refl refl)
        (λ result t h.
          mark-Succeeds (Told provider (length outbounds) errors) result provider.name t h)

  update_loop-AllReported :
      (providers : List ProxyProviderConfig) (s : State)
      → Succeeds
          (AllReported lib fetch (select has_url providers))
          (update_loop lib fetch providers s)
  unfolding update_loop select
  update_loop-AllReported [] s = tt
  update_loop-AllReported (provider ∷ providers) s =
      go (provider.url == "") (update_loop-AllReported providers)
    where
      go :
          (b : Bool)
          → ((t : State)
              → Succeeds
                  (AllReported lib fetch (select has_url providers))
                  (update_loop lib fetch providers t))
          → Succeeds
              (AllReported lib fetch
                (if not b then provider ∷ select has_url providers else select has_url providers))
              ((if b
                  then update_loop lib fetch providers
                  else (update_downloaded lib fetch provider (fetch provider.url) >>= λ result.
                      update_loop lib fetch providers >>= λ results. pure (result ∷ results)))
                s)
      go true ih = ih s
      go false ih =
          Succeeds-bind (λ result. IsAbout provider result × Reads lib (fetch provider.url) result)
            (AllReported lib fetch (provider ∷ select has_url providers)) _ _ s
            (update_downloaded-Reads provider (fetch provider.url) s)
            (λ result t h.
              Succeeds-bind (AllReported lib fetch (select has_url providers))
                (AllReported lib fetch (provider ∷ select has_url providers)) _ _ t (ih t)
                (λ results u k. (h, k)))

  -- Whichever downloads, links and imports fail, an update of one provider or more succeeds. It reports
  -- of each provider that has an address, in their order: that the download failed; or how many
  -- outbounds `ParseOutboundLinksDetailed` read from what was downloaded, with its errors, and
  -- either each of these outbounds counted as added, updated or unchanged, or one error more.
  pub update_subscriptions_for_providers_lem :
      (provider : ProxyProviderConfig) (providers : List ProxyProviderConfig) (s : State)
      → Succeeds
          (AllReported lib fetch (select has_url (provider ∷ providers)))
          (update_subscriptions_for_providers lib fetch (provider ∷ providers) s)
  unfolding update_subscriptions_for_providers
  update_subscriptions_for_providers_lem provider providers s =
      update_loop-AllReported (provider ∷ providers) s
