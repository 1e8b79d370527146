-- ===== src/Manager/Subscriptions/Due.antt =====
-- Which subscriptions are due, and when they are due again.
use oneagent.Prelude.{
  ℕ, Bool, Elem, if◌then◌else◌, ◌-◌, ◌*◌, ◌%◌, ◌≤◌, String, true, false, not, ◌&&◌, ◌≡◌, ◌≢◌, refl,
  sym, ◌∙◌, ap, ◌⊎◌, inl, inr, List, [], ◌∷◌, none, some, pos, ltℤ, ◌==◌, Dict, insert, lookup,
  lookup-insert, All, All-map, arith, eq_iff, Bool-cases, Option-cases,
}
use oneagent.Config.Types.{ProxyProviderConfig}
use oneagent.Config.Errors.{Result, ok, err}
use oneagent.Platform.{World}
use oneagent.Exec.{◌>>=◌}
use oneagent.Manager.State.{State}
use oneagent.Manager.Subscriptions.{
  interval_of, duration, is_due, due_loop, due_subscription_providers,
}

-- The provider has an interval that nanoseconds in 64 bits can hold: less than 292 years.
abbrev pub IsBounded : ProxyProviderConfig → Type 0
IsBounded provider = interval_of provider ≤ 9223372036

-- The provider was never fetched, or its interval has passed since.
abbrev pub Passed : ℕ → Dict ℕ → ProxyProviderConfig → Type 0
Passed now subscriptions provider =
    (lookup provider.name subscriptions ≡ none)
    ⊎ ((last : ℕ) × (lookup provider.name subscriptions ≡ some last)
        × (interval_of provider ≤ now - last))

interval-positive : (provider : ProxyProviderConfig) → 1 ≤ interval_of provider
unfolding due_subscription_providers
interval-positive provider = ground arith

duration_lem : (n : ℕ) → n ≤ 9223372036 → duration n ≡ pos (n * 1000000000)
unfolding due_subscription_providers
duration_lem n h =
    let small : n * 1000000000 % 18446744073709551616 ≡ n * 1000000000 = omega arith in
    ground (arith, small)

is_due_lem :
    (now last : ℕ) (provider : ProxyProviderConfig)
    → IsBounded provider
    → is_due now (some last) provider ≡ true
    → interval_of provider ≤ now - last
unfolding due_subscription_providers
is_due_lem now last provider bounded h =
    let long = duration_lem (interval_of provider) bounded in
    let enough : ltℤ (pos ((now - last) * 1000000000)) (pos (interval_of provider * 1000000000))
        ≡ false =
      ap (λ d. ltℤ (pos ((now - last) * 1000000000)) d) (sym long) ∙ ground (arith, h) in
    ground (arith, enough)

-- A map that differs from the first one only in names that have got the time `now`.
abbrev Later : ℕ → Dict ℕ → Dict ℕ → Type 0
Later now before after =
    (name : String) → (lookup name after ≡ lookup name before) ⊎ (lookup name after ≡ some now)

-- What the loop says of a provider that it gives: it has an address, its interval has passed in the
-- map before the loop, and the map behind the loop has it at the time `now`.
abbrev pub Given : ℕ → Dict ℕ → Dict ℕ → ProxyProviderConfig → Type 0
Given now before after provider =
    (provider.url ≢ "") × Passed now before provider × (lookup provider.name after ≡ some now)

Later-insert :
    (now : ℕ) (before d : Dict ℕ) (name : String)
    → Later now before d
    → Later now before (insert name now d)
Later-insert now before d name h other = elim (h other) [
  | inl same ↦ ground (arith, lookup-insert name other now d)
  | inr at ↦ ground (arith, lookup-insert name other now d)
]

Passed-now :
    (now : ℕ) (before d : Dict ℕ) (provider : ProxyProviderConfig)
    → IsBounded provider
    → Later now before d
    → is_due now (lookup provider.name d) provider ≡ true
    → Passed now before provider
unfolding due_subscription_providers
Passed-now now before d provider bounded h due = elim (h provider.name) [
  | inl same ↦ elim (Option-cases (lookup provider.name before)) [
    | inl never ↦ inl never
    | inr (last, at) ↦ inr (
      last,
      at,
      is_due_lem now last provider bounded
          (ap (λ o. is_due now o provider) (sym (same ∙ at)) ∙ due),
    )
  ]
  | inr at ↦
      let soon =
        is_due_lem now now provider bounded (ap (λ o. is_due now o provider) (sym at) ∙ due) in
      absurd (none_passed soon (interval-positive provider))
]
  where
    none_passed : interval_of provider ≤ now - now → 1 ≤ interval_of provider → ⊥
    none_passed soon positive = omega (arith, soon, positive)

-- The two ends of a round of the loop.
abbrev Loop : ℕ → Dict ℕ → Dict ℕ → List ProxyProviderConfig × Dict ℕ → Type 0
Loop now before d (due, after) =
    All (Given now before after) due
    × ((name : String) → lookup name d ≡ some now → lookup name after ≡ some now)

module _ (now : ℕ) (before d : Dict ℕ) (provider : ProxyProviderConfig) where
  due-Loop :
      (r : List ProxyProviderConfig × Dict ℕ)
      → provider.url ≢ ""
      → Passed now before provider
      → Loop now before (insert provider.name now d) r
      → Loop now before d (provider ∷ r.0, r.1)
  due-Loop (due, after) url passed (given, kept) = (
    (
      (
        url,
        passed,
        kept provider.name (
            ground (
              arith,
              lookup-insert provider.name provider.name now d,
              eq_iff provider.name provider.name,
            )),
      ),
      given,
    ),
    λ name at. kept name (ground (arith, lookup-insert provider.name name now d)),
  )

due_loop_lem :
    (now : ℕ) (before d : Dict ℕ) (providers : List ProxyProviderConfig)
    → All IsBounded providers
    → Later now before d
    → Loop now before d (due_loop now providers d)
unfolding due_subscription_providers
due_loop_lem now before d [] bounded h = (tt, λ name at. at)
due_loop_lem now before d (p ∷ providers) (small, bounded) h =
    elim (Bool-cases (not (p.url == "") && is_due now (lookup p.name d) p)) [
      | inl due ↦ rw due (
          due-Loop now before d p _ (λ e. ground (arith, eq_iff p.url "", e, due))
            (Passed-now now before d p small h (ground arith))
            (due_loop_lem now before (insert p.name now d) providers bounded
              (Later-insert now before d p.name h)))
      | inr not_due ↦ rw not_due (due_loop_lem now before d providers bounded h)
    ]

-- One of the providers has the name.
abbrev pub HasName : String → List ProxyProviderConfig → Type 0
HasName name providers = (p : ProxyProviderConfig) × Elem p providers × (p.name ≡ name)

is_due-Passed :
    (now : ℕ) (before : Dict ℕ) (provider : ProxyProviderConfig)
    → IsBounded provider
    → Passed now before provider
    → is_due now (lookup provider.name before) provider ≡ true
unfolding due_subscription_providers
is_due-Passed now before provider bounded (inl never) = rw never refl
is_due-Passed now before provider bounded (inr (last, at, passed)) =
    let long = duration_lem (interval_of provider) bounded in
    rw at (rw long (ground (arith, passed)))

not_now :
    (now : ℕ) (before : Dict ℕ) (provider : ProxyProviderConfig)
    → Passed now before provider
    → lookup provider.name before ≡ some now
    → ⊥
not_now now before provider (inl never) at = ground (arith, never, at)
not_now now before provider (inr (last, found, passed)) at =
    let same : last ≡ now = ground (arith, found, at) in
    let positive = interval-positive provider in omega (arith, same, passed, positive)

-- A provider whose interval has passed was marked before, or one of its name is given.
abbrev Covers : ℕ → Dict ℕ → Dict ℕ → List ProxyProviderConfig → ProxyProviderConfig → Type 0
Covers now before d due provider =
    provider.url ≢ ""
    → Passed now before provider
    → (lookup provider.name d ≡ some now) ⊎ HasName provider.name due

Covers-due :
    (now : ℕ) (before d : Dict ℕ) (p q : ProxyProviderConfig) (due : List ProxyProviderConfig)
    → Covers now before (insert p.name now d) due q
    → Covers now before d (p ∷ due) q
Covers-due now before d p q due h url passed = elim (h url passed) [
  | inl at ↦ elim (Bool-cases (p.name == q.name)) [
    | inl same ↦ inr (p, inl refl, ground (arith, same, eq_iff p.name q.name))
    | inr other ↦ inl (ground (arith, other, at, lookup-insert p.name q.name now d))
  ]
  | inr (r, there, name) ↦ inr (r, inr there, name)
]

due_loop-Covers :
    (now : ℕ) (before d : Dict ℕ) (providers : List ProxyProviderConfig)
    → All IsBounded providers
    → Later now before d
    → All (Covers now before d (due_loop now providers d).0) providers
unfolding due_subscription_providers
due_loop-Covers now before d [] bounded h = tt
due_loop-Covers now before d (p ∷ providers) (small, bounded) h =
    go (not (p.url == "") && is_due now (lookup p.name d) p) refl
      λ d' later. due_loop-Covers now before d' providers bounded later
  where
    missed : (a b : Bool) → not a && b ≡ false → (a ≡ true → ⊥) → b ≡ true → ⊥
    missed true b h k e = k refl
    missed false b h k e = ground (arith, h, e)

    Round : Bool → Type 0
    Round b =
        let (rest, marked) = due_loop now providers (if b then insert p.name now d else d) in
        All (Covers now before d (if b then p ∷ rest else rest)) (p ∷ providers)

    go :
        (b : Bool)
        → not (p.url == "") && is_due now (lookup p.name d) p ≡ b
        → ((d' : Dict ℕ)
            → Later now before d'
            → All (Covers now before d' (due_loop now providers d').0) providers)
        → Round b
    go true due rest = (
      λ url passed. inr (p, inl refl, refl),
      All-map (λ q. Covers-due now before d p q _) providers
          (rest (insert p.name now d) (Later-insert now before d p.name h)),
    )
    go false not_due rest = (
      λ url passed. elim (h p.name) [
        | inl same ↦ absurd (
            missed (p.url == "") _ not_due (λ e. url (ground (arith, e, eq_iff p.url "")))
              (ap (λ o. is_due now o p) same ∙ is_due-Passed now before p small passed))
        | inr at ↦ inl at
      ],
      rest d h,
    )

-- `dueSubscriptionProviders` answers with providers that have an address and that were never fetched
-- or whose interval has passed, and it marks each of them with the time of the call; and for each
-- provider of the configuration that has an address and that was never fetched or whose interval has
-- passed, one of its name is in the answer; if no interval is longer than 292 years.
pub due_subscription_lem :
    (s : State)
    → All IsBounded s.self.cfg.mihomo.providers
    → (due : List ProxyProviderConfig) × (t : State) × (due_subscription_providers s ≡ (ok due, t))
      × All (Given s.world.clock s.self.subscriptions t.self.subscriptions) due
      × All
          (λ p. p.url ≢ "" → Passed s.world.clock s.self.subscriptions p → HasName p.name due)
          s.self.cfg.mihomo.providers
unfolding due_subscription_providers ◌>>=◌
due_subscription_lem s bounded = (
  _,
  _,
  refl,
  (due_loop_lem s.world.clock s.self.subscriptions s.self.subscriptions s.self.cfg.mihomo.providers
      bounded (λ name. inl refl)).0,
  All-map (named s.world.clock s.self.subscriptions _) s.self.cfg.mihomo.providers (
      due_loop-Covers s.world.clock s.self.subscriptions s.self.subscriptions
        s.self.cfg.mihomo.providers bounded (λ name. inl refl)),
)
  where
    named :
        (now : ℕ) (before : Dict ℕ) (due : List ProxyProviderConfig) (p : ProxyProviderConfig)
        → Covers now before before due p
        → p.url ≢ ""
        → Passed now before p
        → HasName p.name due
    named now before due p h url passed = elim (h url passed) [
      | inl at ↦ absurd (not_now now before p passed at)
      | inr there ↦ there
    ]

-- What an answer has marked.
abbrev Marks : State → Result (List ProxyProviderConfig) × State → Type 0
Marks s (err e, t) = ⊥
Marks s (ok due, t) =
    All (Given s.world.clock s.self.subscriptions t.self.subscriptions) due
    × (t.self.cfg ≡ s.self.cfg)

answered :
    (s : State) (r answer : Result (List ProxyProviderConfig) × State)
    → r ≡ answer
    → Marks s r
    → Marks s answer
answered s r answer e h = rw (← e) h

due-Marks :
    (s : State) → All IsBounded s.self.cfg.mihomo.providers → Marks s (due_subscription_providers s)
unfolding due_subscription_providers ◌>>=◌
due-Marks s bounded = (
  (due_loop_lem s.world.clock s.self.subscriptions s.self.subscriptions s.self.cfg.mihomo.providers
      bounded (λ name. inl refl)).0,
  refl,
)

Passed-between :
    (now last : ℕ) (d : Dict ℕ) (p q : ProxyProviderConfig)
    → lookup p.name d ≡ some last
    → Passed now d q
    → p.name ≡ q.name
    → interval_of q ≤ now - last
Passed-between now last d p q at (inl never) same = ground arith
Passed-between now last d p q at (inr (at_last, found, passed)) same = ground arith

-- Of two calls in a row, at any times, the second gives a provider of the same name as one that the
-- first has given only when the interval of that provider has passed between the calls, if no
-- interval is longer than 292 years.
pub due_again :
    (s t u : State) (w : World) (first second : List ProxyProviderConfig)
    → All IsBounded s.self.cfg.mihomo.providers
    → due_subscription_providers s ≡ (ok first, t)
    → due_subscription_providers (record t { world = w }) ≡ (ok second, u)
    → All
        (λ (p : ProxyProviderConfig).
          All
            (λ (q : ProxyProviderConfig). p.name ≡ q.name → interval_of q ≤ w.clock - s.world.clock)
            second)
        first
due_again s t u w first second bounded one two =
    let now : Marks s (ok first, t) = answered s _ _ one (due-Marks s bounded) in
    let again : Marks (record t { world = w }) (ok second, u) =
      answered (record t { world = w }) _ _ two
        (due-Marks (record t { world = w }) (rw now.1 bounded)) in
    All-map
      (λ p given.
        All-map
          (λ q later. Passed-between w.clock s.world.clock t.self.subscriptions p q given.2 later.1)
          second again.0)
      first now.0
