-- ===== src/Manager/Import/Counts.antt =====
-- The numbers of an import's report.
use oneagent.Prelude.{
  ℕ, suc, ◌+◌, String, ◌≡◌, refl, ◌∙◌, List, [], ◌∷◌, Option, length, length-append, arith,
}
use oneagent.Config.Types.{OutboundConfig}
use oneagent.Config.Errors.{Result, ok, err}
use oneagent.Exec.{continue, ◌>>=◌}
use oneagent.Manager.State.{State, Method}
use oneagent.Manager.Nodes.{Node}
use oneagent.Manager.Import.{
  Action, Decision, decide, ImportOutboundsReport, ImportOutboundsOptions, count, empty_report,
  import_one, import_loop, import_outbounds,
}

-- The outbounds that a report has dealt with, by each of its numbers.
abbrev pub Sums : ℕ → ImportOutboundsReport → Type 0
Sums n report =
    (report.added + report.updated + report.unchanged ≡ n)
    × (length report.imported ≡ n)
    × (length report.details ≡ n)

-- What a method says of its answer when it succeeds.
abbrev pub WhenOk : {A : Type 0} → (A → Type 0) → Result A × State → Type 0
WhenOk P (ok a, t) = P a
WhenOk P (err e, t) = Unit

module _ {A B : Type 0} (P : B → Type 0) where
  WhenOk-continue :
      (r : Result A × State) (f : A → Method B)
      → ((a : A) (t : State) → r.0 ≡ ok a → WhenOk P (f a t))
      → WhenOk P (continue r f)
  WhenOk-continue (ok a, t) f k = k a t refl
  WhenOk-continue (err e, t) f k = tt

  WhenOk-bind :
      (m : Method A) (f : A → Method B) (s : State)
      → ((a : A) (t : State) → (m s).0 ≡ ok a → WhenOk P (f a t))
      → WhenOk P ((m >>= f) s)
  unfolding ◌>>=◌
  WhenOk-bind m f s k = WhenOk-continue (m s) f k

WhenOk-ok :
    {A : Type 0} (P : A → Type 0) (r : Result A × State) (a : A) → WhenOk P r → r.0 ≡ ok a → P a
WhenOk-ok P (ok b, t) a h e = let same : b ≡ a = ground arith in rw (← same) h
WhenOk-ok P (err x, t) a h e = ground arith

WhenOk-weaken :
    {A : Type 0} (P Q : A → Type 0) (r : Result A × State)
    → ((a : A) → P a → Q a)
    → WhenOk P r
    → WhenOk Q r
WhenOk-weaken P Q (ok a, t) f h = f a h
WhenOk-weaken P Q (err e, t) f h = tt

count-Sums :
    (n : ℕ) (d : Decision) (node : Node) (report : ImportOutboundsReport)
    → Sums n report
    → Sums (suc n) (count d node report) × ((count d node report).parsed ≡ report.parsed)
unfolding import_one
count-Sums n d node report (sum, imported, details) = (
  (
    counted d.action,
    length-append report.imported _ ∙ ground arith,
    length-append report.details _ ∙ ground arith,
  ),
  refl,
)
  where
    counted :
        (action : Action)
        → (elim action [ Action.added ↦ suc report.added | _ ↦ report.added ])
            + (elim action [ Action.updated ↦ suc report.updated | _ ↦ report.updated ])
            + (elim action [ Action.unchanged ↦ suc report.unchanged | _ ↦ report.unchanged ])
          ≡ suc n
    counted Action.added = omega (arith, sum)
    counted Action.updated = omega (arith, sum)
    counted Action.unchanged = omega (arith, sum)

module _ (parse_link : String → Option OutboundConfig) (options : ImportOutboundsOptions) where
  import_one-Sums :
      (n : ℕ) (given : OutboundConfig) (report : ImportOutboundsReport) (s : State)
      → Sums n report
      → WhenOk
          (λ next. Sums (suc n) next × (next.parsed ≡ report.parsed))
          (import_one parse_link options given report s)
  unfolding import_one
  import_one-Sums n given report s h = WhenOk-bind _ _ _ s λ u a _. WhenOk-bind _ _ _ a λ _ b _.
      WhenOk-bind _ _ _ b λ _ c _. WhenOk-bind _ _ _ c λ _ d _. WhenOk-bind _ _ _ d λ _ e _.
        WhenOk-bind _ _ _ e λ _ f _. WhenOk-bind _ _ _ f λ _ g _.
          WhenOk-bind _ _ _ g
            λ node t _. count-Sums n (decide parse_link options u.self given) node report h

  import_loop-Sums :
      (n m : ℕ) (given : List OutboundConfig) (report : ImportOutboundsReport) (s : State)
      → length given + n ≡ m
      → Sums n report
      → WhenOk
          (λ last. Sums m last × (last.parsed ≡ report.parsed))
          (import_loop parse_link options given report s)
  unfolding import_loop
  import_loop-Sums n m [] report s e h =
      let same : n ≡ m = omega (arith, e) in (rw (← same) h, refl)
  import_loop-Sums n m (o ∷ rest) report s e h = WhenOk-bind _ _ _ s λ next t done.
      let (sums, same) =
        WhenOk-ok _ (import_one parse_link options o report s) next (import_one-Sums n o report s h)
          done in
      WhenOk-weaken (λ last. Sums m last × (last.parsed ≡ next.parsed))
        (λ last. Sums m last × (last.parsed ≡ report.parsed))
        (import_loop parse_link options rest next t) (λ last later. (later.0, later.1 ∙ same))
        (import_loop-Sums (suc n) m rest next t (omega (arith, e)) sums)

  -- Where an import succeeds, its report counts each outbound that it was given exactly once, as
  -- added, updated or unchanged, and has one node and one detail for each.
  pub import_outbounds_lem :
      (given : List OutboundConfig) (s : State)
      → WhenOk
          (λ last. Sums (length given) last × (last.parsed ≡ length given))
          (import_outbounds parse_link options given s)
  unfolding import_outbounds
  import_outbounds_lem given s = WhenOk-bind _ _ _ s λ _ a _. WhenOk-bind _ _ _ a λ u b _.
      WhenOk-bind _ _ _ b λ last c done. WhenOk-bind _ _ _ c λ _ d _.
        WhenOk-ok
          (λ (last : ImportOutboundsReport).
            Sums (length given) last × (last.parsed ≡ length given))
          (import_loop parse_link options given (empty_report (length given)) b) last
          (import_loop-Sums 0 (length given) given (empty_report (length given)) b (omega arith)
            (refl, refl, refl))
          done
