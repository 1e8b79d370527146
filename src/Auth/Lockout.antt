-- ===== src/Auth/Lockout.antt =====
-- The limit on failed logins of core/auth.go.
use oneagent.Prelude.{
  ℕ, suc, ◌+◌, ◌≤◌, ◌<◌, String, Bool, true, false, ◌≡◌, refl, sym, ap, ◌∙◌, List, [], ◌∷◌, ◌++◌,
  Option, none, some, Dict, lookup, insert, lookup-insert, leb, length, length-append, select, All,
  All-append, if◌then◌else◌, arith, eq_refl, Bool-cases, inl, inr,
}
use Prim.Native.Nat.{min}
use oneagent.Auth.{
  Bcrypt, Auth, Surroundings, failure_window, failure_limit, failure_key, or_nil, is_recent,
  recent_failures, login, login_open, login_verified, open_session, login_blocked, record_failure,
  verify_password, verify_stored, password_matches,
}
use oneagent.Auth.Passwords.{verify_password-password_matches}

-- The failures that are kept for the name.
abbrev pub failures_of : String → Auth → List ℕ
failures_of user a = or_nil (lookup (failure_key user) a.failures)

lookup_same {ℓ} : {V : Type ℓ} (k : String) (v : V) (m : Dict V) → lookup k (insert k v m) ≡ some v
lookup_same k v m = rw (lookup-insert k k v m, eq_refl k) refl

failures_of-login_blocked :
    (now : ℕ) (user : String) (a : Auth)
    → failures_of user (login_blocked now user a).1 ≡ recent_failures now user a
unfolding login_blocked
failures_of-login_blocked now user a =
    rw (lookup_same (failure_key user) (recent_failures now user a) a.failures) refl

failures_of-record_failure :
    (now : ℕ) (user : String) (a : Auth)
    → failures_of user (record_failure now user a) ≡ failures_of user a ++ now ∷ []
unfolding record_failure
failures_of-record_failure now user a =
    rw (lookup_same (failure_key user) (failures_of user a ++ now ∷ []) a.failures) refl

-- With six failures in the last fifteen minutes `Login` answers false whatever the password, and
-- no account and no session changes.
pub login-blocked :
    (b : Bcrypt) (w : Surroundings) (user password : String) (a : Auth)
    → failure_limit ≤ length (recent_failures w.now user a)
    → ((login b w user password a).0 ≡ none)
      × ((login b w user password a).1.users ≡ a.users)
      × ((login b w user password a).1.sessions ≡ a.sessions)
unfolding login login_open login_blocked
login-blocked b w user password a h = ground arith

-- A failure that still counts at a time counted at every earlier time.
abbrev pub Counts : ℕ → ℕ → Type 0
Counts now item = now < item + failure_window

select-All :
    (now t : ℕ) (items : List ℕ)
    → t ≤ now
    → All (Counts now) items
    → select (is_recent t) items ≡ items
unfolding select is_recent
select-All now t [] h k = refl
select-All now t (x ∷ items) h (c, k) = ground (arith, select-All now t items h k)

recent-eq-All :
    (now t : ℕ) (user : String) (a : Auth)
    → t ≤ now
    → All (Counts now) (failures_of user a)
    → recent_failures t user a ≡ failures_of user a
unfolding recent_failures
recent-eq-All now t user a h k = select-All now t (failures_of user a) h k

-- What a login with a wrong password does, while all of the failures still count.
abbrev Fails : ℕ → ℕ → String → Auth → Option String × Auth → Type 0
Fails now t user a (answer, a') =
    (answer ≡ none)
    × (a'.users ≡ a.users)
    × (failures_of user a' ≡ (
        if leb failure_limit (length (failures_of user a))
        then failures_of user a
        else failures_of user a ++ t ∷ []))

abbrev Mismatches : Bcrypt → Surroundings → String → String → Auth → Type 0
Mismatches b w user password a = (verify_password b w user password a).0 ≡ false

-- The answer depends on the accounts alone.
verify_password-users :
    (b : Bcrypt) (w : Surroundings) (user password : String) (a a' : Auth)
    → a'.users ≡ a.users
    → (verify_password b w user password a').0 ≡ (verify_password b w user password a).0
unfolding password_matches
verify_password-users b w user password a a' e =
    verify_password-password_matches b w user password a'
    ∙ rw e (sym (verify_password-password_matches b w user password a))

Mismatches-after :
    (b : Bcrypt) (w : Surroundings) (user password : String) (a a' : Auth)
    → a'.users ≡ a.users
    → Mismatches b w user password a
    → Mismatches b w user password a'
Mismatches-after b w user password a a' e h = verify_password-users b w user password a a' e ∙ h

verify_password-Mismatches :
    (b : Bcrypt) (w : Surroundings) (user password : String) (a : Auth)
    → Mismatches b w user password a
    → verify_password b w user password a ≡ (false, a)
unfolding verify_password verify_stored
verify_password-Mismatches b w user password a h = ground arith

login_when_blocked :
    (b : Bcrypt) (w : Surroundings) (user password : String) (a : Auth)
    → leb failure_limit (length (recent_failures w.now user a)) ≡ true
    → login b w user password a ≡ (none, (login_blocked w.now user a).1)
unfolding login login_open login_blocked
login_when_blocked b w user password a h = rw h

login_when_open :
    (b : Bcrypt) (w : Surroundings) (user password : String) (a : Auth)
    → leb failure_limit (length (recent_failures w.now user a)) ≡ false
    → Mismatches b w user password a
    → login b w user password a ≡ (none, record_failure w.now user (login_blocked w.now user a).1)
unfolding login login_open login_verified login_blocked
login_when_open b w user password a h k = rw (
  h,
  verify_password-Mismatches b w user password (login_blocked w.now user a).1
      (Mismatches-after b w user password a _ refl k),
)

login-Mismatches :
    (b : Bcrypt) (now : ℕ) (w : Surroundings) (user password : String) (a : Auth)
    → w.now ≤ now
    → All (Counts now) (failures_of user a)
    → Mismatches b w user password a
    → Fails now w.now user a (login b w user password a)
unfolding login_blocked record_failure
login-Mismatches b now w user password a early counted h =
    let same = recent-eq-All now w.now user a early counted in
    let kept = failures_of-login_blocked w.now user a in
    elim (Bool-cases (leb failure_limit (length (recent_failures w.now user a)))) [
      | inl full ↦
          rw (login_when_blocked b w user password a full)
            (refl, refl, ground (arith, same, kept, full))
      | inr room ↦ rw (login_when_open b w user password a room h) (
        refl,
        refl,
        ground (
          arith,
          same,
          kept,
          room,
          failures_of-record_failure w.now user (login_blocked w.now user a).1,
        ),
      )
    ]

-- Logins with the same name, one after another.
unfoldable pub attempts : Bcrypt → List (Surroundings × String) → String → Auth → Auth
attempts b [] user a = a
attempts b ((w, password) ∷ rest) user a = attempts b rest user (login b w user password a).1

-- Attempts that fail, at times that are within fifteen minutes of `now`.
abbrev pub WrongAttempts : Bcrypt → ℕ → String → Auth → List (Surroundings × String) → Type 0
WrongAttempts b now user a [] = Unit
WrongAttempts b now user a ((w, password) ∷ rest) =
    (w.now ≤ now)
    × Counts now w.now
    × Mismatches b w user password a
    × WrongAttempts b now user a rest

WrongAttempts-after :
    (b : Bcrypt) (now : ℕ) (user : String) (a a' : Auth) (tries : List (Surroundings × String))
    → a'.users ≡ a.users
    → WrongAttempts b now user a tries
    → WrongAttempts b now user a' tries
WrongAttempts-after b now user a a' [] e h = tt
WrongAttempts-after b now user a a' ((w, password) ∷ rest) e (early, late, h, k) = (
  early,
  late,
  Mismatches-after b w user password a a' e h,
  WrongAttempts-after b now user a a' rest e k,
)

-- Where failed attempts lead: they all count, but no more than six are kept.
abbrev Failed : ℕ → String → Auth → ℕ → Auth → Type 0
Failed now user a n a' =
    (a'.users ≡ a.users)
    × All (Counts now) (failures_of user a')
    × (length (failures_of user a') ≡ min failure_limit n)

Failed-step :
    (now t : ℕ) (user : String) (a : Auth) (r : Option String × Auth)
    → length (failures_of user a) ≤ failure_limit
    → All (Counts now) (failures_of user a)
    → Counts now t
    → Fails now t user a r
    → Failed now user a (suc (length (failures_of user a))) r.1
Failed-step now t user a r few counted late (none_given, users, kept) = (
  users,
  rw kept (kept_count (leb failure_limit (length (failures_of user a)))),
  rw kept (ground (arith, length-append (failures_of user a) (t ∷ []))),
)
  where
    kept_count :
        (full : Bool)
        → All (Counts now) (if full then failures_of user a else failures_of user a ++ t ∷ [])
    kept_count true = counted
    kept_count false = All-append _ (failures_of user a) (t ∷ []) counted (late, tt)

attempts-Failed :
    (b : Bcrypt) (now : ℕ) (user : String) (a : Auth) (tries : List (Surroundings × String))
    → length (failures_of user a) ≤ failure_limit
    → All (Counts now) (failures_of user a)
    → WrongAttempts b now user a tries
    → Failed now user a (length (failures_of user a) + length tries) (attempts b tries user a)
unfolding attempts
attempts-Failed b now user a [] few counted h = (refl, counted, omega arith)
attempts-Failed b now user a ((w, password) ∷ rest) few counted (early, late, bad, h) =
    let next = login b w user password a in
    let (users, count, size) =
      Failed-step now w.now user a next few counted late
        (login-Mismatches b now w user password a early counted bad) in
    let (users', count', size') =
      attempts-Failed b now user next.1 rest (omega (arith, size)) count
        (WrongAttempts-after b now user a next.1 rest users h) in
    (users' ∙ users, count', omega (arith, size, size'))

-- The answer of `Login`, from the recent failures, the password and the token that was drawn.
pub login_lem :
    (b : Bcrypt) (w : Surroundings) (user password : String) (a : Auth)
    → (login b w user password a).0 ≡ (
        if leb failure_limit (length (recent_failures w.now user a))
        then none
        else if (verify_password b w user password a).0
        then w.token
        else none)
unfolding login login_open login_verified login_blocked open_session
login_lem b w user password a =
    ground (arith, verify_password-users b w user password a (login_blocked w.now user a).1 refl)

-- Where no failure is kept for a name, and the name is then tried with wrong passwords, all within
-- fifteen minutes of a login, that login is refused whatever its password if there were six
-- attempts or more; with fewer, it gives the token exactly if its password is right.
pub lockout :
    (b : Bcrypt) (w : Surroundings) (user password : String) (a : Auth)
    (tries : List (Surroundings × String))
    → failures_of user a ≡ []
    → WrongAttempts b w.now user a tries
    → (login b w user password (attempts b tries user a)).0 ≡ (
        if leb 6 (length tries)
        then none
        else if (verify_password b w user password a).0
        then w.token
        else none)
lockout b w user password a tries fresh h =
    let a' = attempts b tries user a in
    let (users, counted, size) =
      attempts-Failed b w.now user a tries (rw fresh (omega arith)) (rw fresh tt) h in
    rw login_lem (
      ground (
        arith,
        recent-eq-All w.now w.now user a' (omega arith) counted,
        verify_password-users b w user password a a' users,
        size,
        ap length fresh,
      ))
