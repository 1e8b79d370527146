-- ===== src/Tests/Logins.antt =====
-- Logins of "admin", whose password is "correct horse".
use oneagent.Prelude.{
  ◌≡◌, refl, true, ◌∷◌, [], List, String, none, some, ◌&&◌, if◌then◌else◌, ◌==◌, arith, eq_iff,
  has_prefix, lookup,
}
use oneagent.Auth.{
  Auth, Bcrypt, Surroundings, login, logout, is_authenticated, verify_password, is_bcrypt_hash,
  failure_key, password_matches,
}
use oneagent.Auth.Lockout.{attempts, lockout}
use oneagent.Auth.Passwords.{IsBcrypt, verify_password_again, verify_password-password_matches}
use oneagent.Auth.Sessions.{login-is_authenticated, logout-is_authenticated}

-- A bcrypt that knows one password.
abbrev one_password : Bcrypt
one_password = record {
  generate = λ p. if p == "correct horse" then some "$2a$x" else none;
  compare = λ h p. (h == "$2a$x") && (p == "correct horse");
}

one_password_generates :
    (p h : String) → one_password.generate p ≡ some h → (p ≡ "correct horse") × (h ≡ "$2a$x")
one_password_generates p h e = ground (arith, eq_iff p "correct horse")

one_password-IsBcrypt : IsBcrypt one_password
unfolding is_bcrypt_hash has_prefix
one_password-IsBcrypt = record {
  prefixed = λ p h e. rw (one_password_generates p h e).1;
  matches = λ p h e. rw ((one_password_generates p h e).0, (one_password_generates p h e).1);
}

abbrev at_noon : Surroundings
at_noon = record { now = 43200; token = some "t1"; can_read = true; can_write = true }

abbrev plain : Auth
plain = record { users = ("admin", "correct horse") ∷ []; sessions = []; failures = [] }

abbrev five_tries : List (Surroundings × String)
five_tries = (at_noon, "a") ∷ (at_noon, "b") ∷ (at_noon, "c") ∷ (at_noon, "d") ∷ (at_noon, "e") ∷ []

lockout_example :
    (login one_password at_noon "admin" "correct horse"
      (attempts one_password five_tries "admin" plain)).0
    ≡ some "t1"
unfolding verify_password failure_key lookup
lockout_example =
    lockout one_password at_noon "admin" "correct horse" plain five_tries refl (ground arith)

verify_password_again_example :
    (verify_password one_password at_noon "admin" "correct horse"
      (verify_password one_password at_noon "admin" "correct horse" plain).1).0
    ≡ true
unfolding verify_password lookup
verify_password_again_example =
    verify_password_again one_password one_password-IsBcrypt at_noon at_noon "admin" "correct horse"
      plain refl refl

verify_password-password_matches_example :
    (verify_password one_password at_noon "admin" "x" plain).0
    ≡ password_matches one_password at_noon "admin" "x" plain
verify_password-password_matches_example =
    verify_password-password_matches one_password at_noon "admin" "x" plain

abbrev signed_in : Auth
signed_in = record plain { sessions = ("t0", 50000) ∷ ("t1", 60000) ∷ [] }

login-is_authenticated_example :
    is_authenticated 86400 (some "t1") (login one_password at_noon "admin" "correct horse" plain).1
    ≡ true
unfolding login verify_password lookup
login-is_authenticated_example =
    login-is_authenticated one_password at_noon "admin" "correct horse" plain "t1" 86400 refl

logout-is_authenticated_example :
    is_authenticated 45000 (some "t0") (logout (some "t1") signed_in)
    ≡ is_authenticated 45000 (some "t0") signed_in
logout-is_authenticated_example = logout-is_authenticated 45000 "t1" "t0" signed_in
