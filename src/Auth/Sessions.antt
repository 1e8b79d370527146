-- ===== src/Auth/Sessions.antt =====
-- Sessions of core/auth.go: who is authenticated after a login and after a logout.
use oneagent.Prelude.{
  ℕ, ◌+◌, String, Bool, true, false, ◌≡◌, refl, ap, ◌∙◌, leb, eq_iff, if◌then◌else◌, Option, none,
  some, lookup, insert, lookup-insert, lookup-remove, arith, ◌==◌,
}
use oneagent.Auth.{
  Bcrypt, Auth, Surroundings, session_seconds, login, login_open, login_verified, open_session,
  login_blocked, verify_password, clear_failures, record_failure, logout, is_authenticated,
  set_password, verify_stored, upgrade,
}

verify_password-sessions :
    (b : Bcrypt) (w : Surroundings) (user password : String) (a : Auth)
    → (verify_password b w user password a).1.sessions ≡ a.sessions
unfolding verify_password verify_stored upgrade set_password
verify_password-sessions b w user password a = ground arith

-- What a login is known to do, by its answer.
abbrev Answered : Surroundings → Auth → Option String × Auth → Type 0
Answered w a (none, t) = t.sessions ≡ a.sessions
Answered w a (some token, t) =
    (w.token ≡ some token) × (t.sessions ≡ insert token (w.now + session_seconds) a.sessions)

open_session_lem :
    (b : Bcrypt) (w : Surroundings) (token : Option String) (a t : Auth)
    → w.token ≡ token
    → t.sessions ≡ a.sessions
    → Answered w a (open_session b w token t)
unfolding open_session
open_session_lem b w none a t e h = h
open_session_lem b w (some token) a t e h = (e, ap (insert token (w.now + session_seconds)) h)

login_verified_lem :
    (b : Bcrypt) (w : Surroundings) (user : String) (a : Auth) (r : Bool × Auth)
    → r.1.sessions ≡ a.sessions
    → Answered w a (login_verified b w user r)
unfolding login_verified record_failure clear_failures
login_verified_lem b w user a (false, t) h = h
login_verified_lem b w user a (true, t) h = open_session_lem b w w.token a _ refl h

login_open_lem :
    (b : Bcrypt) (w : Surroundings) (user password : String) (a : Auth) (r : Bool × Auth)
    → r.1.sessions ≡ a.sessions
    → Answered w a (login_open b w user password r)
unfolding login_open
login_open_lem b w user password a (true, t) h = h
login_open_lem b w user password a (false, t) h =
    login_verified_lem b w user a _ (verify_password-sessions b w user password t ∙ h)

login_blocked-sessions :
    (now : ℕ) (user : String) (a : Auth) → (login_blocked now user a).1.sessions ≡ a.sessions
unfolding login_blocked
login_blocked-sessions now user a = refl

-- `Login` opens a session for twelve hours under the token that was drawn, or it answers false and
-- all sessions stay as they were.
pub login-sessions :
    (b : Bcrypt) (w : Surroundings) (user password : String) (a : Auth)
    → Answered w a (login b w user password a)
unfolding login
login-sessions b w user password a =
    login_open_lem b w user password a _ (login_blocked-sessions w.now user a)

inserted :
    (token x : String) (w : Surroundings) (a t : Auth)
    → t.sessions ≡ insert x (w.now + session_seconds) a.sessions
    → some x ≡ some token
    → lookup token t.sessions ≡ some (w.now + session_seconds)
inserted token x w a t h e = rw h (
    rw (lookup-insert x token (w.now + session_seconds) a.sessions)
      (ground (arith, eq_iff x token)))

is_authenticated_of :
    (later : ℕ) (w : Surroundings) (a : Auth) (token : String) (r : Option String × Auth)
    → r.0 ≡ some token
    → Answered w a r
    → is_authenticated later (some token) r.1 ≡ leb later (w.now + session_seconds)
unfolding is_authenticated
is_authenticated_of later w a token (none, t) e h = ground arith
is_authenticated_of later w a token (some x, t) e (known, h) =
    let p : lookup token t.sessions ≡ some (w.now + session_seconds) = inserted token x w a t h e in
    rw (is_authenticated, p) (ground arith)

-- The cookie of a successful `Login` is accepted until twelve hours later, and no longer.
pub login-is_authenticated :
    (b : Bcrypt) (w : Surroundings) (user password : String) (a : Auth) (token : String) (later : ℕ)
    → (login b w user password a).0 ≡ some token
    → is_authenticated later (some token) (login b w user password a).1
      ≡ leb later (w.now + session_seconds)
login-is_authenticated b w user password a token later e =
    is_authenticated_of later w a token _ e (login-sessions b w user password a)

-- After `Logout` the cookie of the request is refused at any time, and every other cookie is
-- accepted or refused as before.
pub logout-is_authenticated :
    (now : ℕ) (token other : String) (a : Auth)
    → is_authenticated now (some other) (logout (some token) a)
      ≡ (if token == other then false else is_authenticated now (some other) a)
unfolding is_authenticated logout
logout-is_authenticated now token other a =
    rw (is_authenticated, logout, lookup-remove token other a.sessions) (ground arith)
