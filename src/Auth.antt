-- ===== src/Auth.antt =====
-- core/auth.go: accounts, sessions and failed logins. Times are numbers of seconds.
pub mod Sessions
pub mod Lockout
pub mod Passwords
use oneagent.Prelude.{
  ℕ, ◌+◌, String, Bool, true, false, not, ◌&&◌, ◌||◌, List, [], ◌∷◌, ◌++◌, Option, none, some, ◌==◌,
  ◌≡◌, ltb, leb, if◌then◌else◌, Dict, lookup, insert, remove, select, length, trim_space,
  has_prefix, byte_length,
}

-- golang.org/x/crypto/bcrypt: `GenerateFromPassword` at the default cost, `none` where it refuses
-- the password, and `CompareHashAndPassword`.
pub record Bcrypt : Type 0 where
  pub generate : String → Option String
  pub compare : String → String → Bool

-- `Auth`, and the passwords of the table `users`, whose key is the name.
pub record Auth : Type 0 where
  pub users : Dict String
  pub sessions : Dict ℕ
  pub failures : Dict (List ℕ)

-- What a request meets: the time, the random token (`none` where `rand.Read` fails), and whether
-- the database answers a query and takes an update.
pub record Surroundings : Type 0 where
  pub now : ℕ
  pub token : Option String
  pub can_read : Bool
  pub can_write : Bool

abbrev pub session_seconds : ℕ
session_seconds = 43200

abbrev pub failure_window : ℕ
failure_window = 900

abbrev pub failure_limit : ℕ
failure_limit = 6

-- The name under which failures are counted.
unfoldable pub failure_key : String → String
unfolding trim_space
failure_key username = if trim_space username == "" then "admin" else trim_space username

abbrev pub or_nil {ℓ} : {A : Type ℓ} → Option (List A) → List A
or_nil none = []
or_nil (some l) = l

-- `item.After(cutoff)`, with the cutoff 15 minutes before `now`
unfoldable pub is_recent : ℕ → ℕ → Bool
is_recent now item = ltb now (item + failure_window)

unfoldable pub recent_failures : ℕ → String → Auth → List ℕ
unfolding is_recent select failure_key
recent_failures now username a =
    select (is_recent now) (or_nil (lookup (failure_key username) a.failures))

-- `loginBlocked`
unfoldable pub login_blocked : ℕ → String → Auth → Bool × Auth
unfolding recent_failures
login_blocked now username a =
    let next = recent_failures now username a in
    (
      leb failure_limit (length next),
      record a { failures = insert (failure_key username) next a.failures },
    )

-- `recordFailure`
unfoldable pub record_failure : ℕ → String → Auth → Auth
unfolding failure_key
record_failure now username a = record a {
  failures =
      insert (failure_key username) (or_nil (lookup (failure_key username) a.failures) ++ now ∷ [])
        a.failures;
}

-- `clearFailures`
unfoldable pub clear_failures : String → Auth → Auth
unfolding failure_key
clear_failures username a = record a { failures = remove (failure_key username) a.failures }

-- `isBcryptHash`
unfoldable pub is_bcrypt_hash : String → Bool
unfolding has_prefix
is_bcrypt_hash value = has_prefix value "$2a$" || has_prefix value "$2b$" || has_prefix value "$2y$"

-- `UPDATE users SET password = ? WHERE username = ?`: no row is added.
unfoldable pub set_password : String → String → Auth → Auth
set_password username hash a = elim (lookup username a.users) [
  | none ↦ a
  | some _ ↦ record a { users = insert username hash a.users }
]

module _ (b : Bcrypt) where
  -- The password of a text that is no hash is hashed, where the hash and the update succeed.
  upgrade : Surroundings → String → Option String → Auth → Auth
  upgrade w username none a = a
  upgrade w username (some hash) a = if w.can_write then set_password username hash a else a

  verify_stored : Surroundings → String → String → Option String → Auth → Bool × Auth
  verify_stored w username password none a = (false, a)
  verify_stored w username password (some stored) a =
      if is_bcrypt_hash stored
      then (b.compare stored password, a)
      else if not (stored == password)
      then (false, a)
      else (true, upgrade w username (b.generate password) a)

  abbrev pub query : Surroundings → String → Auth → Option String
  query w username a = if w.can_read then lookup username a.users else none

  -- `verifyPassword`
  unfoldable pub verify_password : Surroundings → String → String → Auth → Bool × Auth
  unfolding is_bcrypt_hash verify_stored upgrade set_password
  verify_password w username password a = verify_stored w username password (query w username a) a

  -- `passwordMatches`
  unfoldable pub password_matches : Surroundings → String → String → Auth → Bool
  unfolding is_bcrypt_hash
  password_matches w username password a = elim (query w username a) [
    | none ↦ false
    | some stored ↦ if is_bcrypt_hash stored then b.compare stored password else stored == password
  ]

  open_session : Surroundings → Option String → Auth → Option String × Auth
  open_session w none a = (none, a)
  open_session w (some token) a =
      (some token, record a { sessions = insert token (w.now + session_seconds) a.sessions })

  login_verified : Surroundings → String → Bool × Auth → Option String × Auth
  login_verified w user (false, a) = (none, record_failure w.now user a)
  login_verified w user (true, a) = open_session w w.token (clear_failures user a)

  login_open : Surroundings → String → String → Bool × Auth → Option String × Auth
  login_open w user password (true, a) = (none, a)
  login_open w user password (false, a) = login_verified w user (verify_password w user password a)

  -- `Login`: the cookie's value, where it is true.
  unfoldable pub login : Surroundings → String → String → Auth → Option String × Auth
  unfolding login_blocked verify_password login_verified login_open open_session record_failure
      clear_failures
  login w user password a = login_open w user password (login_blocked w.now user a)

  pub data ChangeError : Type 0 where
    username_required too_short incorrect not_hashed not_written : ChangeError

  -- `ChangePassword`; `none` is success.
  change_verified : Surroundings → String → Option String → Bool × Auth → Option ChangeError × Auth
  change_verified w username hash (false, a) = (some incorrect, a)
  change_verified w username none (true, a) = (some not_hashed, a)
  change_verified w username (some hash) (true, a) =
      if w.can_write
      then (none, record (set_password username hash a) { sessions = [] })
      else (some not_written, a)

  unfoldable pub change_password :
      Surroundings → String → String → String → Auth → Option ChangeError × Auth
  unfolding verify_password change_verified set_password
  change_password w username current next a =
      if username == ""
      then (some username_required, a)
      else if ltb (byte_length next) 8
      then (some too_short, a)
      else change_verified w username (b.generate next) (verify_password w username current a)

  insert_user : Surroundings → String → Option String → Auth → Bool × Auth
  insert_user w username none a = (false, a)
  insert_user w username (some hash) a =
      if w.can_write then (true, record a { users = insert username hash a.users }) else (false, a)

  replace_user : Surroundings → String → Option String → Auth → Bool × Auth
  replace_user w username none a = (false, a)
  replace_user w username (some hash) a =
      if w.can_write then (true, set_password username hash a) else (false, a)

  ensure_stored : Surroundings → String → String → Option String → Auth → Bool × Auth
  ensure_stored w username password none a = insert_user w username (b.generate password) a
  ensure_stored w username password (some stored) a =
      if is_bcrypt_hash stored
      then (true, a)
      else replace_user w username (b.generate (if not (password == "") then password else stored))
          a

  abbrev or_text : String → String → String
  or_text s d = if s == "" then d else s

  -- `EnsureAdmin`; false is an error.
  unfoldable pub ensure_admin : Surroundings → String → String → Auth → Bool × Auth
  unfolding is_bcrypt_hash insert_user replace_user ensure_stored set_password
  ensure_admin w given_name given_password a =
      let username = or_text given_name "admin" in
      if w.can_read
      then ensure_stored w username (or_text given_password "password123") (lookup username a.users)
          a
      else (false, a)

  -- `Refresh`
  unfoldable pub refresh : Surroundings → String → String → Auth → Auth
  unfolding ensure_admin
  refresh w user password a = if user == "" then a else (ensure_admin w user password a).1

-- `Logout`, for a request with its session cookie, if it has one.
unfoldable pub logout : Option String → Auth → Auth
logout none a = a
logout (some token) a = record a { sessions = remove token a.sessions }

-- `IsAuthenticated`, at a time.
unfoldable pub is_authenticated : ℕ → Option String → Auth → Bool
is_authenticated now none a = false
is_authenticated now (some token) a = elim (lookup token a.sessions) [
  | none ↦ false
  | some expires ↦ not (ltb expires now)
]

pub data Response : Type 0 where
  served redirected unauthorized : Response

-- `Middleware`: what becomes of a request for a path.
unfoldable pub middleware : ℕ → Option String → String → Auth → Response
unfolding is_authenticated
middleware now cookie path a =
    if is_authenticated now cookie a
    then served
    else if path == "/" || path == "/templates/dashboard.html"
    then redirected
    else unauthorized
