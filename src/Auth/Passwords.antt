-- ===== src/Auth/Passwords.antt =====
-- Passwords of core/auth.go: how they are checked, upgraded and changed.
use oneagent.Prelude.{String, true, ◌≡◌, some, lookup-insert, arith, eq_refl}
use oneagent.Auth.{
  Bcrypt, Auth, Surroundings, is_bcrypt_hash, set_password, verify_password, verify_stored, upgrade,
  password_matches,
}

-- What the code relies on in bcrypt: a generated text has a prefix that `isBcryptHash` knows, and
-- it matches its password.
pub record IsBcrypt (b : Bcrypt) : Type 0 where
  pub prefixed : (p h : String) → b.generate p ≡ some h → is_bcrypt_hash h ≡ true
  pub matches : (p h : String) → b.generate p ≡ some h → b.compare h p ≡ true

-- `verifyPassword` and `passwordMatches` give the same answer.
pub verify_password-password_matches :
    (b : Bcrypt) (w : Surroundings) (user password : String) (a : Auth)
    → (verify_password b w user password a).0 ≡ password_matches b w user password a
unfolding verify_password verify_stored upgrade password_matches
verify_password-password_matches b w user password a = ground arith

module _ (b : Bcrypt) (h : IsBcrypt b) where
  -- Where bcrypt keeps its promise, a password that `verifyPassword` accepted is accepted again,
  -- also when its plain text was replaced by a hash.
  pub verify_password_again :
      (w later : Surroundings) (user password : String) (a : Auth)
      → later.can_read ≡ true
      → (verify_password b w user password a).0 ≡ true
      → (verify_password b later user password (verify_password b w user password a).1).0 ≡ true
  unfolding verify_password verify_stored upgrade set_password
  verify_password_again w later user password a r e =
      grind (arith, h.prefixed, h.matches, lookup-insert, eq_refl)
