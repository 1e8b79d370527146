-- ===== src/Exec.antt =====
-- Methods that change an object and may end with an error: the object comes back beside the error,
-- as the writes before an early return left it.
use oneagent.Prelude.{Bool, true, false}
use oneagent.Config.Errors.{Error, Result, ok, err}

abbrev pub Exec {ℓ} : Type ℓ → Type ℓ → Type ℓ
Exec S A = S → Result A × S

abbrev pub continue {ℓ} : {S A B : Type ℓ} → Result A × S → (A → Exec S B) → Result B × S
continue (ok a, s) f = f a s
continue (err e, s) f = (err e, s)

infixl 5 ◌>>=◌ ◌>>◌
unfoldable pub ◌>>=◌ {ℓ} : {S A B : Type ℓ} → Exec S A → (A → Exec S B) → Exec S B
◌>>=◌ m f s = continue (m s) f

abbrev pub ◌>>◌ {ℓ} : {S A B : Type ℓ} → Exec S A → Exec S B → Exec S B
m >> k = m >>= λ _. k

abbrev pub pure {ℓ} : {S A : Type ℓ} → A → Exec S A
pure a s = (ok a, s)

abbrev pub raise {ℓ} : {S A : Type ℓ} → Error → Exec S A
raise e s = (err e, s)

-- `if bad { return err }`
abbrev pub refuse_if : {S : Type 0} → Bool → Error → Exec S (Unit {0})
refuse_if true e s = (err e, s)
refuse_if false e s = (ok tt, s)

-- A computation that reads and writes nothing.
abbrev pub lift {ℓ} : {S A : Type ℓ} → Result A → Exec S A
lift r s = (r, s)

abbrev pub get {ℓ} : {S : Type ℓ} → Exec S S
get s = (ok s, s)

abbrev pub modify : {S : Type 0} → (S → S) → Exec S (Unit {0})
modify f s = (ok tt, f s)
