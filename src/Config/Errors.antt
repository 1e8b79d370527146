-- ===== src/Config/Errors.antt =====
-- Errors as values: a constructor for each message of the source, with the values that it prints.
use oneagent.Prelude.{String, ℤ, Bool, if◌then◌else◌, ◌≡◌, refl, arith}

-- Which configured thing, or which of its fields, a message names.
pub data Kind : Type 0 where
  inbound outbound : Kind

pub data Field : Type 0 where
  name protocol port address uuid password method server_name private_key : Field
  handshake_server handshake_port target_host target_port listen_port obfs_password certificate
        key :
      Field

pub data Error : Type 0 where
  invalid_web_port : ℤ → Error
  empty_name : Kind → Error
  duplicate_name : Kind → String → Error
  -- A field of the item with this name is missing, or is out of its range.
  requires : Kind → String → Field → Error
  unsupported_protocol : Kind → String → String → Error
  unsupported_method : Kind → String → String → Error
  unsupported_mode : String → Error
  missing_default : String → Error
  duplicate_rule : String → Error
  unsupported_match : String → String → Error
  rule_missing_inbound : String → Error
  rule_missing_outbound : String → Error
  rule_requires_value : String → Error
  rule_requires_outbound : String → Error
  -- The requests of the manager.
  field_required : Field → Error
  forward_protocol : Error
  already_exists : Kind → String → Error
  does_not_exist : Kind → String → Error
  bad_node_type : Error
  nothing_selected : Error
  nothing_to_import : Error
  no_providers : Error
  certificate_pair : Error
  not_pem : Field → Error
  -- A read through a nil pointer, which ends the request by a panic.
  nil_pointer : String → Error
  -- An error of the platform, and one of the rollback after another.
  platform : String → Error
  rollback_failed : Error → Error → Error

pub data Result {ℓ} (A : Type ℓ) : Type ℓ where
  err : Error → Result A
  ok : A → Result A

infixl 5 ◌>>=◌ ◌>>◌
-- `if err != nil { return err }` behind a call
abbrev pub ◌>>=◌ {ℓ κ} : {A : Type ℓ} {B : Type κ} → Result A → (A → Result B) → Result B
err failed >>= next = err failed
ok given >>= next = next given

abbrev pub ◌>>◌ {ℓ} : {B : Type ℓ} → Result (Unit {0}) → Result B → Result B
check >> next = check >>= λ _. next

-- `if bad { return err }`
abbrev pub fail_if : Bool → Error → Result (Unit {0})
fail_if bad e = if bad then err e else ok tt

-- A chain that succeeds has succeeded at each step.
pub both_ok {ℓ} :
    {B : Type ℓ} {b : B} (check : Result (Unit {0})) (next : Result B)
    → (check >> next) ≡ ok b
    → (check ≡ ok tt) × (next ≡ ok b)
both_ok (ok tt) next h = (refl, h)
both_ok (err failed) next h = ground arith

pub bound_ok {ℓ κ} :
    {A : Type ℓ} {B : Type κ} {b : B} (given : Result A) (next : A → Result B)
    → (given >>= next) ≡ ok b
    → (a : A) × (given ≡ ok a) × (next a ≡ ok b)
bound_ok (ok a) next h = (a, refl, h)
bound_ok (err failed) next h = ground arith
