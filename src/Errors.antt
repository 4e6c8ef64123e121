-- ===== src/Errors.antt =====
-- errors/index.ts: the engine's error value, and the outcome of code that may throw it.
use sqlite_mem.Prelude.{
  codes, ◌++◌, Option, none, some, Text, String, ◌≡◌, ◌≢◌, refl, ◌⊎◌, inl, inr, Bool, true, false,
  if◌then◌else◌,
}

-- `ErrorCategory` (the union is open in the source; these are its named members).
pub data ErrorCategory : Type 0 where
  syntax no_such_table no_such_column : ErrorCategory
  constraint_unique constraint_primary constraint_notnull constraint_check : ErrorCategory
  constraint_foreign constraint transaction datatype_mismatch unsupported : ErrorCategory
  misuse snapshot_version other : ErrorCategory

-- `SqliteError`; its field `code` repeats `sqlite_code`.
pub record SqliteError : Type 0 where
  pub message : Text
  pub category : ErrorCategory
  pub sqlite_code : String

-- `new SqliteError(message, category)`, with the default result code.
abbrev pub sqlite_error : Text → ErrorCategory → SqliteError
sqlite_error m c = record { message = m; category = c; sqlite_code = "SQLITE_ERROR" }

-- What a call does: it returns a value, or throws.
pub data Result {ℓ} (A : Type ℓ) : Type ℓ where
  err : SqliteError → Result A
  ok : A → Result A

-- The code behind a call, which runs if the call returns.
infixl 5 ◌>>=◌
abbrev pub ◌>>=◌ {ℓ κ} : {S : Type ℓ} {R : Type κ} → Result S → (S → Result R) → Result R
err thrown >>= rest = err thrown
ok value >>= rest = rest value

-- To split on what a call does, with the equation.
pub Result-cases {ℓ} :
    {S : Type ℓ} (call : Result S)
    → ((value : S) × (call ≡ ok value)) ⊎ ((thrown : SqliteError) × (call ≡ err thrown))
Result-cases (ok value) = inl (value, refl)
Result-cases (err thrown) = inr (thrown, refl)

pub ok-injective {ℓ} : {S : Type ℓ} (a b : S) → ok a ≡ ok b → a ≡ b
ok-injective a b e = cc

pub err-not_ok {ℓ} : {S : Type ℓ} {thrown : SqliteError} {a : S} → err thrown ≢ ok a
err-not_ok e = cc

-- A call returned, and so did the code behind it.
pub data Returned {ℓ κ} {S : Type ℓ} {T : Type κ} (call : Result S) (rest : S → Result T) (out : T)
    : Type (ℓ ⊔ κ) where
  returned : (value : S) → call ≡ ok value → rest value ≡ ok out → Returned call rest out

-- Where the code behind a call returns, so did the call.
pub bind_ok {ℓ κ} :
    {S : Type ℓ} {T : Type κ} (call : Result S) (rest : S → Result T) (out : T)
    → (call >>= rest) ≡ ok out
    → Returned call rest out
bind_ok (ok value) rest out e = returned value refl e
bind_ok (err thrown) rest out e = cc

-- Where a test that throws has returned, it was false.
pub guard_ok {ℓ} :
    {S : Type ℓ} (test : Bool) (thrown : SqliteError) (rest : Result S) (out : S)
    → (if test then err thrown else rest) ≡ ok out
    → (test ≡ false) × (rest ≡ ok out)
guard_ok true thrown rest out e = cc
guard_ok false thrown rest out e = (refl, e)

-- `unsupported`, which always throws.
abbrev pub unsupported_feature : Text → SqliteError
unsupported_feature feature =
    sqlite_error (codes "Unsupported SQLite feature: " ++ feature) unsupported

-- `TriggerRaiseError`: its action, and the error that it is.
pub data RaiseAction : Type 0 where
  ignore abort fail rollback : RaiseAction

abbrev pub action_name : RaiseAction → String
action_name ignore = "IGNORE"
action_name abort = "ABORT"
action_name fail = "FAIL"
action_name rollback = "ROLLBACK"

pub record TriggerRaiseError : Type 0 where
  pub action : RaiseAction
  pub error : SqliteError

abbrev pub or_name : RaiseAction → Option Text → Text
or_name a none = codes (action_name a)
or_name a (some m) = m

abbrev pub raise_error : RaiseAction → Option Text → SqliteError
raise_error fail m = record {
  message = or_name fail m;
  category = constraint;
  sqlite_code = "SQLITE_CONSTRAINT";
}
raise_error a m = sqlite_error (or_name a m) other

abbrev pub trigger_raise_error : RaiseAction → Option Text → TriggerRaiseError
trigger_raise_error a m = record { action = a; error = raise_error a m }
