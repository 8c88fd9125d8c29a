-- ===== src/Error.antt =====
-- src/error.rs: the application's error type, with the result of a fallible function and the
-- outcome of one that may also panic.
pub mod Display
pub mod Source
use killjoy.Base.{String, Option, none, some, ◌≡◌, refl, ◌⊎◌, inl, inr}
use killjoy.ActiveState.{ActiveState}

-- An error value of another crate. The program reads nothing of it but its text, when it displays
-- the error that holds it.
pub record ExternError : Type 0 where
  pub text : String

-- The standard library's `ParseIntError` is a record of its kind.
pub data IntErrorKind : Type 0 where
  empty invalid_digit pos_overflow neg_overflow zero : IntErrorKind

pub record ParseIntError : Type 0 where
  pub kind : IntErrorKind

pub data Error : Type 0 where
  missing_loop_timeout_arg : Error
  -- with the message of the panic
  monitoring_thread_panicked : String → Error
  parse_loop_timeout_arg : ParseIntError → Error
  unexpected_subcommand : Option String → Error
  settings_file_deserialization_failed : ExternError → Error
  settings_file_not_found : String → Error
  settings_file_not_readable : ExternError → Error
  invalid_active_state : String → Error
  invalid_bus_name : String → Error
  invalid_bus_type : String → Error
  invalid_expression_type : String → Error
  invalid_notifier : String → Error
  invalid_regex : ExternError → Error
  add_signal_match : String → ExternError → Error
  call_properties_get_all : ExternError → Error
  call_manager_get_unit : ExternError → Error
  call_manager_list_units : ExternError → Error
  call_manager_subscribe : ExternError → Error
  cast_bus_name_to_str : ExternError → Error
  cast_unit_active_state : Error
  cast_unit_id : Error
  cast_unit_timestamp : String → Error
  cast_str_to_path : String → Error
  connect_to_bus : ExternError → Error
  get_unit_id : ExternError → Error
  message_lacks_path : Error
  properties_lacks_active_state : Error
  properties_lacks_timestamp : ActiveState → String → Error
  remove_signal_match : String → ExternError → Error

-- `Result<A, E>`
pub data Result {ℓ} (E A : Type ℓ) : Type ℓ where
  ok : A → Result E A
  err : E → Result E A

-- What a call of a foreign function returns.
abbrev pub ExternResult : Type 0 → Type 0
ExternResult = Result ExternError

-- The `?` operator.
infixl 5 ◌>>=◌ ◌>>◌
abbrev pub ◌>>=◌ {ℓ} : {E A B : Type ℓ} → Result E A → (A → Result E B) → Result E B
ok a >>= f = f a
err e >>= f = err e

abbrev pub ◌>>◌ {ℓ} : {E B : Type ℓ} → Result E (Unit {ℓ}) → Result E B → Result E B
m >> k = m >>= λ _. k

-- `map_err`
abbrev pub map_err {ℓ} : {D E A : Type ℓ} → (D → E) → Result D A → Result E A
map_err f (ok a) = ok a
map_err f (err e) = err (f e)

-- `ok_or_else`
abbrev pub ok_or {ℓ} : {E A : Type ℓ} → E → Option A → Result E A
ok_or e none = err e
ok_or e (some a) = ok a

-- A chain that succeeds has a first step that did, with the rest applied to its value.
pub >>=-eq-ok {ℓ} :
    {E A B : Type ℓ} (first : Result E A) (rest : A → Result E B) {last : B}
    → (first >>= rest) ≡ ok last
    → (value : A) × (first ≡ ok value) × (rest value ≡ ok last)
>>=-eq-ok (err problem) rest h = cc
>>=-eq-ok (ok value) rest h = (value, refl, h)

pub Result-cases {ℓ} :
    {E A : Type ℓ} (m : Result E A) → ((a : A) × (m ≡ ok a)) ⊎ ((e : E) × (m ≡ err e))
Result-cases (ok a) = inl (a, refl)
Result-cases (err e) = inr (e, refl)

pub map_err-eq-ok {ℓ} :
    {D E A : Type ℓ} (f : D → E) (m : Result D A) {a : A} → map_err f m ≡ ok a → m ≡ ok a
map_err-eq-ok f (ok b) h = cc
map_err-eq-ok f (err e) h = cc
