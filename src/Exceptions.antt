-- ===== src/Exceptions.antt =====
-- What the agent's code throws, and code that returns or throws. `json::Exception` of src/json.h is
-- told by its cause, not by its message; the other exceptions carry what their messages vary by.
-- `thrown_pointer` is the pointer that `throw new` throws. `null_dereference` and `stack_overflow` are no
-- exceptions of the code: they end the program. The first stands for the undefined behaviour of a call on a
-- null pointer, which ends the program.
use metadata_agent.Prelude.{ap, ℕ, Text, ◌≡◌, refl, inl, inr, ◌⊎◌}

-- json::Type, in the order of the source.
pub data JsonType : Type 0 where
  null_type boolean_type number_type string_type array_type object_type : JsonType

pub data JsonError : Type 0 where
  no_field : Text → JsonError
  bad_field : Text → JsonType → JsonError
  bad_type : JsonType → JsonError
  parse_error : JsonError
  many_values : ℕ → JsonError
  container_gone : Text → JsonError

pub data Exception : Type 0 where
  json_exception : JsonError → Exception
  query_exception : Exception
  non_retriable_error : Exception
  out_of_range : Exception
  system_error : Exception
  validation_error : Exception
  unknown_kind : Text → Exception
  null_dereference : Exception
  stack_overflow : Exception
  thrown_pointer : Exception

pub data Result {ℓ} (A : Type ℓ) : Type ℓ where
  ok : A → Result A
  raise : Exception → Result A

infixl 5 ◌>>=◌
abbrev pub ◌>>=◌ {ℓ κ} : {A : Type ℓ} {B : Type κ} → Result A → (A → Result B) → Result B
ok a >>= f = f a
raise e >>= f = raise e

pub Result-cases {ℓ} :
    {A : Type ℓ} (r : Result A) → ((a : A) × (r ≡ ok a)) ⊎ ((e : Exception) × (r ≡ raise e))
Result-cases (ok a) = inl (a, refl)
Result-cases (raise e) = inr (e, refl)

abbrev or_default {ℓ} : {A : Type ℓ} → A → Result A → A
or_default a (ok b) = b
or_default a (raise e) = a

pub ok_injective {ℓ} : {A : Type ℓ} {a b : A} → ok a ≡ ok b → a ≡ b
ok_injective {a} e = ap (or_default a) e

-- A chain that returns: what its first step returned, and that the others return from there.
pub bind_returned :
    {X Y : Type 0} (first : Result X) (others : X → Result Y) {y : Y}
    → (first >>= others) ≡ ok y
    → (x : X) × (others x ≡ ok y) × (first ≡ ok x)
bind_returned (ok x) others returned = (x, returned, refl)
bind_returned (raise e) others returned = cc
