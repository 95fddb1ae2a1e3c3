-- ===== src/Json/Throws.antt =====
-- src/json.h: what the downcasts and the field accessors throw.
use metadata_agent.Prelude.{
  text_ord, Text, ◌≡◌, refl, Bool, true, false, Option, none, some, if◌then◌else◌,
}
use metadata_agent.Prelude.Map.{find}
use metadata_agent.Exceptions.{
  Result, ok, raise, ◌>>=◌, json_exception, JsonError, no_field, bad_field, bad_type, JsonType,
  object_type, string_type, number_type,
}
use metadata_agent.Json.{Value, number, string, object, Object}
use metadata_agent.Json.Access.{
  is, as_object, as_string, as_number, get_field, get_string, get_number,
}

-- It throws JSON exceptions alone.
abbrev pub ThrowsJson {ℓ} : {A : Type ℓ} → Result A → Type 0
ThrowsJson (ok a) = Unit
ThrowsJson (raise e) = (x : JsonError) × (e ≡ json_exception x)

pub ThrowsJson-bind {ℓ κ} :
    {A : Type ℓ} {B : Type κ} (r : Result A) (f : A → Result B)
    → ThrowsJson r
    → ((a : A) → ThrowsJson (f a))
    → ThrowsJson (r >>= f)
ThrowsJson-bind (ok a) f h k = k a
ThrowsJson-bind (raise e) f h k = h

module _ {Num : Type 0} where
  pub as_object-ThrowsJson : (v : Value Num) → ThrowsJson (as_object v)
  unfolding as_object
  as_object-ThrowsJson (object fs) = tt
  as_object-ThrowsJson v = (bad_type object_type, refl)

  as_string-ThrowsJson : (v : Value Num) → ThrowsJson (as_string v)
  unfolding as_string
  as_string-ThrowsJson (string s) = tt
  as_string-ThrowsJson v = (bad_type string_type, refl)

  as_number-ThrowsJson : (v : Value Num) → ThrowsJson (as_number v)
  unfolding as_number
  as_number-ThrowsJson (number n) = tt
  as_number-ThrowsJson v = (bad_type number_type, refl)

  get_field-ThrowsJson : (t : JsonType) (f : Text) (m : Object Num) → ThrowsJson (get_field t f m)
  unfolding get_field
  get_field-ThrowsJson t f m = found (find f m)
    where
      typed :
          (b : Bool) (v : Value Num)
          → ThrowsJson (if b then ok v else raise (json_exception (bad_field f t)))
      typed true v = tt
      typed false v = (bad_field f t, refl)

      found :
          (o : Option (Value Num))
          → ThrowsJson (elim o [
            | none ↦ raise (json_exception (no_field f))
            | some v ↦ if is t v then ok v else raise (json_exception (bad_field f t))
          ])
      found none = (no_field f, refl)
      found (some v) = typed (is t v) v

  pub get_string-ThrowsJson : (f : Text) (m : Object Num) → ThrowsJson (get_string f m)
  unfolding get_string
  get_string-ThrowsJson f m =
      ThrowsJson-bind (get_field string_type f m) as_string (get_field-ThrowsJson string_type f m)
        as_string-ThrowsJson

  pub get_number-ThrowsJson : (f : Text) (m : Object Num) → ThrowsJson (get_number f m)
  unfolding get_number
  get_number-ThrowsJson f m =
      ThrowsJson-bind (get_field number_type f m) as_number (get_field-ThrowsJson number_type f m)
        as_number-ThrowsJson
