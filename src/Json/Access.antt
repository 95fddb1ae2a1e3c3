-- ===== src/Json/Access.antt =====
-- src/json.h: the type tests, downcasts and field accessors of JSON values.
use metadata_agent.Prelude.{
  text_ord, Text, ◌≡◌, refl, Bool, true, false, Option, none, some, List, if◌then◌else◌,
}
use metadata_agent.Prelude.Map.{find}
use metadata_agent.Exceptions.{
  Result, ok, raise, ◌>>=◌, json_exception, no_field, bad_field, bad_type, JsonType, null_type,
  boolean_type, number_type, string_type, array_type, object_type,
}
use metadata_agent.Json.{
  Value, null, boolean, number, string, array, object, Object, elements, entries,
}

-- TypeHelper<T>::type == type.
abbrev pub same_type : JsonType → JsonType → Bool
same_type null_type null_type = true
same_type boolean_type boolean_type = true
same_type number_type number_type = true
same_type string_type string_type = true
same_type array_type array_type = true
same_type object_type object_type = true
same_type _ _ = false

module _ {Num : Type 0} where
  -- Value::type.
  unfoldable pub type_of : Value Num → JsonType
  type_of null = null_type
  type_of (boolean b) = boolean_type
  type_of (number n) = number_type
  type_of (string s) = string_type
  type_of (array xs) = array_type
  type_of (object fs) = object_type

  -- Value::Is<T>.
  unfoldable pub is : JsonType → Value Num → Bool
  unfolding type_of
  is t v = same_type (type_of v) t

  -- Value::As<T>, one for each T that the agent asks for.
  unfoldable pub as_boolean : Value Num → Result Bool
  as_boolean (boolean b) = ok b
  as_boolean _ = raise (json_exception (bad_type boolean_type))

  unfoldable pub as_number : Value Num → Result Num
  as_number (number n) = ok n
  as_number _ = raise (json_exception (bad_type number_type))

  unfoldable pub as_string : Value Num → Result Text
  as_string (string s) = ok s
  as_string _ = raise (json_exception (bad_type string_type))

  unfoldable pub as_array : Value Num → Result (List (Value Num))
  unfolding elements
  as_array (array xs) = ok (elements xs)
  as_array _ = raise (json_exception (bad_type array_type))

  unfoldable pub as_object : Value Num → Result (Object Num)
  unfolding entries
  as_object (object fs) = ok (entries fs)
  as_object _ = raise (json_exception (bad_type object_type))

  -- Object::GetField<T>: the field is there and is of the type.
  unfoldable pub get_field : JsonType → Text → Object Num → Result (Value Num)
  unfolding is
  get_field t f m = elim (find f m) [
    | none ↦ raise (json_exception (no_field f))
    | some v ↦ if is t v then ok v else raise (json_exception (bad_field f t))
  ]

  -- Object::Get<T>.
  unfoldable pub get_boolean : Text → Object Num → Result Bool
  unfolding get_field as_boolean
  get_boolean f m = do v ← get_field boolean_type f m; as_boolean v

  unfoldable pub get_number : Text → Object Num → Result Num
  unfolding get_field as_number
  get_number f m = do v ← get_field number_type f m; as_number v

  unfoldable pub get_string : Text → Object Num → Result Text
  unfolding get_field as_string
  get_string f m = do v ← get_field string_type f m; as_string v

  unfoldable pub get_array : Text → Object Num → Result (List (Value Num))
  unfolding get_field as_array
  get_array f m = do v ← get_field array_type f m; as_array v

  unfoldable pub get_object : Text → Object Num → Result (Object Num)
  unfolding get_field as_object
  get_object f m = do v ← get_field object_type f m; as_object v

  -- The lookup of an object's field that the accessor stands for.
  abbrev pub Outcome : Text → Option (Value Num) → Result Text
  Outcome f none = raise (json_exception (no_field f))
  Outcome f (some (string s)) = ok s
  Outcome f (some v) = raise (json_exception (bad_field f string_type))

  -- A string is read exactly where the field holds one; a missing field and a field of another
  -- type are told apart, and the downcast behind the type test never throws.
  pub get_string-Outcome : (f : Text) (m : Object Num) → get_string f m ≡ Outcome f (find f m)
  unfolding get_string
  get_string-Outcome f m = split (find f m)
    where
      split :
          (o : Option (Value Num))
          → (elim o [
            | none ↦ raise (json_exception (no_field f))
            | some v ↦
                if is string_type v then ok v else raise (json_exception (bad_field f string_type))
          ]
              >>= as_string)
            ≡ Outcome f o
      split none = refl
      split (some null) = refl
      split (some (string s)) = refl
      split (some v) = refl
