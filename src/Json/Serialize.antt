-- ===== src/Json/Serialize.antt =====
-- src/json.cc: the calls of the yajl generator that a value makes, with the choice between an
-- integer and a double that `Number::Serialize` makes. The arithmetic of `long double` is an
-- interface.
use metadata_agent.Prelude.{
  ℤ, pos, Text, List, [], ◌∷◌, ◌++◌, Bool, not, ◌&&◌, if◌then◌else◌, ◌^◌, negsuc, ◌-◌,
}
use metadata_agent.Json.{
  Value, null, boolean, number, string, array, object, Items, nil, cons, Fields, end, field,
}

-- The C++ types `long double` and `double`, and what the code uses of them.
pub record LongDouble : Type 1 where
  pub Num : Type 0
  pub Double : Type 0
  pub eq : Num → Num → Bool
  pub le : Num → Num → Bool
  pub floor : Num → Num
  pub zero : Num
  pub signbit : Num → Bool
  pub of_integer : ℤ → Num
  pub to_integer : Num → ℤ
  pub of_double : Double → Num
  pub to_double : Num → Double

-- A call of yajl_gen_*.
pub data Gen (Double : Type 0) : Type 0 where
  gen_null : Gen Double
  gen_bool : Bool → Gen Double
  gen_integer : ℤ → Gen Double
  gen_double : Double → Gen Double
  gen_string : Text → Gen Double
  array_open array_close map_open map_close : Gen Double

module _ (d : LongDouble) where
  open d use {Num, Double, eq, le, floor, zero, signbit, of_integer, to_integer, to_double}

  -- IsEffectivelyInteger<long long>.
  unfoldable pub is_effectively_integer : Num → Bool
  is_effectively_integer n =
      eq n (floor n)
      && (le (of_integer (negsuc (2 ^ 63 - 1))) n
          && (le n (of_integer (pos (2 ^ 63 - 1))) && not (eq n zero && signbit n)))

  -- Number::Serialize.
  unfoldable pub serialize_number : Num → Gen Double
  unfolding is_effectively_integer
  serialize_number n =
      if is_effectively_integer n then gen_integer (to_integer n) else gen_double (to_double n)

  unfoldable mutual
    unfolding serialize_number

    -- Value::Serialize: the calls in their order.
    pub serialize : Value Num → List (Gen Double)
    serialize null = gen_null ∷ []
    serialize (boolean b) = gen_bool b ∷ []
    serialize (number n) = serialize_number n ∷ []
    serialize (string s) = gen_string s ∷ []
    serialize (array xs) = array_open ∷ (serialize_items xs ++ array_close ∷ [])
    serialize (object fs) = map_open ∷ (serialize_fields fs ++ map_close ∷ [])

    pub serialize_items : Items Num → List (Gen Double)
    serialize_items nil = []
    serialize_items (cons v xs) = serialize v ++ serialize_items xs

    pub serialize_fields : Fields Num → List (Gen Double)
    serialize_fields end = []
    serialize_fields (field k v fs) = gen_string k ∷ (serialize v ++ serialize_fields fs)
