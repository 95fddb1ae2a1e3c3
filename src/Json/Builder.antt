-- ===== src/Json/Builder.antt =====
-- src/json.cc: the JSONBuilder with its stack of contexts, and the handlers that yajl calls. The
-- callback context at the bottom of the stack hands each finished value to the parser's caller:
-- here it appends to `values`.
pub mod Events
pub mod RoundTrip
use metadata_agent.Prelude.{
  text_ord, ℤ, Text, List, [], ◌∷◌, ◌++◌, Bool, true, false, Option, none, some, if◌then◌else◌, map,
}
use metadata_agent.Prelude.Map.{Map, emplace}
use metadata_agent.Json.{
  Value, null, boolean, number, string, array, object, Object, present, array_of, object_of,
  to_items, to_fields, add_fields,
}
use metadata_agent.Json.Serialize.{LongDouble}

-- ArrayContext and ObjectContext.
pub data Context (Num : Type 0) : Type 0 where
  array_context : List (Value Num) → Context Num
  object_context : Object Num → Option Text → Context Num

-- The stack is `contexts`, the innermost first; below it stands the CallbackContext.
pub record Builder (Num : Type 0) : Type 0 where
  pub contexts : List (Context Num)
  pub values : List (Value Num)

-- The yajl callbacks.
pub data Event (Double : Type 0) : Type 0 where
  on_null : Event Double
  on_boolean : Bool → Event Double
  on_integer : ℤ → Event Double
  on_double : Double → Event Double
  on_string : Text → Event Double
  on_start_map : Event Double
  on_map_key : Text → Event Double
  on_end_map : Event Double
  on_start_array : Event Double
  on_end_array : Event Double

module _ {Num : Type 0} where
  -- AddValue of the three contexts; a value with no field name is dropped.
  unfoldable pub add_value : Value Num → Builder Num → Builder Num
  add_value v b = elim b.contexts [
    | [] ↦ record b { values = b.values ++ v ∷ [] }
    | array_context xs ∷ cs ↦ record b { contexts = array_context (xs ++ v ∷ []) ∷ cs }
    | object_context m none ∷ cs ↦ b
    | object_context m (some k) ∷ cs ↦ record b {
      contexts = object_context (emplace k v m) none ∷ cs;
    }
  ]

  -- JSONBuilder::PushArray, PushObject.
  unfoldable pub push_array : Builder Num → Builder Num
  push_array b = record b { contexts = array_context [] ∷ b.contexts }

  unfoldable pub push_object : Builder Num → Builder Num
  push_object b = record b { contexts = object_context [] none ∷ b.contexts }

  -- JSONBuilder::PopArray, PopObject: `none` where the innermost context is of another class.
  unfoldable pub pop_array : Builder Num → Option (List (Value Num) × Builder Num)
  pop_array b = elim b.contexts [
    | [] ↦ none
    | array_context xs ∷ cs ↦ some (xs, record b { contexts = cs })
    | object_context m k ∷ cs ↦ none
  ]

  unfoldable pub pop_object : Builder Num → Option (Object Num × Builder Num)
  pop_object b = elim b.contexts [
    | [] ↦ none
    | array_context xs ∷ cs ↦ none
    | object_context m k ∷ cs ↦ some (m, record b { contexts = cs })
  ]

  -- JSONBuilder::NewField: a name that is pending is replaced.
  unfoldable pub new_field : Text → Builder Num → Option (Builder Num)
  new_field k b = elim b.contexts [
    | [] ↦ none
    | array_context xs ∷ cs ↦ none
    | object_context m j ∷ cs ↦ some (record b { contexts = object_context m (some k) ∷ cs })
  ]

  -- handle_end_array and handle_end_map.
  unfoldable pub end_array : Builder Num → Option (Builder Num)
  unfolding pop_array add_value array_of
  end_array b = elim (pop_array b) [
    | none ↦ none
    | some (xs, rest) ↦ some (add_value (array_of (map some xs)) rest)
  ]

  unfoldable pub end_map : Builder Num → Option (Builder Num)
  unfolding pop_object add_value object_of
  end_map b = elim (pop_object b) [
    | none ↦ none
    | some (m, rest) ↦ some (add_value (object_of (map (λ e. (e.0, some e.1)) m)) rest)
  ]

module _ (d : LongDouble) where
  open d use {Num, Double, of_integer, of_double}

  -- One call of a handler. `none` is the return value 0, at which yajl cancels the parse.
  unfoldable pub handle : Event Double → Builder Num → Option (Builder Num)
  unfolding add_value push_array push_object new_field end_array end_map
  handle on_null b = some (add_value null b)
  handle (on_boolean x) b = some (add_value (boolean x) b)
  handle (on_integer n) b = some (add_value (number (of_integer n)) b)
  handle (on_double x) b = some (add_value (number (of_double x)) b)
  handle (on_string s) b = some (add_value (string s) b)
  handle on_start_map b = some (push_object b)
  handle (on_map_key k) b = new_field k b
  handle on_end_map b = end_map b
  handle on_start_array b = some (push_array b)
  handle on_end_array b = end_array b

  -- The calls that yajl makes, up to the first that returns 0.
  unfoldable pub handle_all : List (Event Double) → Builder Num → Option (Builder Num)
  unfolding handle
  handle_all [] b = some b
  handle_all (e ∷ es) b = elim (handle e b) [ none ↦ none | some b' ↦ handle_all es b' ]
