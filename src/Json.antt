-- ===== src/Json.antt =====
-- src/json.h, src/json.cc: JSON values. A number is of an abstract type, the C++ `long double`. An
-- object holds its std::map as the entries in the order of the keys.
pub mod Access
pub mod Throws
pub mod Clone
pub mod Serialize
pub mod Builder
pub mod Parser
use metadata_agent.Prelude.{text_ord, Text, Bool, Option, none, some, List, [], ◌∷◌, ◌≡◌, refl, ap}
use metadata_agent.Prelude.Map.{Map, emplace}

mutual
  pub data Value (Num : Type 0) : Type 0 where
    null : Value Num
    boolean : Bool → Value Num
    number : Num → Value Num
    string : Text → Value Num
    array : Items Num → Value Num
    object : Fields Num → Value Num

  pub data Items (Num : Type 0) : Type 0 where
    nil : Items Num
    cons : Value Num → Items Num → Items Num

  pub data Fields (Num : Type 0) : Type 0 where
    end : Fields Num
    field : Text → Value Num → Fields Num → Fields Num

-- The map that a json::Object extends.
abbrev pub Object : Type 0 → Type 0
Object Num = Map Text (Value Num)

module _ {Num : Type 0} where
  unfoldable pub elements : Items Num → List (Value Num)
  elements nil = []
  elements (cons v xs) = v ∷ elements xs

  unfoldable pub to_items : List (Value Num) → Items Num
  to_items [] = nil
  to_items (v ∷ xs) = cons v (to_items xs)

  unfoldable pub entries : Fields Num → Object Num
  entries end = []
  entries (field k v fs) = (k, v) ∷ entries fs

  unfoldable pub to_fields : Object Num → Fields Num
  to_fields [] = end
  to_fields ((k, v) ∷ fs) = field k v (to_fields fs)

  pub elements-to_items : (xs : List (Value Num)) → elements (to_items xs) ≡ xs
  unfolding elements to_items
  elements-to_items [] = refl
  elements-to_items (v ∷ xs) = ap (◌∷◌ v) (elements-to_items xs)

  pub entries-to_fields : (m : Object Num) → entries (to_fields m) ≡ m
  unfolding entries to_fields
  entries-to_fields [] = refl
  entries-to_fields ((k, v) ∷ m) = ap (◌∷◌ (k, v)) (entries-to_fields m)

  pub to_items-elements : (xs : Items Num) → to_items (elements xs) ≡ xs
  unfolding elements to_items
  to_items-elements nil = refl
  to_items-elements (cons v xs) = ap (cons v) (to_items-elements xs)

  pub to_fields-entries : (fs : Fields Num) → to_fields (entries fs) ≡ fs
  unfolding entries to_fields
  to_fields-entries end = refl
  to_fields-entries (field k v fs) = ap (field k v) (to_fields-entries fs)

  -- Array(elements): a null pointer is discarded.
  unfoldable pub present : List (Option (Value Num)) → List (Value Num)
  present [] = []
  present (none ∷ xs) = present xs
  present (some v ∷ xs) = v ∷ present xs

  -- Object(fields): a null pointer is discarded, and the first of two equal keys stays.
  unfoldable pub add_fields : List (Text × Option (Value Num)) → Object Num → Object Num
  add_fields [] m = m
  add_fields ((k, none) ∷ fs) m = add_fields fs m
  add_fields ((k, some v) ∷ fs) m = add_fields fs (emplace k v m)

  -- json::array and json::object.
  unfoldable pub array_of : List (Option (Value Num)) → Value Num
  unfolding present to_items
  array_of xs = array (to_items (present xs))

  unfoldable pub object_of : List (Text × Option (Value Num)) → Value Num
  unfolding add_fields to_fields
  object_of fs = object (to_fields (add_fields fs []))
