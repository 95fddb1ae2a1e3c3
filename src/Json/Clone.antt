-- ===== src/Json/Clone.antt =====
-- src/json.cc: the deep copies. A copy of a value whose objects keep their keys in order, as
-- std::map does, is the value.
use metadata_agent.Prelude.{text_ord, Text, [], ◌∷◌, ◌≡◌, refl, ap, ap₂, ◌∙◌, Option, none, some}
use metadata_agent.Prelude.Map.{Map, emplace_all, IsSorted}
use metadata_agent.Prelude.Map.Sorted.{emplace_all_sorted}
use metadata_agent.Json.{
  Value, null, boolean, number, string, array, object, Items, nil, cons, Fields, end, field,
  entries, to_fields, to_fields-entries,
}

module _ {Num : Type 0} where
  unfoldable mutual
    unfolding to_fields emplace_all

    -- Value::Clone.
    pub clone : Value Num → Value Num
    clone null = null
    clone (boolean b) = boolean b
    clone (number n) = number n
    clone (string s) = string s
    clone (array xs) = array (clone_items xs)
    clone (object fs) = object (to_fields (emplace_all (clone_fields fs) []))

    -- The loop of Array(const Array&).
    pub clone_items : Items Num → Items Num
    clone_items nil = nil
    clone_items (cons v xs) = cons (clone v) (clone_items xs)

    -- What the loop of Object(const Object&) emplaces.
    pub clone_fields : Fields Num → Map Text (Value Num)
    clone_fields end = []
    clone_fields (field k v fs) = (k, clone v) ∷ clone_fields fs

  -- json::Clone.
  unfoldable pub clone_pointer : Option (Value Num) → Option (Value Num)
  clone_pointer none = none
  clone_pointer (some v) = some (clone v)

  -- Every object, at any depth, has its keys in order: the invariant of std::map.
  abbrev mutual
    pub IsOrdered : Value Num → Type 0
    IsOrdered null = Unit
    IsOrdered (boolean b) = Unit
    IsOrdered (number n) = Unit
    IsOrdered (string s) = Unit
    IsOrdered (array xs) = ItemsOrdered xs
    IsOrdered (object fs) = IsSorted (entries fs) × FieldsOrdered fs

    pub ItemsOrdered : Items Num → Type 0
    ItemsOrdered nil = Unit
    ItemsOrdered (cons v xs) = IsOrdered v × ItemsOrdered xs

    pub FieldsOrdered : Fields Num → Type 0
    FieldsOrdered end = Unit
    FieldsOrdered (field k v fs) = IsOrdered v × FieldsOrdered fs

  mutual
    unfolding clone entries

    clone-eq : (v : Value Num) → IsOrdered v → clone v ≡ v
    clone-eq null h = refl
    clone-eq (boolean b) h = refl
    clone-eq (number n) h = refl
    clone-eq (string s) h = refl
    clone-eq (array xs) h = ap array (clone_items-eq xs h)
    clone-eq (object fs) h = ap object (
        ap (λ m. to_fields (emplace_all m [])) (clone_fields-eq fs h.1)
        ∙ ap to_fields (emplace_all_sorted (entries fs) h.0)
        ∙ to_fields-entries fs)

    clone_items-eq : (xs : Items Num) → ItemsOrdered xs → clone_items xs ≡ xs
    clone_items-eq nil h = refl
    clone_items-eq (cons v xs) h = ap₂ cons (clone-eq v h.0) (clone_items-eq xs h.1)

    clone_fields-eq : (fs : Fields Num) → FieldsOrdered fs → clone_fields fs ≡ entries fs
    clone_fields-eq end h = refl
    clone_fields-eq (field k v fs) h =
        ap₂ (λ w m. (k, w) ∷ m) (clone-eq v h.0) (clone_fields-eq fs h.1)

  -- A deep copy of a value whose objects keep their keys in order is that value, at any depth.
  pub clone_faithful : (v : Value Num) → IsOrdered v → clone v ≡ v
  clone_faithful v h = clone-eq v h
