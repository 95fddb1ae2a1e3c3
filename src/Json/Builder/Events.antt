-- ===== src/Json/Builder/Events.antt =====
-- The calls that yajl makes for a document of src/json.cc, in the order of its text.
use metadata_agent.Prelude.{
  text_ord, List, [], ◌∷◌, ◌++◌, ◌≡◌, refl, ap, ◌∙◌, some, append_assoc, map, Text, if◌then◌else◌,
}
use metadata_agent.Prelude.Map.{emplace, emplace_all, IsSorted}
use metadata_agent.Prelude.Map.Sorted.{emplace_all_sorted}
use metadata_agent.Json.{
  Value, null, boolean, number, string, array, object, Items, nil, cons, Fields, end, field, Object,
  elements, entries, to_items, to_fields, present, add_fields, array_of, object_of,
  to_items-elements, to_fields-entries,
}
use metadata_agent.Json.Serialize.{LongDouble, is_effectively_integer}
use metadata_agent.Json.Builder.{
  Event, on_null, on_boolean, on_integer, on_double, on_string, on_start_map, on_map_key,
  on_end_map, on_start_array, on_end_array,
}

module _ {Num : Type 0} where
  present-map-some : (xs : List (Value Num)) → present (map some xs) ≡ xs
  unfolding present
  present-map-some [] = refl
  present-map-some (v ∷ xs) = ap (◌∷◌ v) (present-map-some xs)

  -- What a finished array context becomes.
  pub array_of-elements : (xs : Items Num) → array_of (map some (elements xs)) ≡ array xs
  unfolding array_of
  array_of-elements xs =
      ap (λ l. array (to_items l)) (present-map-some (elements xs))
      ∙ ap array (to_items-elements xs)

  add_fields-map-some :
      (r m : Object Num) → add_fields (map (λ e. (e.0, some e.1)) r) m ≡ emplace_all r m
  unfolding add_fields emplace_all
  add_fields-map-some [] m = refl
  add_fields-map-some ((k, v) ∷ r) m = add_fields-map-some r (emplace k v m)

  -- What a finished object context becomes.
  pub object_of-entries :
      (fs : Fields Num)
      → IsSorted (entries fs)
      → object_of (map (λ e. (e.0, some e.1)) (entries fs)) ≡ object fs
  unfolding object_of
  object_of-entries fs s =
      ap (λ m. object (to_fields m))
        (add_fields-map-some (entries fs) [] ∙ emplace_all_sorted (entries fs) s)
      ∙ ap object (to_fields-entries fs)

module _ (d : LongDouble) where
  open d use {Num, Double, of_integer, to_integer, of_double, to_double}

  -- The number that is read back for `n`, which is written as an integer or as a double.
  abbrev pub reread : Num → Num
  reread n =
      if is_effectively_integer d n then of_integer (to_integer n) else of_double (to_double n)

  -- The call for a number's text.
  abbrev pub number_event : Num → Event Double
  number_event n =
      if is_effectively_integer d n then on_integer (to_integer n) else on_double (to_double n)

  -- The calls for a document, in the order of its text.
  unfoldable mutual
    pub events : Value Num → List (Event Double)
    events null = on_null ∷ []
    events (boolean b) = on_boolean b ∷ []
    events (number n) = number_event n ∷ []
    events (string s) = on_string s ∷ []
    events (array xs) = on_start_array ∷ (item_events xs ++ on_end_array ∷ [])
    events (object fs) = on_start_map ∷ (field_events fs ++ on_end_map ∷ [])

    pub item_events : Items Num → List (Event Double)
    item_events nil = []
    item_events (cons v xs) = events v ++ item_events xs

    pub field_events : Fields Num → List (Event Double)
    field_events end = []
    field_events (field k v fs) = on_map_key k ∷ (events v ++ field_events fs)

  pub array_events :
      (xs : Items Num) (rest : List (Event Double))
      → events (array xs) ++ rest ≡ on_start_array ∷ (item_events xs ++ on_end_array ∷ rest)
  unfolding events
  array_events xs rest =
      ap (◌∷◌ on_start_array) (append_assoc (item_events xs) (on_end_array ∷ []) rest)

  pub object_events :
      (fs : Fields Num) (rest : List (Event Double))
      → events (object fs) ++ rest ≡ on_start_map ∷ (field_events fs ++ on_end_map ∷ rest)
  unfolding events
  object_events fs rest =
      ap (◌∷◌ on_start_map) (append_assoc (field_events fs) (on_end_map ∷ []) rest)

  pub cons_events :
      (v : Value Num) (xs : Items Num) (rest : List (Event Double))
      → item_events (cons v xs) ++ rest ≡ events v ++ (item_events xs ++ rest)
  unfolding events
  cons_events v xs rest = append_assoc (events v) (item_events xs) rest

  pub keyed_events :
      (k : Text) (v : Value Num) (fs : Fields Num) (rest : List (Event Double))
      → field_events (field k v fs) ++ rest ≡ on_map_key k ∷ (events v ++ (field_events fs ++ rest))
  unfolding events
  keyed_events k v fs rest =
      ap (◌∷◌ (on_map_key k)) (append_assoc (events v) (field_events fs) rest)

  -- Every number, at any depth, survives being written and read.
  abbrev mutual
    pub IsExact : Value Num → Type 0
    IsExact null = Unit
    IsExact (boolean b) = Unit
    IsExact (number n) = reread n ≡ n
    IsExact (string s) = Unit
    IsExact (array xs) = ItemsExact xs
    IsExact (object fs) = FieldsExact fs

    pub ItemsExact : Items Num → Type 0
    ItemsExact nil = Unit
    ItemsExact (cons v xs) = IsExact v × ItemsExact xs

    pub FieldsExact : Fields Num → Type 0
    FieldsExact end = Unit
    FieldsExact (field k v fs) = IsExact v × FieldsExact fs
