-- ===== src/Json/Builder/RoundTrip.antt =====
-- The handlers rebuild a document from the calls that yajl makes for it.
use metadata_agent.Prelude.{
  text_ord, List, [], ◌∷◌, ◌++◌, ◌≡◌, refl, ap, ◌∙◌, none, some, append_assoc, append-nil, map,
  Text, Bool, Bool-cases, inl, inr,
}
use metadata_agent.Prelude.Map.{emplace, emplace_all, IsSorted}
use metadata_agent.Prelude.Map.Sorted.{emplace_all_sorted}
use metadata_agent.Json.{
  Value, null, boolean, number, string, array, object, Items, nil, cons, Fields, end, field, Object,
  elements, entries, object_of,
}
use metadata_agent.Json.Clone.{IsOrdered, ItemsOrdered, FieldsOrdered}
use metadata_agent.Json.Serialize.{LongDouble, is_effectively_integer}
use metadata_agent.Json.Builder.{
  Builder, Context, array_context, object_context, Event, on_end_map, on_end_array, add_value,
  handle_all,
}
use metadata_agent.Json.Builder.Events.{
  array_of-elements, object_of-entries, reread, number_event, events, item_events, field_events,
  array_events, object_events, cons_events, keyed_events, IsExact, ItemsExact, FieldsExact,
}

module _ (d : LongDouble) where
  open d use {Num, Double, of_integer, to_integer, of_double, to_double}

  abbrev in_array : List (Value Num) → List (Context Num) → List (Value Num) → Builder Num
  in_array xs cs vs = record { contexts = array_context xs ∷ cs; values = vs }

  abbrev in_object : Object Num → List (Context Num) → List (Value Num) → Builder Num
  in_object m cs vs = record { contexts = object_context m none ∷ cs; values = vs }

  handle_number :
      (n : Num) (rest : List (Event Double)) (b : Builder Num)
      → reread d n ≡ n
      → handle_all d (number_event d n ∷ rest) b ≡ handle_all d rest (add_value (number n) b)
  unfolding handle_all
  handle_number n rest b h = elim (Bool-cases (is_effectively_integer d n)) [
    | inl t ↦ rw t (ap (λ m. handle_all d rest (add_value (number m) b)) (rw t at h))
    | inr f ↦ rw f (ap (λ m. handle_all d rest (add_value (number m) b)) (rw f at h))
  ]

  no_items :
      (ys : List (Value Num)) (cs : List (Context Num)) (vs : List (Value Num))
      (rest : List (Event Double))
      → handle_all d (item_events d nil ++ rest) (in_array ys cs vs)
        ≡ handle_all d rest (in_array (ys ++ elements nil) cs vs)
  unfolding events elements
  no_items ys cs vs rest = rw append-nil

  no_fields :
      (m : Object Num) (cs : List (Context Num)) (vs : List (Value Num))
      (rest : List (Event Double))
      → handle_all d (field_events d end ++ rest) (in_object m cs vs)
        ≡ handle_all d rest (in_object (emplace_all (entries end) m) cs vs)
  unfolding events entries emplace_all
  no_fields m cs vs rest = refl

  build_null :
      (rest : List (Event Double)) (b : Builder Num)
      → handle_all d (events d null ++ rest) b ≡ handle_all d rest (add_value null b)
  unfolding events handle_all
  build_null rest b = refl

  build_boolean :
      (x : Bool) (rest : List (Event Double)) (b : Builder Num)
      → handle_all d (events d (boolean x) ++ rest) b ≡ handle_all d rest (add_value (boolean x) b)
  unfolding events handle_all
  build_boolean x rest b = refl

  build_string :
      (t : Text) (rest : List (Event Double)) (b : Builder Num)
      → handle_all d (events d (string t) ++ rest) b ≡ handle_all d rest (add_value (string t) b)
  unfolding events handle_all
  build_string t rest b = refl

  build_number :
      (n : Num) (rest : List (Event Double)) (b : Builder Num)
      → reread d n ≡ n
      → handle_all d (events d (number n) ++ rest) b ≡ handle_all d rest (add_value (number n) b)
  unfolding events
  build_number n rest b h = handle_number n rest b h

  handle_array :
      (xs : Items Num) (rest : List (Event Double)) (b : Builder Num)
      → ((ys : List (Value Num)) (after : List (Event Double))
          → handle_all d (item_events d xs ++ after) (in_array ys b.contexts b.values)
            ≡ handle_all d after (in_array (ys ++ elements xs) b.contexts b.values))
      → handle_all d (events d (array xs) ++ rest) b ≡ handle_all d rest (add_value (array xs) b)
  unfolding handle_all
  handle_array xs rest b ih =
      ap (λ es. handle_all d es b) (array_events d xs rest)
      ∙ ih [] (on_end_array ∷ rest)
      ∙ ap (λ v. handle_all d rest (add_value v b)) (array_of-elements xs)

  handle_object :
      (fs : Fields Num) (rest : List (Event Double)) (b : Builder Num)
      → IsSorted (entries fs)
      → ((m : Object Num) (after : List (Event Double))
          → handle_all d (field_events d fs ++ after) (in_object m b.contexts b.values)
            ≡ handle_all d after (in_object (emplace_all (entries fs) m) b.contexts b.values))
      → handle_all d (events d (object fs) ++ rest) b ≡ handle_all d rest (add_value (object fs) b)
  unfolding handle_all
  handle_object fs rest b s ih =
      ap (λ es. handle_all d es b) (object_events d fs rest)
      ∙ ih [] (on_end_map ∷ rest)
      ∙ ap (λ m. handle_all d rest (add_value (object_of (map (λ e. (e.0, some e.1)) m)) b))
          (emplace_all_sorted (entries fs) s)
      ∙ ap (λ v. handle_all d rest (add_value v b)) (object_of-entries fs s)

  handle_item :
      (v : Value Num) (xs : Items Num) (ys : List (Value Num)) (cs : List (Context Num))
      (vs : List (Value Num)) (rest : List (Event Double))
      → ((after : List (Event Double)) (b : Builder Num)
          → handle_all d (events d v ++ after) b ≡ handle_all d after (add_value v b))
      → ((zs : List (Value Num))
          → handle_all d (item_events d xs ++ rest) (in_array zs cs vs)
            ≡ handle_all d rest (in_array (zs ++ elements xs) cs vs))
      → handle_all d (item_events d (cons v xs) ++ rest) (in_array ys cs vs)
        ≡ handle_all d rest (in_array (ys ++ elements (cons v xs)) cs vs)
  unfolding elements add_value
  handle_item v xs ys cs vs rest head tail =
      ap (λ es. handle_all d es (in_array ys cs vs)) (cons_events d v xs rest)
      ∙ head (item_events d xs ++ rest) (in_array ys cs vs)
      ∙ tail (ys ++ v ∷ [])
      ∙ ap (λ zs. handle_all d rest (in_array zs cs vs)) (append_assoc ys (v ∷ []) (elements xs))

  handle_field :
      (k : Text) (v : Value Num) (fs : Fields Num) (m : Object Num) (cs : List (Context Num))
      (vs : List (Value Num)) (rest : List (Event Double))
      → ((after : List (Event Double)) (b : Builder Num)
          → handle_all d (events d v ++ after) b ≡ handle_all d after (add_value v b))
      → ((n : Object Num)
          → handle_all d (field_events d fs ++ rest) (in_object n cs vs)
            ≡ handle_all d rest (in_object (emplace_all (entries fs) n) cs vs))
      → handle_all d (field_events d (field k v fs) ++ rest) (in_object m cs vs)
        ≡ handle_all d rest (in_object (emplace_all (entries (field k v fs)) m) cs vs)
  unfolding handle_all entries emplace_all
  handle_field k v fs m cs vs rest head tail =
      ap (λ es. handle_all d es (in_object m cs vs)) (keyed_events d k v fs rest)
      ∙ head (field_events d fs ++ rest)
          (record { contexts = object_context m (some k) ∷ cs; values = vs })
      ∙ tail (emplace k v m)

  mutual
    build :
        (v : Value Num) (rest : List (Event Double)) (b : Builder Num)
        → IsOrdered v
        → IsExact d v
        → handle_all d (events d v ++ rest) b ≡ handle_all d rest (add_value v b)
    build null rest b h e = build_null rest b
    build (boolean x) rest b h e = build_boolean x rest b
    build (number n) rest b h e = build_number n rest b e
    build (string s) rest b h e = build_string s rest b
    build (array xs) rest b h e =
        handle_array xs rest b (λ ys after. build_items xs ys b.contexts b.values after h e)
    build (object fs) rest b h e =
        handle_object fs rest b h.0 (λ m after. build_fields fs m b.contexts b.values after h.1 e)

    build_items :
        (xs : Items Num) (ys : List (Value Num)) (cs : List (Context Num)) (vs : List (Value Num))
        (rest : List (Event Double))
        → ItemsOrdered xs
        → ItemsExact d xs
        → handle_all d (item_events d xs ++ rest) (in_array ys cs vs)
          ≡ handle_all d rest (in_array (ys ++ elements xs) cs vs)
    build_items nil ys cs vs rest h e = no_items ys cs vs rest
    build_items (cons v xs) ys cs vs rest h e =
        handle_item v xs ys cs vs rest (λ after b. build v after b h.0 e.0)
          (λ zs. build_items xs zs cs vs rest h.1 e.1)

    build_fields :
        (fs : Fields Num) (m : Object Num) (cs : List (Context Num)) (vs : List (Value Num))
        (rest : List (Event Double))
        → FieldsOrdered fs
        → FieldsExact d fs
        → handle_all d (field_events d fs ++ rest) (in_object m cs vs)
          ≡ handle_all d rest (in_object (emplace_all (entries fs) m) cs vs)
    build_fields end m cs vs rest h e = no_fields m cs vs rest
    build_fields (field k v fs) m cs vs rest h e =
        handle_field k v fs m cs vs rest (λ after b. build v after b h.0 e.0)
          (λ n. build_fields fs n cs vs rest h.1 e.1)

  -- The calls for a document, whatever calls follow, hand that document to the innermost context:
  -- its objects keep their keys in order and its numbers survive being written.
  pub handle_all-events :
      (v : Value Num) (rest : List (Event Double)) (b : Builder Num)
      → IsOrdered v
      → IsExact d v
      → handle_all d (events d v ++ rest) b ≡ handle_all d rest (add_value v b)
  handle_all-events v rest b h e = build v rest b h e
