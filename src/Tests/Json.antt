-- ===== src/Tests/Json.antt =====
-- Documents of JSON, over integers for numbers.
use metadata_agent.Prelude.{
  text_ord, ℤ, pos, ltb_ℤ, eqb_ℤ, true, not, List, [], ◌∷◌, ◌++◌, ◌≡◌, refl, flatten, map,
}
use metadata_agent.Prelude.Order.{list_lt}
use metadata_agent.Exceptions.{ok}
use metadata_agent.Json.{Value, null, number, string, array, object, nil, cons, end, field, entries}
use metadata_agent.Json.Clone.{clone, IsOrdered, clone_faithful}
use metadata_agent.Json.Serialize.{LongDouble, is_effectively_integer}
use metadata_agent.Json.Builder.{Builder, handle_all, add_value}
use metadata_agent.Json.Builder.Events.{events, IsExact}
use metadata_agent.Json.Builder.RoundTrip.{handle_all-events}
use metadata_agent.Json.Parser.{all_from_stream, all_from_stream-documents}

abbrev ints : LongDouble
ints = record {
  Num = ℤ;
  Double = ℤ;
  eq = eqb_ℤ;
  le = λ a b. not (ltb_ℤ b a);
  floor = λ a. a;
  zero = pos 0;
  signbit = λ a. ltb_ℤ a (pos 0);
  of_integer = λ a. a;
  to_integer = λ a. a;
  of_double = λ a. a;
  to_double = λ a. a;
}

-- {"a": [7, null], "b": "x"}
abbrev document : Value ℤ
document = object (
    field (97 ∷ []) (array (cons (number (pos 7)) (cons null nil)))
      (field (98 ∷ []) (string (120 ∷ [])) end))

document-IsOrdered : IsOrdered document
unfolding list_lt entries
document-IsOrdered = (((refl, tt), (tt, tt)), ((tt, (tt, tt)), (tt, tt)))

document-IsExact : IsExact ints document
unfolding is_effectively_integer
document-IsExact = ((refl, (tt, tt)), (tt, tt))

clone_faithful_example : clone document ≡ document
clone_faithful_example = clone_faithful document document-IsOrdered

abbrev fresh : Builder ℤ
fresh = record { contexts = []; values = [] }

handle_all-events_example :
    handle_all ints (events ints document ++ []) fresh
    ≡ handle_all ints [] (add_value document fresh)
handle_all-events_example =
    handle_all-events ints document [] fresh document-IsOrdered document-IsExact

abbrev documents : List (Value ℤ)
documents = document ∷ null ∷ []

all_from_stream-documents_example :
    all_from_stream ints (λ input. (flatten (map (events ints) documents), true)) [] ≡ ok documents
all_from_stream-documents_example =
    all_from_stream-documents ints (λ input. (flatten (map (events ints) documents), true)) []
      documents (document-IsOrdered, (tt, tt)) (document-IsExact, (tt, tt)) refl
