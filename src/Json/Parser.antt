-- ===== src/Json/Parser.antt =====
-- src/json.cc: the parser's entry points. yajl stands outside: `calls` gives, for a text, the
-- callbacks that yajl makes for it and whether its status is ok at the end.
use metadata_agent.Prelude.{
  text_ord, Text, List, [], ◌∷◌, ◌++◌, ◌≡◌, ap, ◌∙◌, Bool, true, false, Option, none, some, length,
  All, flatten, map, append-nil, append_assoc,
}
use metadata_agent.Exceptions.{Result, ok, raise, ◌>>=◌, json_exception, parse_error, many_values}
use metadata_agent.Json.{Value}
use metadata_agent.Json.Clone.{IsOrdered}
use metadata_agent.Json.Serialize.{LongDouble}
use metadata_agent.Json.Builder.{Event, Builder, add_value, handle_all}
use metadata_agent.Json.Builder.Events.{events, IsExact}
use metadata_agent.Json.Builder.RoundTrip.{handle_all-events}

module _ {Num : Type 0} where
  -- A parse that yajl or a handler ended early throws; else the values that were delivered.
  abbrev pub finish : Option (Builder Num) → Bool → Result (List (Value Num))
  finish none fine = raise (json_exception parse_error)
  finish (some b) false = raise (json_exception parse_error)
  finish (some b) true = ok b.values

  -- The tests of FromStream on the number of values; `none` is the null pointer.
  unfoldable pub single_value : List (Value Num) → Result (Option (Value Num))
  single_value [] = ok none
  single_value (v ∷ []) = ok (some v)
  single_value (v ∷ w ∷ vs) = raise (json_exception (many_values (length (v ∷ w ∷ vs))))

module _ (d : LongDouble) (calls : Text → List (Event d.Double) × Bool) where
  open d use {Num, Double}

  abbrev start : Builder Num
  start = record { contexts = []; values = [] }

  -- Parser::AllFromStream, with ParseStream and NotifyEOF.
  unfoldable pub all_from_stream : Text → Result (List (Value Num))
  all_from_stream input = finish (handle_all d (calls input).0 start) (calls input).1

  -- Parser::FromStream, FromString.
  unfoldable pub from_stream : Text → Result (Option (Value Num))
  unfolding all_from_stream single_value
  from_stream input = do values ← all_from_stream input; single_value values

  deliver :
      (vs done : List (Value Num))
      → All IsOrdered vs
      → All (IsExact d) vs
      → handle_all d (flatten (map (events d) vs)) (record { contexts = []; values = done })
        ≡ some (record { contexts = []; values = done ++ vs })
  unfolding handle_all add_value
  deliver [] done h e = rw append-nil
  deliver (v ∷ vs) done h e =
      handle_all-events d v (flatten (map (events d) vs)) (record { contexts = []; values = done })
        h.0 e.0
      ∙ deliver vs (done ++ v ∷ []) h.1 e.1
      ∙ ap (λ (l : List (Value Num)). some (record { contexts = []; values = l }))
          (append_assoc done (v ∷ []) vs)

  -- A stream of documents, to which yajl makes the calls of one after the other and ends with
  -- status ok, is parsed to exactly those documents in their order.
  pub all_from_stream-documents :
      (input : Text) (vs : List (Value Num))
      → All IsOrdered vs
      → All (IsExact d) vs
      → calls input ≡ (flatten (map (events d) vs), true)
      → all_from_stream input ≡ ok vs
  unfolding all_from_stream
  all_from_stream-documents input vs h e c = rw c (rw (deliver vs [] h e))

  -- A stream with one document gives that document, and one with several throws.
  pub from_stream-documents :
      (input : Text) (vs : List (Value Num))
      → All IsOrdered vs
      → All (IsExact d) vs
      → calls input ≡ (flatten (map (events d) vs), true)
      → from_stream input ≡ single_value vs
  unfolding from_stream
  from_stream-documents input vs h e c = rw (all_from_stream-documents input vs h e c)
