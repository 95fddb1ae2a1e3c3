-- ===== src/Reporter/Destinations.antt =====
-- Every request of a report in src/reporter.cc is made to the same destination.
use metadata_agent.Prelude.{
  ℕ, Text, ℤ, List, [], ◌∷◌, ◌≡◌, refl, length, All, All-append, Bool-cases, inl, inr,
}
use metadata_agent.Prelude.Map.{Map}
use metadata_agent.Json.{Value}
use metadata_agent.Resource.{MonitoredResource}
use metadata_agent.Store.{Timestamp, Metadata}
use metadata_agent.Reporter.{
  Reply, accepted, Destination, Request, Limits, Progress, Outcome, going, aborted, too_large,
  is_full, add_entry, then_add, send_metadata_request, send_entry, send_entries, send_rest,
  send_metadata, entries_of, empty_size,
}

module _ {Num : Type 0} (to_string : Value Num → Text) (time_string : Timestamp → Text)
    (replies : ℕ → Reply) (d : Destination) (limits : Limits) where
  abbrev pub IsTo : Request Num → Type 0
  IsTo r = r.destination ≡ d

  abbrev AllTo : Outcome Num → Type 0
  AllTo (going p) = All IsTo p.sent
  AllTo (aborted e sent) = All IsTo sent

  request-AllTo :
      (vs : List (Value Num)) (sent : List (Request Num))
      → All IsTo sent
      → AllTo (send_metadata_request to_string time_string replies d limits vs sent)
  unfolding send_metadata_request
  request-AllTo vs sent h =
      let more =
        All-append IsTo sent (record { destination = d; entries = vs } ∷ []) h (refl, tt) in
      elim (Bool-cases (accepted (replies (length sent)))) [
        | inl fine ↦ rw fine more
        | inr bad ↦ rw bad more
      ]

  then_add-AllTo :
      (v : Value Num) (o : Outcome Num)
      → AllTo o
      → AllTo (then_add to_string time_string replies d limits v o)
  unfolding add_entry
  then_add-AllTo v (going p) h = h
  then_add-AllTo v (aborted e sent) h = h

  entry-AllTo :
      (v : Value Num) (p : Progress Num)
      → All IsTo p.sent
      → AllTo (send_entry to_string time_string replies d limits v p)
  unfolding send_entry add_entry
  entry-AllTo v p h = elim (Bool-cases (too_large to_string time_string replies d limits v)) [
    | inl large ↦ rw large h
    | inr small ↦ elim (Bool-cases (is_full to_string time_string replies d limits v p)) [
      | inl full ↦ rw (small, full) (then_add-AllTo v _ (request-AllTo p.entries p.sent h))
      | inr room ↦ rw (small, room) h
    ]
  ]

  continue-AllTo :
      (vs : List (Value Num)) (o : Outcome Num)
      → AllTo o
      → ((p : Progress Num)
          → All IsTo p.sent
          → AllTo (send_entries to_string time_string replies d limits vs p))
      → AllTo (elim o [
        | going p ↦ send_entries to_string time_string replies d limits vs p
        | aborted e sent ↦ aborted e sent
      ])
  continue-AllTo vs (going p) h k = k p h
  continue-AllTo vs (aborted e sent) h k = h

  entries-AllTo :
      (vs : List (Value Num)) (p : Progress Num)
      → All IsTo p.sent
      → AllTo (send_entries to_string time_string replies d limits vs p)
  unfolding send_entries
  entries-AllTo [] p h = h
  entries-AllTo (v ∷ vs) p h =
      continue-AllTo vs (send_entry to_string time_string replies d limits v p) (entry-AllTo v p h)
        (entries-AllTo vs)

  last-IsTo :
      (vs : List (Value Num)) (t : ℤ) (sent : List (Request Num))
      → All IsTo sent
      → All IsTo
          (send_rest to_string time_string replies d limits
            (going (record { entries = vs; total_size = t; sent = sent }))).1
  unfolding send_rest send_metadata_request
  last-IsTo [] t sent h = h
  last-IsTo (v ∷ vs) t sent h =
      let more =
        All-append IsTo sent (record { destination = d; entries = v ∷ vs } ∷ []) h (refl, tt) in
      elim (Bool-cases (accepted (replies (length sent)))) [
        | inl fine ↦ rw fine more
        | inr bad ↦ rw bad more
      ]

  rest-IsTo :
      (o : Outcome Num) → AllTo o → All IsTo (send_rest to_string time_string replies d limits o).1
  unfolding send_rest
  rest-IsTo (going p) h = last-IsTo p.entries p.total_size p.sent h
  rest-IsTo (aborted e sent) h = h

  pub send_metadata-IsTo :
      (m : Map MonitoredResource (Metadata Num))
      → All IsTo (send_metadata to_string time_string replies d limits m).1
  unfolding send_metadata
  send_metadata-IsTo [] = tt
  send_metadata-IsTo (e ∷ m) =
      let p : Progress Num = record {
        entries = [];
        total_size = empty_size to_string time_string;
        sent = [];
      } in
      let vs : List (Value Num) = entries_of to_string time_string replies d limits (e ∷ m) in
      rest-IsTo (send_entries to_string time_string replies d limits vs p) (entries-AllTo vs p tt)
