-- ===== src/Reporter/Batches.antt =====
-- The requests of a report hold the entries that fit, each once and in their order.
use metadata_agent.Prelude.{
  text_ord, ℕ, ℤ, Text, Bool, List, [], ◌∷◌, ◌++◌, ◌≡◌, refl, sym, ap, ◌∙◌, subst, length,
  if◌then◌else◌, Bool-cases, inl, inr, append_assoc,
}
use metadata_agent.Prelude.Map.{Map}
use metadata_agent.Exceptions.{Result, ok}
use metadata_agent.Json.{Value}
use metadata_agent.Resource.{MonitoredResource, resource_ord}
use metadata_agent.Store.{Timestamp, Metadata}
use metadata_agent.Reporter.{
  Reply, accepted, Destination, Request, Limits, Progress, Outcome, going, aborted, too_large,
  is_full, add_entry, then_add, send_metadata_request, send_entry, send_entries, send_rest,
  send_metadata, entries_of, empty_size,
}

-- The entries of the requests, in the order in which they were made.
abbrev pub contents : {Num : Type 0} → List (Request Num) → List (Value Num)
contents [] = []
contents (r ∷ rs) = r.entries ++ contents rs

contents-append :
    {Num : Type 0} (rs : List (Request Num)) (r : Request Num) (vs : List (Value Num))
    → contents (rs ++ r ∷ []) ++ vs ≡ contents rs ++ (r.entries ++ vs)
contents-append [] r vs = append_assoc r.entries [] vs
contents-append (q ∷ rs) r vs =
    append_assoc q.entries (contents (rs ++ r ∷ [])) vs
    ∙ ap (◌++◌ q.entries) (contents-append rs r vs)
    ∙ sym (append_assoc q.entries (contents rs) (r.entries ++ vs))

module _ {Num : Type 0} (to_string : Value Num → Text) (time_string : Timestamp → Text)
    (replies : ℕ → Reply) (d : Destination) (limits : Limits) where
  abbrev large : Value Num → Bool
  large = too_large to_string time_string replies d limits

  -- The values that fit into a request.
  unfoldable pub fitting : List (Value Num) → List (Value Num)
  fitting [] = []
  fitting (v ∷ vs) = let rest = fitting vs in if large v then rest else v ∷ rest

  -- What is sent and what is pending, together.
  abbrev pub collected : Progress Num → List (Value Num)
  collected p = contents p.sent ++ p.entries

  -- The values are all accounted for: sent, pending, or left over by an exception.
  abbrev Accounts : Outcome Num → List (Value Num) → List (Value Num) → Type 0
  Accounts (going p) later all = contents p.sent ++ (p.entries ++ later) ≡ all
  Accounts (aborted e sent) later all = (rest : List (Value Num)) × (contents sent ++ rest ≡ all)

  request-Accounts :
      (vs : List (Value Num)) (sent : List (Request Num)) (later : List (Value Num))
      → Accounts
          (send_metadata_request to_string time_string replies d limits vs sent)
          later
          (contents sent ++ (vs ++ later))
  unfolding send_metadata_request
  request-Accounts vs sent later = elim (Bool-cases (accepted (replies (length sent)))) [
    | inl fine ↦ rw fine (contents-append sent (record { destination = d; entries = vs }) later)
    | inr bad ↦
        rw bad (later, contents-append sent (record { destination = d; entries = vs }) later)
  ]

  then_add-Accounts :
      (v : Value Num) (o : Outcome Num) (later all : List (Value Num))
      → Accounts o (v ∷ later) all
      → Accounts (then_add to_string time_string replies d limits v o) later all
  unfolding add_entry
  then_add-Accounts v (going p) later all h =
      ap (◌++◌ (contents p.sent)) (append_assoc p.entries (v ∷ []) later) ∙ h
  then_add-Accounts v (aborted e sent) later all h = h

  entry-Accounts :
      (v : Value Num) (p : Progress Num) (later : List (Value Num))
      → Accounts
          (send_entry to_string time_string replies d limits v p)
          later
          (contents p.sent ++ (p.entries ++ (if large v then later else v ∷ later)))
  unfolding send_entry
  entry-Accounts v p later = elim (Bool-cases (large v)) [
    | inl skip ↦ rw skip refl
    | inr keep ↦ rw keep (elim (Bool-cases (is_full to_string time_string replies d limits v p)) [
      | inl full ↦ rw full (
          then_add-Accounts v
            (send_metadata_request to_string time_string replies d limits p.entries p.sent) later _
            (request-Accounts p.entries p.sent (v ∷ later)))
      | inr room ↦ rw room (then_add-Accounts v (going p) later _ refl)
    ])
  ]

  continue-Accounts :
      (vs later : List (Value Num)) (o : Outcome Num) (all : List (Value Num))
      → ((p : Progress Num)
          → Accounts
              (send_entries to_string time_string replies d limits vs p)
              []
              (contents p.sent ++ (p.entries ++ later)))
      → Accounts o later all
      → Accounts
          (elim o [
            | going p ↦ send_entries to_string time_string replies d limits vs p
            | aborted e sent ↦ aborted e sent
          ])
          []
          all
  continue-Accounts vs later (going p) all ih h =
      subst (Accounts (send_entries to_string time_string replies d limits vs p) []) h (ih p)
  continue-Accounts vs later (aborted e sent) all ih h = h

  entries-Accounts :
      (vs : List (Value Num)) (p : Progress Num)
      → Accounts
          (send_entries to_string time_string replies d limits vs p)
          []
          (contents p.sent ++ (p.entries ++ fitting vs))
  unfolding send_entries fitting
  entries-Accounts [] p = refl
  entries-Accounts (v ∷ vs) p =
      continue-Accounts vs (fitting vs) (send_entry to_string time_string replies d limits v p) _
        (entries-Accounts vs) (entry-Accounts v p (fitting vs))

  -- The requests hold the first of the values; after a report without exception they hold all.
  abbrev pub Delivers : Result (Unit {0}) × List (Request Num) → List (Value Num) → Type 0
  Delivers report all =
      (rest : List (Value Num)) × (contents report.1 ++ rest ≡ all) × (report.0 ≡ ok tt → rest ≡ [])

  pending :
      (vs : List (Value Num)) (total : ℤ) (sent : List (Request Num)) (all : List (Value Num))
      → contents sent ++ (vs ++ []) ≡ all
      → Delivers
          (send_rest to_string time_string replies d limits
            (going (record { entries = vs; total_size = total; sent = sent })))
          all
  unfolding send_rest
  pending [] total sent all h = ([], h, λ q. refl)
  pending (v ∷ vs) total sent all h = elim (Bool-cases (accepted (replies (length sent)))) [
    | inl fine ↦
        rw fine (
          [],
          contents-append sent (record { destination = d; entries = v ∷ vs }) [] ∙ h,
          λ q. refl,
        )
    | inr bad ↦
        rw bad (
          [],
          contents-append sent (record { destination = d; entries = v ∷ vs }) [] ∙ h,
          λ q. refl,
        )
  ]

  rest-Delivers :
      (o : Outcome Num) (all : List (Value Num))
      → Accounts o [] all
      → Delivers (send_rest to_string time_string replies d limits o) all
  unfolding send_rest send_metadata_request
  rest-Delivers (aborted e sent) all h = (h.0, h.1, λ q. cc)
  rest-Delivers (going p) all h = pending p.entries p.total_size p.sent all h

  -- Each entry of the metadata map that fits into a request at all is sent exactly once, in the order of
  -- the map, and no other is; if an exception ends the report, what was sent is the first part of these,
  -- and after a report that ends without one nothing is left.
  pub send_metadata-Delivers :
      (m : Map MonitoredResource (Metadata Num))
      → Delivers
          (send_metadata to_string time_string replies d limits m)
          (fitting (entries_of to_string time_string replies d limits m))
  unfolding send_metadata fitting
  send_metadata-Delivers [] = ([], refl, λ q. refl)
  send_metadata-Delivers (e ∷ m) =
      let p : Progress Num = record {
        entries = [];
        total_size = empty_size to_string time_string;
        sent = [];
      } in
      let vs : List (Value Num) = entries_of to_string time_string replies d limits (e ∷ m) in
      rest-Delivers (send_entries to_string time_string replies d limits vs p) (fitting vs)
        (entries-Accounts vs p)
