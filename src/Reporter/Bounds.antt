-- ===== src/Reporter/Bounds.antt =====
-- Every request keeps to the size limits.
use metadata_agent.Prelude.{
  text_ord, ℕ, suc, ◌<◌, ◌≤◌, ℤ, pos, ◌+ℤ◌, ◌≤ℤ◌, Text, true, false, List, [], ◌∷◌, ◌++◌, ◌≡◌, refl,
  ap, length, arith, Bool-cases, inl, inr, ◌⊎◌, All, All-append, length-append, int_laws,
}
use metadata_agent.Prelude.Map.{Map}
use metadata_agent.Json.{Value}
use metadata_agent.Resource.{MonitoredResource, resource_ord}
use metadata_agent.Store.{Timestamp, Metadata}
use metadata_agent.Reporter.{
  Reply, accepted, Destination, Request, Limits, Progress, Outcome, going, aborted, too_large,
  is_full, add_entry, then_add, send_metadata_request, send_entry, send_entries, send_rest,
  send_metadata, entries_of, empty_size, size,
}

module _ {Num : Type 0} (to_string : Value Num → Text) (time_string : Timestamp → Text)
    (replies : ℕ → Reply) (d : Destination) (limits : Limits) where
  -- The bytes that the code counts for a request: the empty request and the entries.
  unfoldable pub total : List (Value Num) → ℤ
  total [] = empty_size to_string time_string
  total (v ∷ vs) = total vs +ℤ size to_string time_string v

  total-append :
      (vs : List (Value Num)) (v : Value Num)
      → total (vs ++ v ∷ []) ≡ total vs +ℤ size to_string time_string v
  unfolding total
  total-append [] v = refl
  total-append (w ∷ vs) v = rw (total-append vs v) (omega int_laws)

  -- A request within the limits: it has an entry, no more than the limit's number of them, and by the
  -- code's count no more than the limit's number of bytes.
  pub record Fits (count : ℕ) (r : Request Num) : Type 0 where
    pub some_entry : 0 < length r.entries
    pub few_entries : length r.entries ≤ count
    pub few_bytes : total r.entries ≤ℤ limits.limit_bytes

  -- The loop's invariant.
  record IsBounded (count : ℕ) (p : Progress Num) : Type 0 where
    counted : p.total_size ≡ total p.entries
    small : (length p.entries ≡ 0) ⊎ (total p.entries ≤ℤ limits.limit_bytes)
    few : length p.entries ≤ count
    fits : All (Fits count) p.sent

  abbrev Bounded : ℕ → Outcome Num → Type 0
  Bounded count (going p) = IsBounded count p
  Bounded count (aborted e sent) = All (Fits count) sent

  total-none : (vs : List (Value Num)) → length vs ≡ 0 → total vs ≡ empty_size to_string time_string
  unfolding total
  total-none [] h = refl
  total-none (v ∷ vs) h = absurd (omega arith)

  pending-Fits :
      (c : ℕ) (p : Progress Num)
      → IsBounded (suc c) p
      → 0 < length p.entries
      → All (Fits (suc c)) (p.sent ++ record { destination = d; entries = p.entries } ∷ [])
  pending-Fits c p b h =
      All-append (Fits (suc c)) p.sent (record { destination = d; entries = p.entries } ∷ []) b.fits
        (record { some_entry = h; few_entries = b.few; few_bytes = omega arith }, tt)

  emptied-IsBounded :
      (c : ℕ) (sent : List (Request Num))
      → All (Fits (suc c)) sent
      → IsBounded
          (suc c)
          (record { entries = []; total_size = empty_size to_string time_string; sent = sent })
  unfolding total
  emptied-IsBounded c sent fits = record {
    counted = refl;
    small = inl refl;
    few = omega arith;
    fits = fits;
  }

  add-IsBounded :
      (c : ℕ) (v : Value Num) (p : Progress Num)
      → IsBounded (suc c) p
      → length p.entries < suc c
      → p.total_size +ℤ size to_string time_string v ≤ℤ limits.limit_bytes
      → IsBounded (suc c) (add_entry to_string time_string replies d limits v p)
  unfolding add_entry
  add-IsBounded c v p b room fits = record {
    counted = rw (total-append p.entries v) (ap (λ t. t +ℤ size to_string time_string v) b.counted);
    small = inr (rw (total-append p.entries v) (rw b.counted at fits));
    few = omega (arith, length-append p.entries (v ∷ []));
    fits = b.fits;
  }

  small_enough :
      (v : Value Num)
      → too_large to_string time_string replies d limits v ≡ false
      → empty_size to_string time_string +ℤ size to_string time_string v ≤ℤ limits.limit_bytes
  unfolding too_large
  small_enough v h = ground arith

  flush-Bounded :
      (c : ℕ) (v : Value Num) (p : Progress Num)
      → IsBounded (suc c) p
      → 0 < length p.entries
      → empty_size to_string time_string +ℤ size to_string time_string v ≤ℤ limits.limit_bytes
      → Bounded (suc c) (
          then_add to_string time_string replies d limits v
            (send_metadata_request to_string time_string replies d limits p.entries p.sent))
  unfolding send_metadata_request
  flush-Bounded c v p b h fits = elim (Bool-cases (accepted (replies (length p.sent)))) [
    | inl fine ↦
        rw fine
          (add-IsBounded c v _ (emptied-IsBounded c _ (pending-Fits c p b h)) (omega arith) fits)
    | inr bad ↦ rw bad (pending-Fits c p b h)
  ]

  full-some_entry :
      (c : ℕ) (v : Value Num) (p : Progress Num)
      → limits.limit_count ≡ pos (suc c)
      → IsBounded (suc c) p
      → too_large to_string time_string replies d limits v ≡ false
      → is_full to_string time_string replies d limits v p ≡ true
      → 0 < length p.entries
  unfolding is_full too_large
  full-some_entry c v p count b small full = ground (arith, total-none p.entries, count, b.counted)

  room_left :
      (c : ℕ) (v : Value Num) (p : Progress Num)
      → limits.limit_count ≡ pos (suc c)
      → IsBounded (suc c) p
      → is_full to_string time_string replies d limits v p ≡ false
      → (length p.entries < suc c)
        × (p.total_size +ℤ size to_string time_string v ≤ℤ limits.limit_bytes)
  unfolding is_full
  room_left c v p count b room = (ground (arith, count, b.few), ground arith)

  entry-Bounded :
      (c : ℕ) (v : Value Num) (p : Progress Num)
      → limits.limit_count ≡ pos (suc c)
      → IsBounded (suc c) p
      → Bounded (suc c) (send_entry to_string time_string replies d limits v p)
  unfolding send_entry
  entry-Bounded c v p count b =
      elim (Bool-cases (too_large to_string time_string replies d limits v)) [
        | inl skip ↦ rw skip b
        | inr keep ↦
            rw keep (elim (Bool-cases (is_full to_string time_string replies d limits v p)) [
              | inl full ↦ rw full (
                  flush-Bounded c v p b (full-some_entry c v p count b keep full)
                    (small_enough v keep))
              | inr room ↦ rw room (
                  add-IsBounded c v p b (room_left c v p count b room).0
                    (room_left c v p count b room).1)
            ])
      ]

  continue-Bounded :
      (c : ℕ) (vs : List (Value Num)) (o : Outcome Num)
      → ((p : Progress Num)
          → IsBounded (suc c) p
          → Bounded (suc c) (send_entries to_string time_string replies d limits vs p))
      → Bounded (suc c) o
      → Bounded (suc c) (elim o [
        | going p ↦ send_entries to_string time_string replies d limits vs p
        | aborted e sent ↦ aborted e sent
      ])
  continue-Bounded c vs (going p) ih b = ih p b
  continue-Bounded c vs (aborted e sent) ih b = b

  entries-Bounded :
      (c : ℕ) (vs : List (Value Num)) (p : Progress Num)
      → limits.limit_count ≡ pos (suc c)
      → IsBounded (suc c) p
      → Bounded (suc c) (send_entries to_string time_string replies d limits vs p)
  unfolding send_entries
  entries-Bounded c [] p count b = b
  entries-Bounded c (v ∷ vs) p count b =
      continue-Bounded c vs (send_entry to_string time_string replies d limits v p)
        (λ p' b'. entries-Bounded c vs p' count b') (entry-Bounded c v p count b)

  last-Fits :
      (c : ℕ) (vs : List (Value Num)) (t : ℤ) (sent : List (Request Num))
      → IsBounded (suc c) (record { entries = vs; total_size = t; sent = sent })
      → All
          (Fits (suc c))
          (send_rest to_string time_string replies d limits
            (going (record { entries = vs; total_size = t; sent = sent }))).1
  unfolding send_rest send_metadata_request
  last-Fits c [] t sent b = b.fits
  last-Fits c (v ∷ vs) t sent b = elim (Bool-cases (accepted (replies (length sent)))) [
    | inl fine ↦ rw fine (pending-Fits c _ b (omega arith))
    | inr bad ↦ rw bad (pending-Fits c _ b (omega arith))
  ]

  rest-Fits :
      (c : ℕ) (o : Outcome Num)
      → Bounded (suc c) o
      → All (Fits (suc c)) (send_rest to_string time_string replies d limits o).1
  rest-Fits c (going p) b = last-Fits c p.entries p.total_size p.sent b
  rest-Fits c (aborted e sent) b = unfold send_rest in b

  -- With a positive count limit every request of a report, whatever the server replies, has at least one
  -- entry and at most the limit's number of them, and the bytes that the code counts for it are within
  -- the byte limit.
  pub send_metadata-Fits :
      (c : ℕ) (m : Map MonitoredResource (Metadata Num))
      → limits.limit_count ≡ pos (suc c)
      → All (Fits (suc c)) (send_metadata to_string time_string replies d limits m).1
  unfolding send_metadata
  send_metadata-Fits c [] count = tt
  send_metadata-Fits c (e ∷ m) count =
      let vs : List (Value Num) = entries_of to_string time_string replies d limits (e ∷ m) in
      let p : Progress Num = record {
        entries = [];
        total_size = empty_size to_string time_string;
        sent = [];
      } in
      rest-Fits c (send_entries to_string time_string replies d limits vs p)
        (entries-Bounded c vs p count (emptied-IsBounded c [] tt))
