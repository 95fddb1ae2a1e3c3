-- ===== src/Format/Ends.antt =====
-- The loop of Substitute in src/format.cc ends.
use metadata_agent.Prelude.{
  text_ord, ℕ, zero, suc, ◌+◌, ◌≤◌, ◌<◌, Text, Bool, true, false, none, [], ◌∷◌, ◌++◌, codes,
  length, take, drop, ◌≡◌, refl, ◌∙◌, ap, arith, position, starts_with, Option-cases, inl, inr,
}
use metadata_agent.Prelude.Order.{nat_ord}
use metadata_agent.Prelude.Map.{Map, find}
use metadata_agent.Format.{
  Substituted, substituted, refused, out_of_fuel, k_start, k_end, write_before, substitute_one,
  substitute_from, substitute,
}
use metadata_agent.Format.Pieces.{substitute_from-last, substitute_from-brace}

length-drop : (n : ℕ) (t : Text) → length (drop n t) ≤ length t
length-drop zero t = omega arith
length-drop (suc n) [] = omega arith
length-drop (suc n) (b ∷ t) = omega (arith, length-drop n t)

abbrev pub ends : Substituted → Bool
ends (substituted t) = true
ends (refused e) = true
ends out_of_fuel = false

ends-write_before : (t : Text) (r : Substituted) → ends (write_before t r) ≡ ends r
ends-write_before t (substituted rest) = refl
ends-write_before t (refused e) = refl
ends-write_before t out_of_fuel = refl

position-k_start_empty : position k_start [] ≡ none
unfolding position codes starts_with
position-k_start_empty = refl

module _ (params : Map Text Text) where
  ends-substitute_one :
      (next : ℕ → Text → Substituted) (pos brace : ℕ) (b : ℕ) (rest : Text)
      → ((pos' : ℕ) (left : Text) → length left ≤ length rest → ends (next pos' left) ≡ true)
      → ends (substitute_one params next pos (b ∷ rest) brace) ≡ true
  unfolding substitute_one
  ends-substitute_one next pos brace b rest h =
      let inner : Text = drop (suc brace) rest in
      elim (Option-cases (position k_end inner)) [
        | inl none_found ↦ ground (arith, none_found)
        | inr (close, found) ↦ elim (Option-cases (find (take close inner) params)) [
          | inl unknown ↦ ground (arith, found, unknown)
          | inr (value, known) ↦
              let left : Text = drop (suc (suc close)) inner in
              let pos' : ℕ = pos + brace + 2 + close + 2 in
              ground (
                arith,
                found,
                known,
                ends-write_before (take brace (b ∷ rest) ++ value) (next pos' left),
                h pos' left (
                    omega
                      (arith, length-drop (suc (suc close)) inner, length-drop (suc brace) rest)),
              )
        ]
      ]

  ends-substitute_from :
      (fuel pos : ℕ) (rest : Text)
      → length rest < fuel
      → ends (substitute_from params fuel pos rest) ≡ true
  ends-substitute_from zero pos rest l = absurd (omega arith)
  ends-substitute_from (suc fuel) pos [] l =
      ap ends (substitute_from-last params fuel pos [] position-k_start_empty)
  ends-substitute_from (suc fuel) pos (b ∷ rest) l =
      elim (Option-cases (position k_start (b ∷ rest))) [
        | inl none_found ↦ ap ends (substitute_from-last params fuel pos (b ∷ rest) none_found)
        | inr (brace, found) ↦
            ap ends (substitute_from-brace params fuel pos brace (b ∷ rest) found)
            ∙ ends-substitute_one (substitute_from params fuel) pos brace b rest
                (λ pos' left k. ends-substitute_from fuel pos' left (omega arith))
      ]

  -- Substitute ends for every format, with a result or with one of its two exceptions.
  pub ends-substitute : (format : Text) → ends (substitute params format) ≡ true
  unfolding substitute
  ends-substitute format = ends-substitute_from (suc (length format)) 0 format (omega arith)
