-- ===== src/Format.antt =====
-- src/format.cc: Substitute. The loop is over what is left of the format, whose fuel is a round more
-- than its bytes.
pub mod Pieces
pub mod Ends
use metadata_agent.Prelude.{
  text_ord, ℕ, zero, suc, ◌+◌, ◌≤◌, ◌<◌, Text, Bool, true, false, Option, none, some, List, [], ◌∷◌,
  ◌++◌, codes, length, take, drop, ◌≡◌, refl, sym, ◌∙◌, ap, subst, arith, position-longer, position,
  All, length-append, append_assoc, append-nil, Option-cases, inl, inr,
}
use metadata_agent.Prelude.Order.{same, nat_ord}
use metadata_agent.Prelude.Map.{Map, find}

-- What Substitute throws, with the places and the name that its messages tell.
pub data FormatError : Type 0 where
  unterminated : ℕ → FormatError
  unknown_parameter : Text → ℕ → FormatError

pub data Substituted : Type 0 where
  substituted : Text → Substituted
  refused : FormatError → Substituted
  out_of_fuel : Substituted

abbrev pub k_start : Text
k_start = codes "{{"

abbrev pub k_end : Text
k_end = codes "}}"

-- What is written before the rest of the result.
abbrev pub write_before : Text → Substituted → Substituted
write_before text (substituted rest) = substituted (text ++ rest)
write_before text (refused e) = refused e
write_before text out_of_fuel = out_of_fuel

module _ (params : Map Text Text) where
  -- One round at the position `pos` of the format, where `rest` is left of it and `brace` bytes stand
  -- before the next placeholder; `next` is the loop's further rounds.
  unfoldable pub substitute_one : (ℕ → Text → Substituted) → ℕ → Text → ℕ → Substituted
  unfolding position
  substitute_one next pos rest brace =
      let inner = drop (suc (suc brace)) rest in
      elim (position k_end inner) [
        | none ↦ refused (unterminated (pos + brace))
        | some close ↦ elim (find (take close inner) params) [
          | none ↦ refused (unknown_parameter (take close inner) pos)
          | some value ↦
              write_before (take brace rest ++ value)
                (next (pos + brace + 2 + close + 2) (drop (suc (suc close)) inner))
        ]
      ]

  unfoldable pub substitute_from : ℕ → ℕ → Text → Substituted
  unfolding substitute_one
  substitute_from zero pos rest = out_of_fuel
  substitute_from (suc fuel) pos rest = elim (position k_start rest) [
    | none ↦ substituted rest
    | some brace ↦ substitute_one (substitute_from fuel) pos rest brace
  ]

  -- Substitute.
  unfoldable pub substitute : Text → Substituted
  unfolding substitute_from
  substitute format = substitute_from (suc (length format)) 0 format
