-- ===== src/Format/Pieces.antt =====
-- Formats of literal texts and names in src/format.cc.
use metadata_agent.Prelude.{
  text_ord, ℕ, zero, suc, ◌+◌, ◌<◌, Text, Option, none, some, List, [], ◌∷◌, ◌++◌, codes, length,
  take, drop, ◌≡◌, refl, ◌∙◌, ap, arith, position-longer, position, All, length-append,
  append_assoc, Option-cases, inl, inr,
}
use metadata_agent.Prelude.Order.{nat_ord}
use metadata_agent.Prelude.Map.{Map, find}
use metadata_agent.Format.{
  unknown_parameter, Substituted, substituted, refused, k_start, k_end, write_before,
  substitute_one, substitute_from, substitute,
}

-- A literal text and the name of the parameter that follows it.
pub record Piece : Type 0 where
  pub literal : Text
  pub param : Text

-- The format of the pieces, and a text after them.
abbrev pub format_of : List Piece → Text → Text
format_of [] last = last
format_of (p ∷ ps) last = p.literal ++ (k_start ++ (p.param ++ (k_end ++ format_of ps last)))

-- The first `{{` from the start of a literal is that of its placeholder, and the first `}}` from the start of
-- the name ends it: the literal has no `{{` and does not end in `{`, the name has no `}}` and does not end
-- in `}`.
pub record IsPlain (p : Piece) : Type 0 where
  pub literal_plain : position k_start (p.literal ++ k_start) ≡ some (length p.literal)
  pub param_plain : position k_end (p.param ++ k_end) ≡ some (length p.param)

-- The pieces with the values in the names' place, if all are known.
abbrev pub expand : Map Text Text → List Piece → Text → Option Text
expand params [] last = some last
expand params (p ∷ ps) last = elim (find p.param params) [
  | none ↦ none
  | some value ↦ elim (expand params ps last) [
    | none ↦ none
    | some rest ↦ some (p.literal ++ value ++ rest)
  ]
]

take-length-append : (x y : Text) → take (length x) (x ++ y) ≡ x
take-length-append [] y = refl
take-length-append (b ∷ x) y = ap (λ t. b ∷ t) (take-length-append x y)

drop-length-append_2 : (x y : Text) (b c : ℕ) → drop (suc (suc (length x))) (x ++ b ∷ c ∷ y) ≡ y
drop-length-append_2 [] y b c = refl
drop-length-append_2 (d ∷ x) y b c = drop-length-append_2 x y b c

k_start-pos : 0 < length k_start
unfolding codes
k_start-pos = omega arith

k_end-pos : 0 < length k_end
unfolding codes
k_end-pos = omega arith

drop-k_start : (x y : Text) → drop (suc (suc (length x))) (x ++ (k_start ++ y)) ≡ y
unfolding codes
drop-k_start x y = drop-length-append_2 x y 123 123

drop-k_end : (x y : Text) → drop (suc (suc (length x))) (x ++ (k_end ++ y)) ≡ y
unfolding codes
drop-k_end x y = drop-length-append_2 x y 125 125

-- Each piece has more than one byte.
length-format_of : (ps : List Piece) (last : Text) → length ps < suc (length (format_of ps last))
length-format_of [] last = omega arith
length-format_of (p ∷ ps) last = omega (
  arith,
  length-format_of ps last,
  k_start-pos,
  length-append p.literal (k_start ++ (p.param ++ (k_end ++ format_of ps last))),
  length-append k_start (p.param ++ (k_end ++ format_of ps last)),
  length-append p.param (k_end ++ format_of ps last),
  length-append k_end (format_of ps last),
)

module _ (params : Map Text Text) where
  pub substitute_from-last :
      (fuel pos : ℕ) (rest : Text)
      → position k_start rest ≡ none
      → substitute_from params (suc fuel) pos rest ≡ substituted rest
  unfolding substitute_from
  substitute_from-last fuel pos rest h = ground (arith, h)

  -- What the round of a piece gives, when `next` gives what is after it.
  abbrev piece_result : Piece → ℕ → Substituted → Substituted
  piece_result p pos after = elim (find p.param params) [
    | none ↦ refused (unknown_parameter p.param pos)
    | some value ↦ write_before (p.literal ++ value) after
  ]

  pub substitute_from-brace :
      (fuel pos brace : ℕ) (rest : Text)
      → position k_start rest ≡ some brace
      → substitute_from params (suc fuel) pos rest
        ≡ substitute_one params (substitute_from params fuel) pos rest brace
  unfolding substitute_from
  substitute_from-brace fuel pos brace rest h = ground (arith, h)

  substitute_one-piece :
      (next : ℕ → Text → Substituted) (pos : ℕ) (p : Piece) (brace : ℕ) (rest inner tail : Text)
      → brace ≡ length p.literal
      → drop (suc (suc brace)) rest ≡ inner
      → position k_end inner ≡ some (length p.param)
      → take (length p.param) inner ≡ p.param
      → drop (suc (suc (length p.param))) inner ≡ tail
      → take brace rest ≡ p.literal
      → substitute_one params next pos rest brace
        ≡ piece_result p pos (next (pos + brace + 2 + length p.param + 2) tail)
  unfolding substitute_one
  substitute_one-piece next pos p brace rest inner tail h a b c d e = ground (arith, a, b, c, d, e)

  substitute_from-piece :
      (fuel pos : ℕ) (p : Piece) (tail : Text)
      → IsPlain p
      → substitute_from params
          (suc fuel)
          pos
          (p.literal ++ (k_start ++ (p.param ++ (k_end ++ tail))))
        ≡ piece_result p pos
            (substitute_from params fuel (pos + length p.literal + 2 + length p.param + 2) tail)
  substitute_from-piece fuel pos p tail plain =
      let inner : Text = p.param ++ (k_end ++ tail) in
      let rest : Text = p.literal ++ (k_start ++ inner) in
      substitute_from-brace fuel pos (length p.literal) rest
        (position-longer k_start p.literal inner k_start-pos plain.literal_plain)
      ∙ substitute_one-piece (substitute_from params fuel) pos p (length p.literal) rest inner tail
          refl (drop-k_start p.literal inner)
          (position-longer k_end p.param tail k_end-pos plain.param_plain)
          (take-length-append p.param (k_end ++ tail)) (drop-k_end p.param tail)
          (take-length-append p.literal (k_start ++ inner))

  piece_result-substituted :
      (p : Piece) (pos : ℕ) (ps : List Piece) (last result : Text) (after : Substituted)
      → expand params (p ∷ ps) last ≡ some result
      → ((rest : Text) → expand params ps last ≡ some rest → after ≡ substituted rest)
      → piece_result p pos after ≡ substituted result
  piece_result-substituted p pos ps last result after h ih =
      elim (Option-cases (find p.param params)) [
        | inl none_found ↦ absurd (ground (arith, h, none_found))
        | inr (value, found) ↦ elim (Option-cases (expand params ps last)) [
          | inl none_left ↦ absurd (ground (arith, h, found, none_left))
          | inr (rest, left) ↦
              ground (arith, h, found, left, ih rest left, append_assoc p.literal value rest)
        ]
      ]

  substitute_from-format_of :
      (fuel pos : ℕ) (ps : List Piece) (last result : Text)
      → length ps < fuel
      → All IsPlain ps
      → position k_start last ≡ none
      → expand params ps last ≡ some result
      → substitute_from params fuel pos (format_of ps last) ≡ substituted result
  substitute_from-format_of zero pos ps last result l plain h e = absurd (omega arith)
  substitute_from-format_of (suc fuel) pos [] last result l plain h e =
      substitute_from-last fuel pos last h ∙ ground (arith, e)
  substitute_from-format_of (suc fuel) pos (p ∷ ps) last result l plain h e =
      substitute_from-piece fuel pos p (format_of ps last) plain.0
      ∙ piece_result-substituted p pos ps last result
          (substitute_from params fuel (pos + length p.literal + 2 + length p.param + 2)
            (format_of ps last))
          e
          (λ rest left.
            substitute_from-format_of fuel (pos + length p.literal + 2 + length p.param + 2) ps last
              rest (omega arith) plain.1 h left)

  -- A format of literal texts with the names of known parameters in double braces between them becomes these
  -- texts with the values in the names' place, and a value that looks like a placeholder is not substituted
  -- again. No literal text may have two opening braces in a row or end in one where a placeholder follows,
  -- the text after the last placeholder may not have two in a row, and no name may have two closing
  -- braces in a row or end in one.
  pub substitute-format_of :
      (ps : List Piece) (last result : Text)
      → All IsPlain ps
      → position k_start last ≡ none
      → expand params ps last ≡ some result
      → substitute params (format_of ps last) ≡ substituted result
  unfolding substitute
  substitute-format_of ps last result plain h e =
      substitute_from-format_of (suc (length (format_of ps last))) 0 ps last result
        (length-format_of ps last) plain h e
