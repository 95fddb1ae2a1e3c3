-- ===== src/Prelude/Strings.antt =====
-- std::string as its bytes, in the order of its operator<.
use Prim.Native.Nat.{ℕ, suc, ◌≤◌, ◌<◌}
use Prim.Native.Char.{code}
use Prim.Native.String.{String}
use mathlib.Core.Bool.{Bool, true, false, ◌&&◌}
use mathlib.Core.Option.{Option, none, some}
use mathlib.Core.List.{List, [], ◌∷◌, ◌++◌, append_assoc}
use mathlib.Core.Path.{◌≡◌, refl}
use native.Mathlib.Omega.{arith}
use metadata_agent.Prelude.Lists.{length, length-append}
use metadata_agent.Prelude.Tests.{if◌then◌else◌}
use metadata_agent.Prelude.Order.{Ord, same, same_refl, nat_ord, list_ord}

abbrev pub Text : Type 0
Text = List ℕ

instance abbrev pub text_ord : Ord Text
text_ord = list_ord

-- A literal of the source, all of which are ASCII.
unfoldable pub codes : String → Text
codes String.[] = []
codes (String.◌∷◌ c s) = code c ∷ codes s

-- text.find(prefix) == 0.
unfoldable pub starts_with : Text → Text → Bool
starts_with text [] = true
starts_with [] (c ∷ prefix) = false
starts_with (b ∷ text) (c ∷ prefix) = same b c && starts_with text prefix

-- text.find(pattern).
unfoldable pub position : Text → Text → Option ℕ
unfolding starts_with
position pattern [] = if starts_with [] pattern then some 0 else none
position pattern (b ∷ text) =
    let later = position pattern text in
    if starts_with (b ∷ text) pattern
    then some 0
    else elim later [ none ↦ none | some n ↦ some (suc n) ]

pub starts_with-append : (prefix rest : Text) → starts_with (prefix ++ rest) prefix ≡ true
unfolding starts_with
starts_with-append [] [] = refl
starts_with-append [] (c ∷ rest) = refl
starts_with-append (c ∷ prefix) rest = ground (arith, starts_with-append prefix rest, same_refl c)

starts_with-longer :
    (text more prefix : Text)
    → length prefix ≤ length text
    → starts_with (text ++ more) prefix ≡ starts_with text prefix
unfolding starts_with
starts_with-longer [] more [] h = ground arith
starts_with-longer (b ∷ text) more [] h = refl
starts_with-longer [] more (c ∷ prefix) h = absurd (ground arith)
starts_with-longer (b ∷ text) more (c ∷ prefix) h =
    ground (arith, starts_with-longer text more prefix)

-- A first occurrence stays the first when more text follows it.
pub position-longer :
    (pattern text more : Text)
    → 0 < length pattern
    → position pattern (text ++ pattern) ≡ some (length text)
    → position pattern (text ++ (pattern ++ more)) ≡ some (length text)
unfolding position
position-longer [] [] more l h = absurd (omega arith)
position-longer (c ∷ pattern) [] more l h = rw (starts_with-append (c ∷ pattern) more) refl
position-longer pattern (b ∷ text) more l h = ground (
  arith,
  position-longer pattern text more,
  starts_with-longer (b ∷ (text ++ pattern)) more pattern,
  length-append text pattern,
  append_assoc text pattern more,
)

-- boost::algorithm::join.
abbrev pub join : Text → List Text → Text
join separator [] = []
join separator (t ∷ []) = t
join separator (t ∷ u ∷ ts) = t ++ (separator ++ join separator (u ∷ ts))
