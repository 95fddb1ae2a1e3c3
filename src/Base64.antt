-- ===== src/Base64.antt =====
-- src/base64.cc: Encode and Decode, the base64url of RFC 4648 without padding. Bytes are numbers; the two
-- buffers keep their 32 bits, and the counters of bits stand with the offset that makes them natural:
-- `bits` is code_buffer_size + 6, and shift + 8. `(b << n) | c` is a sum where the low bits are clear. In
-- Decode a byte from 0x80 on is no digit here; where char is signed the code reads outside of its table.
pub mod Digits
pub mod Bytes
pub mod RoundTrip
use metadata_agent.Prelude.{
  text_ord, ℕ, zero, suc, ◌+◌, ◌-◌, ◌*◌, ◌/◌, ◌%◌, ◌^◌, ltb, leb, Text, Bool, Option, none, some,
  List, [], ◌∷◌, ◌++◌, codes, if◌then◌else◌,
}
use metadata_agent.Prelude.Order.{same, nat_ord}

unfoldable pub base64url_chars : Text
unfolding codes
base64url_chars = codes "ABCDEFGHIJKLMNOPQRSTUVWXYZabcdefghijklmnopqrstuvwxyz0123456789-_"

-- An element of the table, by an index that is below 64 wherever the code asks for it.
unfoldable pub char_at : Text → ℕ → ℕ
char_at [] i = 0
char_at (c ∷ cs) zero = c
char_at (c ∷ cs) (suc i) = char_at cs i

unfoldable pub char_of : ℕ → ℕ
unfolding char_at base64url_chars
char_of i = char_at base64url_chars i

-- T[c]: where the byte stands in the table, if it is there.
unfoldable pub index_in : Text → ℕ → ℕ → Option ℕ
index_in [] i c = none
index_in (d ∷ ds) i c = let rest = index_in ds (suc i) c in if same d c then some i else rest

unfoldable pub digit_of : ℕ → Option ℕ
unfolding index_in base64url_chars
digit_of c = index_in base64url_chars 0 c

-- The inner loop of Encode: a digit for each six bits, and how many bits are left. Its rounds are fewer
-- than the bits.
unfoldable pub emit : ℕ → ℕ → ℕ → Text × ℕ
unfolding char_of
emit zero buffer bits = ([], bits)
emit (suc fuel) buffer bits =
    let rest = emit fuel buffer (bits - 6) in
    if leb 6 bits then (char_of (buffer / 2 ^ (bits - 6) % 64) ∷ rest.0, rest.1) else ([], bits)

abbrev pub shift_in : ℕ → ℕ → ℕ → ℕ
shift_in buffer factor c = (buffer * factor + c) % 2 ^ 32

-- Encode, from a state of its buffer.
unfoldable pub encode_from : ℕ → ℕ → Text → Text
unfolding emit char_of
encode_from buffer bits [] =
    if ltb 0 bits then char_of (shift_in buffer 256 0 / 2 ^ (bits + 8 - 6) % 64) ∷ [] else []
encode_from buffer bits (c ∷ cs) =
    let filled = shift_in buffer 256 c in
    let digits = emit (bits + 8) filled (bits + 8) in digits.0 ++ encode_from filled (digits.1) cs

unfoldable pub encode : Text → Text
unfolding encode_from
encode source = encode_from 0 0 source

-- Decode, from a state of its buffer: it ends at the first byte that is no digit.
unfoldable pub decode_from : ℕ → ℕ → Text → Text
unfolding digit_of
decode_from val bits [] = []
decode_from val bits (c ∷ cs) = elim (digit_of c) [
  | none ↦ []
  | some digit ↦
      let filled = shift_in val 64 digit in
      let full = leb 8 (bits + 6) in
      let rest = decode_from filled (if full then bits + 6 - 8 else bits + 6) cs in
      if full then filled / 2 ^ (bits + 6 - 8) % 256 ∷ rest else rest
]

unfoldable pub decode : Text → Text
unfolding decode_from
decode source = decode_from 0 0 source
