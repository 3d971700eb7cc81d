-- ===== src/Trust/Base64.antt =====
-- `base64url_encode` and `base64url_decode` of src/security/invite.cpp. `buffer` is an `uint32_t`; `|` of
-- a buffer that was shifted and a value below the shift is a sum.
pub mod Groups
pub mod RoundTrip
use madoka.Common.{
  ℕ, zero, suc, ◌+◌, ◌-◌, ◌*◌, ◌/◌, ◌%◌, ◌^◌, ◌<◌, ◌≡◌, refl, ap, sym, ◌∙◌, Bool, true, false, ◌&&◌,
  ◌||◌, List, [], ◌∷◌, ◌++◌, Option, none, some, arith, length, ltb, leb, ◌==◌, if◌then◌else◌, not,
  All,
}
use madoka.Bytes.{IsByte, bytes_eq, bytes_eq_refl}

-- `alphabet[i]`
unfoldable pub alphabet_at : ℕ → ℕ
alphabet_at i =
    if ltb i 26
    then 65 + i
    else if ltb i 52
    then 97 + (i - 26)
    else if ltb i 62
    then 48 + (i - 52)
    else if i == 62
    then 45
    else 95

-- The loop `while (bits >= 6)`: what it pushes, and the bits that are left.
unfoldable pub push_chars : (rounds buffer bits : ℕ) → List ℕ × ℕ
push_chars zero buffer bits = ([], bits)
push_chars (suc rounds) buffer bits =
    let rest = push_chars rounds buffer (bits - 6) in
    if leb 6 bits then (alphabet_at (buffer / 2 ^ (bits - 6) % 64) ∷ rest.0, rest.1) else ([], bits)

unfoldable pub encode_loop : (buffer bits : ℕ) → List ℕ → List ℕ
unfolding push_chars
encode_loop buffer bits [] =
    if bits == 0 then [] else alphabet_at (buffer * 2 ^ (6 - bits) % 2 ^ 32 % 64) ∷ []
encode_loop buffer bits (byte ∷ input) =
    let shifted = buffer * 2 ^ 8 % 2 ^ 32 + byte in
    let pushed = push_chars (bits + 8) shifted (bits + 8) in
    pushed.0 ++ encode_loop shifted pushed.1 input

unfoldable pub base64url_encode : List ℕ → List ℕ
unfolding encode_loop
base64url_encode input = encode_loop 0 0 input

-- The value of a character, `none` where it is not in the alphabet.
unfoldable pub value_of : ℕ → Option ℕ
value_of c =
    if leb 65 c && leb c 90
    then some (c - 65)
    else if leb 97 c && leb c 122
    then some (c - 97 + 26)
    else if leb 48 c && leb c 57
    then some (c - 48 + 52)
    else if c == 45
    then some 62
    else if c == 95
    then some 63
    else none

-- What the loop of `base64url_decode` has at its end: the bytes, the buffer, and the bits in it.
pub record Decoded : Type 0 where
  pub bytes : List ℕ
  pub buffer : ℕ
  pub bits : ℕ

abbrev put_byte : ℕ → Option Decoded → Option Decoded
put_byte byte none = none
put_byte byte (some d) = some (record d { bytes = byte ∷ d.bytes })

unfoldable pub decode_loop : (buffer bits : ℕ) → List ℕ → Option Decoded
unfolding value_of
decode_loop buffer bits [] = some (record { bytes = []; buffer = buffer; bits = bits })
decode_loop buffer bits (character ∷ input) = elim (value_of character) [
  | none ↦ none
  | some value ↦
      let shifted = buffer * 2 ^ 6 % 2 ^ 32 + value in
      let full = leb 8 (bits + 6) in
      let rest = decode_loop shifted (if full then bits + 6 - 8 else bits + 6) input in
      if full then put_byte (shifted / 2 ^ (bits + 6 - 8) % 256) rest else rest
]

-- `none` where it returns false.
unfoldable pub base64url_decode : List ℕ → Option (List ℕ)
base64url_decode input =
    if length input == 0 || length input % 4 == 1 then none else elim (decode_loop 0 0 input) [
      | none ↦ none
      | some d ↦
          if not (d.bits == 0) && not (d.buffer % 2 ^ d.bits == 0)
            || not (bytes_eq (base64url_encode d.bytes) input)
          then none
          else some d.bytes
    ]
