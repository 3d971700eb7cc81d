-- ===== src/Config/Hex.antt =====
-- Ids in hexadecimal: `hex` and `parse_node_id` of src/core/config.cpp, with `format_ipv6` and
-- `validate_identity_address`. An exception is `none`, or false.
use madoka.Common.{
  ℕ, zero, suc, ◌+◌, ◌-◌, ◌*◌, ◌/◌, ◌%◌, ◌<◌, ◌≡◌, refl, ap, sym, ◌∙◌, subst, Bool, true, false,
  ◌&&◌, ◌||◌, List, [], ◌∷◌, ◌++◌, Option, none, some, arith, length, take, any_of, leb, ◌==◌,
  if◌then◌else◌, not, All, ==_of_eq, ◌↔◌,
}
use madoka.Bytes.{NodeId, IPv6, IsByte, IsArray}

-- `digits[n]` of "0123456789abcdef"
abbrev pub hex_digit : ℕ → ℕ
hex_digit n = if leb n 9 then 48 + n else 87 + n

-- `hex`
unfoldable pub hex : List ℕ → List ℕ
hex [] = []
hex (b ∷ bs) = hex_digit (b / 16) ∷ hex_digit (b % 16) ∷ hex bs

abbrev pub is_hex_digit : ℕ → Bool
is_hex_digit c = (leb 48 c && leb c 57) || (leb 97 c && leb c 102)

-- The value of a digit, for `std::from_chars` to base 16.
abbrev pub hex_value : ℕ → ℕ
hex_value c = if leb c 57 then c - 48 else c - 87

-- The loop over the pairs of digits.
unfoldable pub read_pairs : List ℕ → List ℕ
read_pairs [] = []
read_pairs (a ∷ []) = []
read_pairs (a ∷ b ∷ rest) = (hex_value a * 16 + hex_value b) ∷ read_pairs rest

unfoldable pub parse_node_id : List ℕ → Option NodeId
parse_node_id value =
    if not (length value == 64) || any_of (λ c. not (is_hex_digit c)) value
    then none
    else some (read_pairs value)

-- `std::setw(4)` and `std::hex` on a number of 16 bits.
abbrev group_of : ℕ → List ℕ
group_of v =
    hex_digit (v / 4096)
    ∷ hex_digit (v / 256 % 16)
    ∷ hex_digit (v / 16 % 16)
    ∷ hex_digit (v % 16)
    ∷ []

-- The loop of `format_ipv6`, behind the first group.
unfoldable pub format_groups : List ℕ → List ℕ
format_groups [] = []
format_groups (a ∷ []) = []
format_groups (a ∷ b ∷ rest) = 58 ∷ (group_of (a * 256 + b) ++ format_groups rest)

unfoldable pub format_ipv6 : IPv6 → List ℕ
unfolding format_groups
format_ipv6 [] = []
format_ipv6 (a ∷ []) = []
format_ipv6 (a ∷ b ∷ rest) = group_of (a * 256 + b) ++ format_groups rest

-- Whether `validate_identity_address` returns.
unfoldable pub validate_identity_address : NodeId → Bool
unfolding any_of
validate_identity_address local = any_of (λ byte. not (byte == 0)) (take 8 local)

digit_round : (n : ℕ) → n < 16 → (hex_value (hex_digit n) ≡ n) × (is_hex_digit (hex_digit n) ≡ true)
digit_round n h = (ground arith, ground arith)

value_round : (c : ℕ) → is_hex_digit c ≡ true → (hex_digit (hex_value c) ≡ c) × (hex_value c < 16)
value_round c h = (ground (arith, h), ground (arith, h))

read_pairs-hex : (bs : List ℕ) → All IsByte bs → read_pairs (hex bs) ≡ bs
unfolding read_pairs hex
read_pairs-hex [] h = refl
read_pairs-hex (b ∷ bs) h =
    let (high, _) = digit_round (b / 16) (omega (arith, h.0)) in
    let (low, _) = digit_round (b % 16) (omega arith) in
    let byte : b / 16 * 16 + b % 16 ≡ b = omega arith in
    rw (high, low, byte, read_pairs-hex bs h.1) refl

hex-digits : (bs : List ℕ) → All IsByte bs → any_of (λ c. not (is_hex_digit c)) (hex bs) ≡ false
unfolding hex any_of
hex-digits [] h = refl
hex-digits (b ∷ bs) h =
    let (_, high) = digit_round (b / 16) (omega (arith, h.0)) in
    let (_, low) = digit_round (b % 16) (omega arith) in rw (high, low, hex-digits bs h.1) refl

length-hex : (bs : List ℕ) → length (hex bs) ≡ 2 * length bs
unfolding hex
length-hex [] = refl
length-hex (b ∷ bs) = omega (arith, length-hex bs)

-- An id of 32 bytes is read back from its hexadecimal digits.
parse_node_id-hex : (id : NodeId) → IsArray 32 id → parse_node_id (hex id) ≡ some id
unfolding parse_node_id
parse_node_id-hex id h =
    let size : (length (hex id) == 64) ≡ true = ==_of_eq (omega (arith, length-hex id, h.0)) in
    rw (parse_node_id, size, hex-digits id h.1, read_pairs-hex id h.1) refl

split_or : (a b : Bool) → (a || b) ≡ false → (a ≡ false) × (b ≡ false)
split_or true b h = absurd cc
split_or false b h = (refl, h)

hex-pairs :
    (n : ℕ) (cs : List ℕ)
    → length cs ≡ 2 * n
    → any_of (λ c. not (is_hex_digit c)) cs ≡ false
    → (hex (read_pairs cs) ≡ cs) × (length (read_pairs cs) ≡ n) × All IsByte (read_pairs cs)
unfolding hex read_pairs any_of
hex-pairs zero [] h k = (refl, refl, tt)
hex-pairs zero (a ∷ cs) h k = absurd (omega arith)
hex-pairs (suc n) [] h k = absurd (omega arith)
hex-pairs (suc n) (a ∷ []) h k = absurd (omega arith)
hex-pairs (suc n) (a ∷ b ∷ cs) h k =
    let (digit_a, rest_a) = split_or (not (is_hex_digit a)) _ k in
    let (digit_b, rest_b) = split_or (not (is_hex_digit b)) _ rest_a in
    let (same, size, bytes) = hex-pairs n cs (omega (arith, h)) rest_b in
    let (back_a, small_a) = value_round a (ground (arith, digit_a)) in
    let (back_b, small_b) = value_round b (ground (arith, digit_b)) in
    let high : (hex_value a * 16 + hex_value b) / 16 ≡ hex_value a = omega (arith, small_b) in
    let low : (hex_value a * 16 + hex_value b) % 16 ≡ hex_value b = omega (arith, small_b) in
    (
      rw (high, low, back_a, back_b, same) refl,
      omega (arith, size),
      (omega (arith, small_a, small_b), bytes),
    )

read_id :
    (text : List ℕ) (id : NodeId)
    → parse_node_id text ≡ some id
    → (length text ≡ 64)
      × (any_of (λ c. not (is_hex_digit c)) text ≡ false)
      × (read_pairs text ≡ id)
unfolding parse_node_id
read_id text id h = ground (arith, h)

-- Whatever is read as an id is the hexadecimal text of that id, which has 32 bytes.
hex-parse_node_id :
    (text : List ℕ) (id : NodeId) → parse_node_id text ≡ some id → (hex id ≡ text) × IsArray 32 id
unfolding parse_node_id
hex-parse_node_id text id h =
    let (size, digits, same) = read_id text id h in
    let (back, long, bytes) = hex-pairs 32 text (omega (arith, size)) digits in
    (ap hex (sym same) ∙ back, subst (IsArray 32) same (long, bytes))

-- `parse_node_id` returns an id of 32 bytes exactly on the text that `hex` writes for it.
pub parse_node_id_iff :
    (text : List ℕ) (id : NodeId) → IsArray 32 id → (parse_node_id text ≡ some id) ↔ (hex id ≡ text)
parse_node_id_iff text id h =
    (λ e. (hex-parse_node_id text id e).0, λ e. ap parse_node_id (sym e) ∙ parse_node_id-hex id h)
