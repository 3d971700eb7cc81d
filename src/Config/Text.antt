-- ===== src/Config/Text.antt =====
-- Numbers in texts, as the standard library reads and writes them for src/core/config.cpp, and `trim`.
use madoka.Common.{
  ℕ, zero, suc, ◌+◌, ◌-◌, ◌*◌, ◌/◌, ◌%◌, ◌^◌, ◌≤◌, ◌<◌, ◌≡◌, refl, ap, sym, ◌∙◌, Bool, true, false,
  ◌&&◌, ◌||◌, List, [], ◌∷◌, Option, none, some, arith, ltb, leb, ◌==◌, if◌then◌else◌, Bool-cases,
  inl, inr, ltb_of_le, leb_of_le, All,
}

abbrev pub is_digit : ℕ → Bool
is_digit c = leb 48 c && leb c 57

-- `std::to_string`, with `fuel` digits to go.
unfoldable pub digits_of : (fuel : ℕ) → ℕ → List ℕ → List ℕ
digits_of zero n acc = acc
digits_of (suc fuel) n acc =
    let digits = (48 + n % 10) ∷ acc in
    let more = digits_of fuel (n / 10) digits in if n / 10 == 0 then digits else more

-- A number has no more digits than one more than its value.
unfoldable pub to_string : ℕ → List ℕ
unfolding digits_of
to_string n = digits_of (suc n) n []

-- `std::from_chars` on an `unsigned int`, behind the first digit: the value of the digits, and the rest.
unfoldable pub read_digits : ℕ → List ℕ → ℕ × List ℕ
read_digits v [] = (v, [])
read_digits v (c ∷ cs) =
    let rest = read_digits (v * 10 + (c - 48)) cs in if is_digit c then rest else (v, c ∷ cs)

-- `none` where `ec` is an error: no digit, or a value of more than 32 bits.
abbrev in_range : ℕ × List ℕ → Option (ℕ × List ℕ)
in_range r = if ltb r.0 (2 ^ 32) then some r else none

unfoldable pub from_chars : List ℕ → Option (ℕ × List ℕ)
from_chars [] = none
from_chars (c ∷ cs) = if is_digit c then in_range (read_digits 0 (c ∷ cs)) else none

-- `parse_port`
unfoldable pub parse_port : List ℕ → Option ℕ
unfolding from_chars
parse_port value = elim (from_chars value) [
  | none ↦ none
  | some (parsed, []) ↦ if ltb 65535 parsed then none else some parsed
  | some (parsed, c ∷ cs) ↦ none
]

-- " \t\r\n"
abbrev is_blank : ℕ → Bool
is_blank c = c == 32 || c == 9 || c == 13 || c == 10

-- From the first byte that is not blank.
unfoldable pub trim_front : List ℕ → List ℕ
trim_front [] = []
trim_front (c ∷ cs) = let rest = trim_front cs in if is_blank c then rest else c ∷ cs

-- Up to the last byte that is not blank.
unfoldable pub trim_back : List ℕ → List ℕ
trim_back [] = []
trim_back (c ∷ cs) = elim (trim_back cs) [
  | [] ↦ if is_blank c then [] else c ∷ []
  | d ∷ ds ↦ c ∷ d ∷ ds
]

unfoldable pub trim : List ℕ → List ℕ
unfolding trim_front trim_back
trim value = trim_back (trim_front value)

read_digit :
    (v d : ℕ) (rest : List ℕ)
    → d < 10
    → read_digits v ((48 + d) ∷ rest) ≡ read_digits (v * 10 + d) rest
unfolding read_digits
read_digit v d rest h =
    let low : leb 48 (48 + d) ≡ true = leb_of_le (omega arith) in
    let high : leb (48 + d) 57 ≡ true = leb_of_le (omega (arith, h)) in
    let value : v * 10 + (48 + d - 48) ≡ v * 10 + d = omega arith in
    rw (low, high) (ap (λ w. read_digits w rest) value)

read_digits-digits_of :
    (fuel n : ℕ) (rest : List ℕ)
    → n < fuel
    → read_digits 0 (digits_of fuel n rest) ≡ read_digits n rest
unfolding digits_of
read_digits-digits_of zero n rest h = absurd (omega arith)
read_digits-digits_of (suc fuel) n rest h =
    let small : n % 10 < 10 = omega arith in
    elim (Bool-cases (n / 10 == 0)) [
      | inl e ↦
          let zero_high : n / 10 ≡ 0 = ground (arith, e) in
          rw e (
            read_digit 0 (n % 10) rest small
            ∙ ap (λ w. read_digits w rest) (omega (arith, zero_high)))
      | inr e ↦
          let high : 1 ≤ n / 10 = ground (arith, e) in
          rw e (
            read_digits-digits_of fuel (n / 10) ((48 + n % 10) ∷ rest) (omega (arith, high, h))
            ∙ read_digit (n / 10) (n % 10) rest small
            ∙ ap (λ w. read_digits w rest) (omega arith))
    ]

-- The first byte of a number's text is a digit.
digits_of-head :
    (fuel n c : ℕ) (cs : List ℕ)
    → is_digit c ≡ true
    → (d : ℕ) × (ds : List ℕ) × (digits_of fuel n (c ∷ cs) ≡ d ∷ ds) × (is_digit d ≡ true)
unfolding digits_of
digits_of-head zero n c cs h = (c, cs, refl, h)
digits_of-head (suc fuel) n c cs h =
    let low : leb 48 (48 + n % 10) ≡ true = leb_of_le (omega arith) in
    let high : leb (48 + n % 10) 57 ≡ true = leb_of_le (omega arith) in
    let digit : is_digit (48 + n % 10) ≡ true = rw (low, high) refl in
    elim (Bool-cases (n / 10 == 0)) [
      | inl e ↦ rw e (48 + n % 10, c ∷ cs, refl, digit)
      | inr e ↦ rw e (digits_of-head fuel (n / 10) (48 + n % 10) (c ∷ cs) digit)
    ]

to_string-head : (n : ℕ) → (d : ℕ) × (ds : List ℕ) × (to_string n ≡ d ∷ ds) × (is_digit d ≡ true)
unfolding to_string digits_of
to_string-head n =
    let low : leb 48 (48 + n % 10) ≡ true = leb_of_le (omega arith) in
    let high : leb (48 + n % 10) 57 ≡ true = leb_of_le (omega arith) in
    let digit : is_digit (48 + n % 10) ≡ true = rw (low, high) refl in
    elim (Bool-cases (n / 10 == 0)) [
      | inl e ↦ rw (to_string, digits_of, e) (48 + n % 10, [], refl, digit)
      | inr e ↦ rw (to_string, digits_of, e) (digits_of-head n (n / 10) (48 + n % 10) [] digit)
    ]

digits_of-All :
    (fuel n : ℕ) (acc : List ℕ)
    → All (λ c. is_digit c ≡ true) acc
    → All (λ c. is_digit c ≡ true) (digits_of fuel n acc)
unfolding digits_of
digits_of-All zero n acc h = h
digits_of-All (suc fuel) n acc h =
    let low : leb 48 (48 + n % 10) ≡ true = leb_of_le (omega arith) in
    let high : leb (48 + n % 10) 57 ≡ true = leb_of_le (omega arith) in
    let digit : is_digit (48 + n % 10) ≡ true = rw (low, high) refl in
    elim (Bool-cases (n / 10 == 0)) [
      | inl e ↦ rw e (digit, h)
      | inr e ↦ rw e (digits_of-All fuel (n / 10) ((48 + n % 10) ∷ acc) (digit, h))
    ]

-- The text of a number has digits only.
pub to_string-digits : (n : ℕ) → All (λ c. is_digit c ≡ true) (to_string n)
unfolding to_string
to_string-digits n = digits_of-All (suc n) n [] tt

from_chars-read :
    (d : ℕ) (ds rest : List ℕ) (v : ℕ)
    → is_digit d ≡ true
    → read_digits 0 (d ∷ ds) ≡ (v, rest)
    → v < 2 ^ 32
    → from_chars (d ∷ ds) ≡ some (v, rest)
unfolding from_chars
from_chars-read d ds rest v h e small =
    let low : ltb v (2 ^ 32) ≡ true = ground (arith, small) in rw h (ap in_range e ∙ rw low refl)

from_chars-to_string : (n : ℕ) → n < 2 ^ 32 → from_chars (to_string n) ≡ some (n, [])
unfolding to_string
from_chars-to_string n small =
    let (d, ds, same, digit) = to_string-head n in
    let value : read_digits 0 (to_string n) ≡ (n, []) =
      read_digits-digits_of (suc n) n [] (omega arith) ∙ unfold read_digits in refl in
    ap from_chars same
    ∙ from_chars-read d ds [] n digit (ap (read_digits 0) (sym same) ∙ value) small

-- A port is read back from its decimal digits.
pub parse_port-to_string : (port : ℕ) → port ≤ 65535 → parse_port (to_string port) ≡ some port
unfolding parse_port
parse_port-to_string port h =
    let small : ltb 65535 port ≡ false = ltb_of_le h in
    rw (parse_port, from_chars-to_string port (omega (arith, h)), small) refl
