-- ===== src/Config/Endpoint.antt =====
-- `parse_endpoint` and `format_endpoint` of src/core/config.cpp. `inet_pton`, which is the operating
-- system's, is a parameter: the test that an IPv6 or an IPv4 address in a C string is accepted.
use native.Mathlib.Nat.{suc-add}
use madoka.Common.{
  ℕ, suc, ◌+◌, ◌-◌, ◌≤◌, ◌<◌, ◌≡◌, ◌⊎◌, refl, ap, ◌∙◌, Bool, true, false, ◌||◌, List, [], ◌∷◌, ◌++◌,
  Option, none, some, arith, length, length-append, take, drop, leb, ◌==◌, if◌then◌else◌, not, inl,
  inr, All, leb_of_lt, ==_of_eq,
}
use madoka.Config.Text.{to_string, parse_port, parse_port-to_string, to_string-digits, is_digit}

abbrev pub shift_found : Option ℕ → Option ℕ
shift_found none = none
shift_found (some i) = some (suc i)

-- `value.find(c)`
unfoldable pub find_char : ℕ → List ℕ → Option ℕ
find_char c [] = none
find_char c (x ∷ xs) = if x == c then some 0 else shift_found (find_char c xs)

-- `value.rfind(c)`
unfoldable pub rfind_char : ℕ → List ℕ → Option ℕ
rfind_char c [] = none
rfind_char c (x ∷ xs) = elim (rfind_char c xs) [
  | some i ↦ some (suc i)
  | none ↦ if x == c then some 0 else none
]

-- What a C string function sees of a `std::string`.
unfoldable pub c_str : List ℕ → List ℕ
c_str [] = []
c_str (x ∷ xs) = let rest = c_str xs in if x == 0 then [] else x ∷ rest

-- Whether `inet_pton` returns 1.
abbrev pub InetPton : Type 0
InetPton = List ℕ → Bool

-- `value[i]`, 0 out of range, where the callers do not look.
abbrev first_char : List ℕ → ℕ
first_char [] = 0
first_char (c ∷ cs) = c

abbrev char_at : ℕ → List ℕ → ℕ
char_at i value = first_char (drop i value)

-- The end of both ways: an address that is accepted, and the port.
unfoldable pub with_port : InetPton → List ℕ → List ℕ → Option (List ℕ × ℕ)
with_port pton address port_text =
    if not (pton (c_str address))
    then none
    else elim (parse_port port_text) [ none ↦ none | some port ↦ some (address, port) ]

-- The address is in brackets.
unfoldable pub parse_bracketed : InetPton → List ℕ → Option (List ℕ × ℕ)
unfolding find_char
parse_bracketed pton6 value = elim (find_char 93 value) [
  | none ↦ none
  | some close_bracket ↦
      if leb close_bracket 1
      then none
      else if leb (length value) (close_bracket + 1)
          || not (char_at (close_bracket + 1) value == 58)
      then none
      else with_port pton6 (take (close_bracket - 1) (drop 1 value))
          (drop (close_bracket + 2) value)
]

unfoldable pub parse_plain : InetPton → List ℕ → Option (List ℕ × ℕ)
unfolding rfind_char
parse_plain pton4 value = elim (rfind_char 58 value) [
  | none ↦ none
  | some last_colon ↦
      if last_colon == 0
      then none
      else with_port pton4 (take last_colon value) (drop (last_colon + 1) value)
]

-- `none` where the source returns false. Null output pointers are not modelled.
unfoldable pub parse_endpoint : (pton6 pton4 : InetPton) → List ℕ → Option (List ℕ × ℕ)
unfolding parse_bracketed parse_plain
parse_endpoint pton6 pton4 [] = none
parse_endpoint pton6 pton4 (c ∷ cs) =
    if c == 91 then parse_bracketed pton6 (c ∷ cs) else parse_plain pton4 (c ∷ cs)

unfoldable pub format_endpoint : List ℕ → ℕ → List ℕ
unfolding find_char to_string
format_endpoint address port = elim (find_char 58 address) [
  | none ↦ address ++ (58 ∷ to_string port)
  | some i ↦ 91 ∷ (address ++ (93 ∷ 58 ∷ to_string port))
]

-- No byte is this one.
abbrev pub Lacks : ℕ → List ℕ → Type 0
Lacks c xs = All (λ x. (x == c) ≡ false) xs

find_char-none : (c : ℕ) (xs : List ℕ) → Lacks c xs → find_char c xs ≡ none
unfolding find_char
find_char-none c [] h = refl
find_char-none c (x ∷ xs) h = rw (h.0, find_char-none c xs h.1) refl

rfind_char-none : (c : ℕ) (xs : List ℕ) → Lacks c xs → rfind_char c xs ≡ none
unfolding rfind_char
rfind_char-none c [] h = refl
rfind_char-none c (x ∷ xs) h = rw (rfind_char-none c xs h.1, h.0) refl

find_char-append :
    (c : ℕ) (xs ys : List ℕ) → Lacks c xs → find_char c (xs ++ c ∷ ys) ≡ some (length xs)
unfolding find_char
find_char-append c [] ys h = let same : (c == c) ≡ true = ==_of_eq refl in rw same refl
find_char-append c (x ∷ xs) ys h = rw (h.0, find_char-append c xs ys h.1) refl

rfind_char-append :
    (c : ℕ) (xs ys : List ℕ) → Lacks c ys → rfind_char c (xs ++ c ∷ ys) ≡ some (length xs)
unfolding rfind_char
rfind_char-append c [] ys h =
    let same : (c == c) ≡ true = ==_of_eq refl in rw (rfind_char-none c ys h, same) refl
rfind_char-append c (x ∷ xs) ys h = rw (rfind_char-append c xs ys h) refl

take-length : (xs ys : List ℕ) → take (length xs) (xs ++ ys) ≡ xs
take-length [] ys = refl
take-length (x ∷ xs) ys = ap (◌∷◌ x) (take-length xs ys)

drop-length : (xs ys : List ℕ) (n : ℕ) → drop (length xs + n) (xs ++ ys) ≡ drop n ys
drop-length [] ys n = ap (λ k. drop k ys) (omega arith)
drop-length (x ∷ xs) ys n = rw suc-add (drop-length xs ys n)

digits-lack-colon : (cs : List ℕ) → All (λ c. is_digit c ≡ true) cs → Lacks 58 cs
digits-lack-colon [] h = tt
digits-lack-colon (c ∷ cs) h = (ground (arith, h.0), digits-lack-colon cs h.1)

with_port-to_string :
    (pton : InetPton) (address : List ℕ) (port : ℕ)
    → port ≤ 65535
    → pton (c_str address) ≡ true
    → with_port pton address (to_string port) ≡ some (address, port)
unfolding with_port
with_port-to_string pton address port h ok = rw (with_port, ok, parse_port-to_string port h) refl

parse_plain-at :
    (pton4 : InetPton) (value address port_text : List ℕ) (i : ℕ)
    → rfind_char 58 value ≡ some i
    → 1 ≤ i
    → take i value ≡ address
    → drop (i + 1) value ≡ port_text
    → parse_plain pton4 value ≡ with_port pton4 address port_text
unfolding parse_plain
parse_plain-at pton4 value address port_text i at h front back =
    let filled : (i == 0) ≡ false = ground (arith, h) in
    rw (parse_plain, at, filled, front, back) refl

parse_bracketed-at :
    (pton6 : InetPton) (value address port_text : List ℕ) (i : ℕ)
    → find_char 93 value ≡ some i
    → 2 ≤ i
    → i + 1 < length value
    → drop (i + 1) value ≡ 58 ∷ port_text
    → take (i - 1) (drop 1 value) ≡ address
    → drop (i + 2) value ≡ port_text
    → parse_bracketed pton6 value ≡ with_port pton6 address port_text
unfolding parse_bracketed
parse_bracketed-at pton6 value address port_text i at h room colon front back =
    let high : leb i 1 ≡ false = leb_of_lt h in
    let space : leb (length value) (i + 1) ≡ false = leb_of_lt room in
    rw (parse_bracketed, at, high, space, colon, front, back) refl

parse_plain-format :
    (pton4 : InetPton) (address : List ℕ) (port : ℕ)
    → port ≤ 65535
    → 1 ≤ length address
    → pton4 (c_str address) ≡ true
    → parse_plain pton4 (address ++ (58 ∷ to_string port)) ≡ some (address, port)
parse_plain-format pton4 address port h filled ok =
    let digits = to_string port in
    let at =
      rfind_char-append 58 address digits (digits-lack-colon digits (to_string-digits port)) in
    parse_plain-at pton4 (address ++ (58 ∷ digits)) address digits (length address) at filled
      (take-length address (58 ∷ digits)) (drop-length address (58 ∷ digits) 1)
    ∙ with_port-to_string pton4 address port h ok

parse_bracketed-format :
    (pton6 : InetPton) (address : List ℕ) (port : ℕ)
    → port ≤ 65535
    → 1 ≤ length address
    → Lacks 93 address
    → pton6 (c_str address) ≡ true
    → parse_bracketed pton6 (91 ∷ (address ++ (93 ∷ 58 ∷ to_string port))) ≡ some (address, port)
parse_bracketed-format pton6 address port h filled lacks ok =
    let digits = to_string port in
    let tail : List ℕ = 93 ∷ 58 ∷ digits in
    let open_ : List ℕ = 91 ∷ address in
    let one : suc (length address) - 1 ≡ length address = omega arith in
    parse_bracketed-at pton6 (open_ ++ tail) address digits (suc (length address))
      (find_char-append 93 open_ (58 ∷ digits) (refl, lacks)) (omega (arith, filled))
      (omega (arith, length-append open_ tail)) (drop-length open_ tail 1)
      (ap (λ n. take n (address ++ tail)) one ∙ take-length address tail) (drop-length open_ tail 2)
    ∙ with_port-to_string pton6 address port h ok

-- An address that `inet_pton` accepts: of IPv4, with a first byte that is no bracket and without
-- colons; or of IPv6, with a colon and without a closing bracket.
abbrev pub IsAddress : (pton6 pton4 : InetPton) → List ℕ → Type 0
IsAddress pton6 pton4 [] = ⊥
IsAddress pton6 pton4 (c ∷ cs) =
    (((c == 91) ≡ false) × Lacks 58 (c ∷ cs) × (pton4 (c_str (c ∷ cs)) ≡ true))
    ⊎ (((i : ℕ) × (find_char 58 (c ∷ cs) ≡ some i))
        × Lacks 93 (c ∷ cs)
        × (pton6 (c_str (c ∷ cs)) ≡ true))

-- An endpoint is read back from its text: an address that `inet_pton` accepts, which is an IPv4
-- address without colons and brackets or an IPv6 address with a colon and without a closing bracket,
-- and a port.
pub parse_endpoint-format :
    (pton6 pton4 : InetPton) (address : List ℕ) (port : ℕ)
    → port ≤ 65535
    → IsAddress pton6 pton4 address
    → parse_endpoint pton6 pton4 (format_endpoint address port) ≡ some (address, port)
unfolding parse_endpoint format_endpoint
parse_endpoint-format pton6 pton4 [] port h k = absurd k
parse_endpoint-format pton6 pton4 (c ∷ cs) port h (inl (front, lacks, ok)) =
    rw (format_endpoint, find_char-none 58 (c ∷ cs) lacks, front)
      (parse_plain-format pton4 (c ∷ cs) port h (omega arith) ok)
parse_endpoint-format pton6 pton4 (c ∷ cs) port h (inr ((i, at), lacks, ok)) =
    rw (format_endpoint, at) (parse_bracketed-format pton6 (c ∷ cs) port h (omega arith) lacks ok)
