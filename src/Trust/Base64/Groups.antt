-- ===== src/Trust/Base64/Groups.antt =====
-- Groups of bytes and of characters in base64: what the loops do with one group, whatever the buffer
-- has held.
use madoka.Common.{
  ℕ, ◌+◌, ◌-◌, ◌*◌, ◌/◌, ◌%◌, ◌^◌, ◌<◌, ◌≡◌, refl, ap, ◌∙◌, List, [], ◌∷◌, some, arith, leb,
  if◌then◌else◌,
}
use madoka.Bytes.{IsByte}
use madoka.Trust.Base64.{alphabet_at, push_chars, encode_loop, value_of, put_byte, decode_loop}

value_of-alphabet : (i : ℕ) → i < 64 → value_of (alphabet_at i) ≡ some i
unfolding value_of alphabet_at
value_of-alphabet i h = ground (arith, h)

-- The characters of what is shifted in, whatever the buffer holds.
first_six : (x a : ℕ) → IsByte a → (x * 2 ^ 8 % 2 ^ 32 + a) / 4 % 64 ≡ a / 4
first_six x a h = omega (arith, h)

middle_six :
    (x a b : ℕ)
    → IsByte a
    → IsByte b
    → ((x * 2 ^ 8 % 2 ^ 32 + a) * 2 ^ 8 % 2 ^ 32 + b) / 16 % 64 ≡ a % 4 * 16 + b / 16
middle_six x a b h k = omega (arith, h, k)

third_six :
    (x b c : ℕ)
    → IsByte b
    → IsByte c
    → ((x * 2 ^ 8 % 2 ^ 32 + b) * 2 ^ 8 % 2 ^ 32 + c) / 64 % 64 ≡ b % 16 * 4 + c / 64
third_six x b c h k = omega (arith, h, k)

last_six : (x c : ℕ) → IsByte c → (x * 2 ^ 8 % 2 ^ 32 + c) / 1 % 64 ≡ c % 64
last_six x c h = omega (arith, h)

pub encode-three :
    (v a b c : ℕ) (rest : List ℕ)
    → IsByte a
    → IsByte b
    → IsByte c
    → (v' : ℕ) × (encode_loop v 0 (a ∷ b ∷ c ∷ rest)
        ≡ alphabet_at (a / 4)
          ∷ alphabet_at (a % 4 * 16 + b / 16)
          ∷ alphabet_at (b % 16 * 4 + c / 64)
          ∷ alphabet_at (c % 64)
          ∷ encode_loop v' 0 rest)
unfolding encode_loop push_chars
encode-three v a b c rest ha hb hc =
    let va = v * 2 ^ 8 % 2 ^ 32 + a in
    let vb = va * 2 ^ 8 % 2 ^ 32 + b in
    (
      vb * 2 ^ 8 % 2 ^ 32 + c,
      rw (first_six v a ha, middle_six v a b ha hb, third_six va b c hb hc, last_six vb c hc) refl,
    )

-- The bytes that four characters push.
pub first_byte :
    (x s t : ℕ)
    → s < 64
    → t < 64
    → ((x * 2 ^ 6 % 2 ^ 32 + s) * 2 ^ 6 % 2 ^ 32 + t) / 16 % 256 ≡ s * 4 + t / 16
first_byte x s t h k = omega (arith, h, k)

pub second_byte :
    (x t u : ℕ)
    → t < 64
    → u < 64
    → ((x * 2 ^ 6 % 2 ^ 32 + t) * 2 ^ 6 % 2 ^ 32 + u) / 4 % 256 ≡ t % 16 * 16 + u / 4
second_byte x t u h k = omega (arith, h, k)

third_byte :
    (x u w : ℕ)
    → u < 64
    → w < 64
    → ((x * 2 ^ 6 % 2 ^ 32 + u) * 2 ^ 6 % 2 ^ 32 + w) / 1 % 256 ≡ u % 4 * 64 + w
third_byte x u w h k = omega (arith, h, k)

pub decode-char :
    (v bits i : ℕ) (rest : List ℕ)
    → i < 64
    → let shifted = v * 2 ^ 6 % 2 ^ 32 + i in
      let full = leb 8 (bits + 6) in
      let after = decode_loop shifted (if full then bits + 6 - 8 else bits + 6) rest in
      decode_loop v bits (alphabet_at i ∷ rest)
      ≡ (if full then put_byte (shifted / 2 ^ (bits + 6 - 8) % 256) after else after)
unfolding decode_loop
decode-char v bits i rest h = rw (decode_loop, value_of-alphabet i h) refl

pub decode-four :
    (v s t u w : ℕ) (rest : List ℕ)
    → s < 64
    → t < 64
    → u < 64
    → w < 64
    → (v' : ℕ) × (decode_loop v 0
          (alphabet_at s ∷ alphabet_at t ∷ alphabet_at u ∷ alphabet_at w ∷ rest)
        ≡ put_byte
            (s * 4 + t / 16)
            (put_byte (t % 16 * 16 + u / 4) (put_byte (u % 4 * 64 + w) (decode_loop v' 0 rest))))
decode-four v s t u w rest hs ht hu hw =
    let vs = v * 2 ^ 6 % 2 ^ 32 + s in
    let vt = vs * 2 ^ 6 % 2 ^ 32 + t in
    let vu = vt * 2 ^ 6 % 2 ^ 32 + u in
    let vw = vu * 2 ^ 6 % 2 ^ 32 + w in
    (
      vw,
      decode-char v 0 s (alphabet_at t ∷ alphabet_at u ∷ alphabet_at w ∷ rest) hs
          ∙ decode-char vs 6 t (alphabet_at u ∷ alphabet_at w ∷ rest) ht
          ∙ ap (put_byte (vt / 2 ^ 4 % 256)) (decode-char vt 4 u (alphabet_at w ∷ rest) hu)
          ∙ ap (λ d. put_byte (vt / 2 ^ 4 % 256) (put_byte (vu / 2 ^ 2 % 256) d))
              (decode-char vu 2 w rest hw)
          ∙ rw (first_byte v s t hs ht, second_byte vs t u ht hu, third_byte vt u w hu hw) refl,
    )

one_tail : (x a : ℕ) → IsByte a → (x * 2 ^ 8 % 2 ^ 32 + a) * 2 ^ 4 % 2 ^ 32 % 64 ≡ a % 4 * 16
one_tail x a h = omega (arith, h)

two_tail : (x b : ℕ) → IsByte b → (x * 2 ^ 8 % 2 ^ 32 + b) * 2 ^ 2 % 2 ^ 32 % 64 ≡ b % 16 * 4
two_tail x b h = omega (arith, h)

pub encode-one :
    (v a : ℕ)
    → IsByte a
    → encode_loop v 0 (a ∷ []) ≡ alphabet_at (a / 4) ∷ alphabet_at (a % 4 * 16) ∷ []
unfolding encode_loop push_chars
encode-one v a h = rw (first_six v a h, one_tail v a h) refl

pub encode-two :
    (v a b : ℕ)
    → IsByte a
    → IsByte b
    → encode_loop v 0 (a ∷ b ∷ [])
      ≡ alphabet_at (a / 4) ∷ alphabet_at (a % 4 * 16 + b / 16) ∷ alphabet_at (b % 16 * 4) ∷ []
unfolding encode_loop push_chars
encode-two v a b h k =
    rw (first_six v a h, middle_six v a b h k, two_tail (v * 2 ^ 8 % 2 ^ 32 + a) b k) refl

pub decode-nothing :
    (x n : ℕ) → decode_loop x n [] ≡ some (record { bytes = []; buffer = x; bits = n })
unfolding decode_loop
decode-nothing x n = refl
