-- ===== src/Bytes/Words.antt =====
-- Big-endian words: the helpers of src/network/serialization.cpp and
-- src/network/data_serialization.cpp. `(v >> k) & 0xFF` is `v / 2 ^ k % 256`, and `|` of bytes that
-- are shifted to different places is a sum.
use madoka.Common.{ℕ, zero, suc, ◌+◌, ◌*◌, ◌/◌, ◌%◌, ◌^◌, ◌≡◌, refl, ap, List, [], ◌∷◌, ◌++◌, arith}
use madoka.Bytes.{IsU16, IsU32, IsU64}
use madoka.Bytes.Slice.{Result, ok, ◌>>=◌, byte_at, Rest, Rest-next}

-- `write_u16_be`
unfoldable pub write_u16_be : ℕ → List ℕ
write_u16_be v = (v / 2 ^ 8 % 256) ∷ (v % 256) ∷ []

-- `write_u32_be`
unfoldable pub write_u32_be : ℕ → List ℕ
write_u32_be v = (v / 2 ^ 24 % 256) ∷ (v / 2 ^ 16 % 256) ∷ (v / 2 ^ 8 % 256) ∷ (v % 256) ∷ []

-- The loop of `write_u64_be`, with `i` rounds to go.
write_loop : ℕ → ℕ → List ℕ
write_loop zero v = []
write_loop (suc i) v = (v / 2 ^ (i * 8) % 256) ∷ write_loop i v

-- `write_u64_be`
unfoldable pub write_u64_be : ℕ → List ℕ
unfolding write_loop
write_u64_be v = write_loop 8 v

-- `read_u16_be(data + off)`
unfoldable pub read_u16_be : {E : Type 0} → List ℕ → ℕ → Result E ℕ
unfolding byte_at
read_u16_be d off = do a ← byte_at d off; b ← byte_at d (off + 1); ok (a * 2 ^ 8 + b)

-- `read_u32_be(data + off)`
unfoldable pub read_u32_be : {E : Type 0} → List ℕ → ℕ → Result E ℕ
unfolding byte_at
read_u32_be d off = do
  a ← byte_at d off
  b ← byte_at d (off + 1)
  c ← byte_at d (off + 2)
  e ← byte_at d (off + 3)
  ok (a * 2 ^ 24 + b * 2 ^ 16 + c * 2 ^ 8 + e)

-- The loop of `read_u64_be`: `v = (v << 8) | p[i]`.
read_loop : {E : Type 0} → ℕ → List ℕ → ℕ → ℕ → Result E ℕ
read_loop zero d off v = ok v
read_loop (suc rounds) d off v =
    byte_at d off >>= λ b. read_loop rounds d (off + 1) (v * 2 ^ 8 % 2 ^ 64 + b)

-- `read_u64_be(data + off)`
unfoldable pub read_u64_be : {E : Type 0} → List ℕ → ℕ → Result E ℕ
unfolding read_loop byte_at
read_u64_be d off = read_loop 8 d off 0

-- One byte at the front of the rest.
pub byte_at-Rest :
    {E : Type 0} (d : List ℕ) (off b : ℕ) (r : List ℕ)
    → Rest d off (b ∷ r)
    → byte_at {E = E} d off ≡ ok b
unfolding byte_at
byte_at-Rest d off b r h = rw h.0

-- The next byte, read and dropped.
next_byte : (d : List ℕ) (off b : ℕ) (r : List ℕ) → Rest d off (b ∷ r) → Rest d (off + 1) r
next_byte d off b r h = Rest-next d off 1 (b ∷ []) r h refl

module _ {E : Type 0} (d : List ℕ) (off v : ℕ) (r : List ℕ) where
  pub read_u16_be-Rest :
      IsU16 v → Rest d off (write_u16_be v ++ r) → read_u16_be {E = E} d off ≡ ok v
  unfolding read_u16_be write_u16_be
  read_u16_be-Rest h k = rw (k.0, (Rest-next d off 1 (_ ∷ []) _ k refl).0) (ap ok (omega arith))

  pub read_u32_be-Rest :
      IsU32 v → Rest d off (write_u32_be v ++ r) → read_u32_be {E = E} d off ≡ ok v
  unfolding read_u32_be write_u32_be
  read_u32_be-Rest h k =
      rw
        (
          k.0,
          (Rest-next d off 1 (_ ∷ []) _ k refl).0,
          (Rest-next d off 2 (_ ∷ _ ∷ []) _ k refl).0,
          (Rest-next d off 3 (_ ∷ _ ∷ _ ∷ []) _ k refl).0,
        )
        (ap ok (omega arith))

module _ {E : Type 0} (d : List ℕ) (off v : ℕ) (r : List ℕ) where
  read_step :
      (rounds acc b : ℕ)
      → Rest d off (b ∷ r)
      → read_loop {E = E} (suc rounds) d off acc
        ≡ read_loop rounds d (off + 1) (acc * 2 ^ 8 % 2 ^ 64 + b)
  unfolding read_loop byte_at
  read_step rounds acc b h = rw h.0

pub read_u64_be-Rest :
    {E : Type 0} (d : List ℕ) (off v : ℕ) (r : List ℕ)
    → IsU64 v
    → Rest d off (write_u64_be v ++ r)
    → read_u64_be {E = E} d off ≡ ok v
unfolding read_u64_be write_u64_be
read_u64_be-Rest d off v r h k0 =
    let k1 = next_byte d off _ _ k0 in
    let k2 = next_byte d (off + 1) _ _ k1 in
    let k3 = next_byte d (off + 1 + 1) _ _ k2 in
    let k4 = next_byte d (off + 1 + 1 + 1) _ _ k3 in
    let k5 = next_byte d (off + 1 + 1 + 1 + 1) _ _ k4 in
    let k6 = next_byte d (off + 1 + 1 + 1 + 1 + 1) _ _ k5 in
    let k7 = next_byte d (off + 1 + 1 + 1 + 1 + 1 + 1) _ _ k6 in
    rw (k0.0, k1.0, k2.0, k3.0, k4.0, k5.0, k6.0, k7.0)
      (ap ok (
        let e0 : 0 * 2 ^ 8 % 2 ^ 64 + v / 2 ^ (7 * 8) % 256 ≡ v / 2 ^ (7 * 8) = omega arith in
        let e1 : v / 2 ^ (7 * 8) * 2 ^ 8 % 2 ^ 64 + v / 2 ^ (6 * 8) % 256 ≡ v / 2 ^ (6 * 8) =
          omega arith in
        let e2 : v / 2 ^ (6 * 8) * 2 ^ 8 % 2 ^ 64 + v / 2 ^ (5 * 8) % 256 ≡ v / 2 ^ (5 * 8) =
          omega arith in
        let e3 : v / 2 ^ (5 * 8) * 2 ^ 8 % 2 ^ 64 + v / 2 ^ (4 * 8) % 256 ≡ v / 2 ^ (4 * 8) =
          omega arith in
        let e4 : v / 2 ^ (4 * 8) * 2 ^ 8 % 2 ^ 64 + v / 2 ^ (3 * 8) % 256 ≡ v / 2 ^ (3 * 8) =
          omega arith in
        let e5 : v / 2 ^ (3 * 8) * 2 ^ 8 % 2 ^ 64 + v / 2 ^ (2 * 8) % 256 ≡ v / 2 ^ (2 * 8) =
          omega arith in
        let e6 : v / 2 ^ (2 * 8) * 2 ^ 8 % 2 ^ 64 + v / 2 ^ (1 * 8) % 256 ≡ v / 2 ^ (1 * 8) =
          omega arith in
        let e7 : v / 2 ^ (1 * 8) * 2 ^ 8 % 2 ^ 64 + v / 2 ^ (0 * 8) % 256 ≡ v = omega arith in
        rw (e0, e1, e2, e3, e4, e5, e6, e7)))
