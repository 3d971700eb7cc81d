-- ===== src/Bytes/Unwrite.antt =====
-- The other direction: a word that is read within bounds is the one that its bytes write.
use native.Mathlib.Nat.{suc-add}
use madoka.Common.{
  ℕ, zero, suc, ◌+◌, ◌*◌, ◌^◌, ◌≤◌, ◌<◌, ◌≡◌, ◌≢◌, refl, sym, ap, subst, ◌∙◌, List, [], ◌∷◌, ◌++◌,
  arith, length, drop, All,
}
use madoka.Bytes.{IsByte, IsU16, IsU32}
use madoka.Bytes.Slice.{ok-injective, ok, fault, byte_at}
use madoka.Bytes.Words.{write_u16_be, write_u32_be, read_u16_be, read_u32_be}

-- A byte within bounds.
pub expose :
    (d : List ℕ) (off : ℕ)
    → off < length d
    → All IsByte d
    → (b : ℕ) × IsByte b × (drop off d ≡ b ∷ drop (off + 1) d)
expose [] off h bytes = absurd (omega arith)
expose (x ∷ d) zero h bytes = (x, bytes.0, refl)
expose (x ∷ d) (suc off) h bytes =
    let (b, small, e) = expose d off (omega arith) bytes.1 in (b, small, rw suc-add e)

-- The bytes of a word within bounds are those that the word read from them writes.
u16_of_bytes : (a0 a1 : ℕ) → IsByte a0 → IsByte a1 → write_u16_be (a0 * 2 ^ 8 + a1) ≡ a0 ∷ a1 ∷ []
unfolding write_u16_be
u16_of_bytes a0 a1 h0 h1 = ground arith

read_u16_be-bytes :
    {E : Type 0} (d : List ℕ) (off a0 a1 : ℕ)
    → IsByte a0
    → IsByte a1
    → drop (off) d ≡ a0 ∷ drop (off + 1) d
    → drop (off + 1) d ≡ a1 ∷ drop (off + 1 + 1) d
    → let v = a0 * 2 ^ 8 + a1 in
      IsU16 v
      × (read_u16_be {E = E} d off ≡ ok v)
      × (drop off d ≡ write_u16_be v ++ drop (off + 2) d)
unfolding read_u16_be
read_u16_be-bytes d off a0 a1 h0 h1 e0 e1 = (
  omega arith,
  rw (e0, e1),
  rw (u16_of_bytes a0 a1 h0 h1)
      (e0 ∙ ap (λ (t : List ℕ). a0 ∷ t) e1 ∙ ap (λ (k : ℕ). a0 ∷ a1 ∷ drop k d) (omega arith)),
)

-- A word within bounds is read, and is the one that its bytes write.
pub read_u16_be-inv :
    {E : Type 0} (d : List ℕ) (off : ℕ)
    → off + 2 ≤ length d
    → All IsByte d
    → (v : ℕ) × IsU16 v
      × (read_u16_be {E = E} d off ≡ ok v)
      × (drop off d ≡ write_u16_be v ++ drop (off + 2) d)
read_u16_be-inv d off h bytes =
    let (a0, h0, e0) = expose d (off) (omega arith) bytes in
    let (a1, h1, e1) = expose d (off + 1) (omega arith) bytes in
    let r = read_u16_be-bytes d off a0 a1 h0 h1 e0 e1 in (_, r.0, r.1, r.2)

-- The bytes of a word within bounds are those that the word read from them writes.
u32_of_bytes :
    (a0 a1 a2 a3 : ℕ)
    → IsByte a0
    → IsByte a1
    → IsByte a2
    → IsByte a3
    → write_u32_be (a0 * 2 ^ 24 + a1 * 2 ^ 16 + a2 * 2 ^ 8 + a3) ≡ a0 ∷ a1 ∷ a2 ∷ a3 ∷ []
unfolding write_u32_be
u32_of_bytes a0 a1 a2 a3 h0 h1 h2 h3 = ground arith

read_u32_be-bytes :
    {E : Type 0} (d : List ℕ) (off a0 a1 a2 a3 : ℕ)
    → IsByte a0
    → IsByte a1
    → IsByte a2
    → IsByte a3
    → drop (off) d ≡ a0 ∷ drop (off + 1) d
    → drop (off + 1) d ≡ a1 ∷ drop (off + 1 + 1) d
    → drop (off + 1 + 1) d ≡ a2 ∷ drop (off + 1 + 1 + 1) d
    → drop (off + 1 + 1 + 1) d ≡ a3 ∷ drop (off + 1 + 1 + 1 + 1) d
    → let v = a0 * 2 ^ 24 + a1 * 2 ^ 16 + a2 * 2 ^ 8 + a3 in
      IsU32 v
      × (read_u32_be {E = E} d off ≡ ok v)
      × (drop off d ≡ write_u32_be v ++ drop (off + 4) d)
unfolding read_u32_be
read_u32_be-bytes d off a0 a1 a2 a3 h0 h1 h2 h3 e0 e1 e2 e3 = (
  omega arith,
  rw (
    e0,
    e1,
    ap (λ (k : ℕ). drop k d) (let e : off + 2 ≡ off + 1 + 1 = omega arith in e) ∙ e2,
    ap (λ (k : ℕ). drop k d) (let e : off + 3 ≡ off + 1 + 1 + 1 = omega arith in e) ∙ e3,
  ),
  rw (u32_of_bytes a0 a1 a2 a3 h0 h1 h2 h3) (
      e0
      ∙ ap (λ (t : List ℕ). a0 ∷ t) e1
      ∙ ap (λ (t : List ℕ). a0 ∷ a1 ∷ t) e2
      ∙ ap (λ (t : List ℕ). a0 ∷ a1 ∷ a2 ∷ t) e3
      ∙ ap (λ (k : ℕ). a0 ∷ a1 ∷ a2 ∷ a3 ∷ drop k d) (omega arith)),
)

-- A word within bounds is read, and is the one that its bytes write.
pub read_u32_be-inv :
    {E : Type 0} (d : List ℕ) (off : ℕ)
    → off + 4 ≤ length d
    → All IsByte d
    → (v : ℕ) × IsU32 v
      × (read_u32_be {E = E} d off ≡ ok v)
      × (drop off d ≡ write_u32_be v ++ drop (off + 4) d)
read_u32_be-inv d off h bytes =
    let (a0, h0, e0) = expose d (off) (omega arith) bytes in
    let (a1, h1, e1) = expose d (off + 1) (omega arith) bytes in
    let (a2, h2, e2) = expose d (off + 1 + 1) (omega arith) bytes in
    let (a3, h3, e3) = expose d (off + 1 + 1 + 1) (omega arith) bytes in
    let r = read_u32_be-bytes d off a0 a1 a2 a3 h0 h1 h2 h3 e0 e1 e2 e3 in (_, r.0, r.1, r.2)

-- The same, for a value that is known to have been read.
pub read_u16_be-ok :
    {E : Type 0} (d : List ℕ) (off v : ℕ)
    → off + 2 ≤ length d
    → All IsByte d
    → read_u16_be {E = E} d off ≡ ok v
    → IsU16 v × (drop off d ≡ write_u16_be v ++ drop (off + 2) d)
read_u16_be-ok {E} d off v h bytes e =
    let (w, small, read, split) = read_u16_be-inv {E = E} d off h bytes in
    let same : w ≡ v = ok-injective w v (sym read ∙ e) in
    (
      subst IsU16 same small,
      subst (λ u. drop off d ≡ write_u16_be u ++ drop (off + 2) d) same split,
    )

pub read_u16_be-ne-fault :
    {E : Type 0} (d : List ℕ) (off : ℕ)
    → off + 2 ≤ length d
    → All IsByte d
    → read_u16_be {E = E} d off ≢ fault
read_u16_be-ne-fault {E} d off h bytes p = cc ((read_u16_be-inv {E = E} d off h bytes).2)

-- The same, for a value that is known to have been read.
pub read_u32_be-ok :
    {E : Type 0} (d : List ℕ) (off v : ℕ)
    → off + 4 ≤ length d
    → All IsByte d
    → read_u32_be {E = E} d off ≡ ok v
    → IsU32 v × (drop off d ≡ write_u32_be v ++ drop (off + 4) d)
read_u32_be-ok {E} d off v h bytes e =
    let (w, small, read, split) = read_u32_be-inv {E = E} d off h bytes in
    let same : w ≡ v = ok-injective w v (sym read ∙ e) in
    (
      subst IsU32 same small,
      subst (λ u. drop off d ≡ write_u32_be u ++ drop (off + 4) d) same split,
    )

pub read_u32_be-ne-fault :
    {E : Type 0} (d : List ℕ) (off : ℕ)
    → off + 4 ≤ length d
    → All IsByte d
    → read_u32_be {E = E} d off ≢ fault
read_u32_be-ne-fault {E} d off h bytes p = cc ((read_u32_be-inv {E = E} d off h bytes).2)

-- A byte that is known to have been read.
pub byte_at-ok :
    {E : Type 0} (d : List ℕ) (off b : ℕ)
    → off < length d
    → All IsByte d
    → byte_at {E = E} d off ≡ ok b
    → IsByte b × (drop off d ≡ b ∷ drop (off + 1) d)
unfolding byte_at
byte_at-ok d off b h bytes e =
    let (a, small, split) = expose d off h bytes in ground (arith, split, small, e)

pub byte_at-ne-fault :
    {E : Type 0} (d : List ℕ) (off : ℕ)
    → off < length d
    → All IsByte d
    → byte_at {E = E} d off ≢ fault
unfolding byte_at
byte_at-ne-fault d off h bytes p =
    let (a, small, split) = expose d off h bytes in ground (arith, split, p)
