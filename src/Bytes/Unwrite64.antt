-- ===== src/Bytes/Unwrite64.antt =====
-- Eight-byte words that are read within bounds, as the ones that their bytes write.
use madoka.Common.{
  ℕ, ◌+◌, ◌*◌, ◌^◌, ◌≤◌, ◌≡◌, ◌≢◌, sym, ap, subst, ◌∙◌, List, [], ◌∷◌, ◌++◌, arith, length, drop,
  All,
}
use madoka.Bytes.{IsByte, IsU64}
use madoka.Bytes.Slice.{ok-injective, ok, fault}
use madoka.Bytes.Words.{write_u64_be, read_u64_be}
use madoka.Bytes.Unwrite.{expose}

-- The bytes of a word within bounds are those that the word read from them writes.
u64_of_bytes :
    (a0 a1 a2 a3 a4 a5 a6 a7 : ℕ)
    → IsByte a0
    → IsByte a1
    → IsByte a2
    → IsByte a3
    → IsByte a4
    → IsByte a5
    → IsByte a6
    → IsByte a7
    → write_u64_be (
        a0 * 2 ^ 56
        + a1 * 2 ^ 48
        + a2 * 2 ^ 40
        + a3 * 2 ^ 32
        + a4 * 2 ^ 24
        + a5 * 2 ^ 16
        + a6 * 2 ^ 8
        + a7)
      ≡ a0 ∷ a1 ∷ a2 ∷ a3 ∷ a4 ∷ a5 ∷ a6 ∷ a7 ∷ []
unfolding write_u64_be
u64_of_bytes a0 a1 a2 a3 a4 a5 a6 a7 h0 h1 h2 h3 h4 h5 h6 h7 = ground arith

read_u64_be-bytes :
    {E : Type 0} (d : List ℕ) (off a0 a1 a2 a3 a4 a5 a6 a7 : ℕ)
    → IsByte a0
    → IsByte a1
    → IsByte a2
    → IsByte a3
    → IsByte a4
    → IsByte a5
    → IsByte a6
    → IsByte a7
    → drop (off) d ≡ a0 ∷ drop (off + 1) d
    → drop (off + 1) d ≡ a1 ∷ drop (off + 1 + 1) d
    → drop (off + 1 + 1) d ≡ a2 ∷ drop (off + 1 + 1 + 1) d
    → drop (off + 1 + 1 + 1) d ≡ a3 ∷ drop (off + 1 + 1 + 1 + 1) d
    → drop (off + 1 + 1 + 1 + 1) d ≡ a4 ∷ drop (off + 1 + 1 + 1 + 1 + 1) d
    → drop (off + 1 + 1 + 1 + 1 + 1) d ≡ a5 ∷ drop (off + 1 + 1 + 1 + 1 + 1 + 1) d
    → drop (off + 1 + 1 + 1 + 1 + 1 + 1) d ≡ a6 ∷ drop (off + 1 + 1 + 1 + 1 + 1 + 1 + 1) d
    → drop (off + 1 + 1 + 1 + 1 + 1 + 1 + 1) d ≡ a7 ∷ drop (off + 1 + 1 + 1 + 1 + 1 + 1 + 1 + 1) d
    → let v =
        a0 * 2 ^ 56
        + a1 * 2 ^ 48
        + a2 * 2 ^ 40
        + a3 * 2 ^ 32
        + a4 * 2 ^ 24
        + a5 * 2 ^ 16
        + a6 * 2 ^ 8
        + a7 in
      IsU64 v
      × (read_u64_be {E = E} d off ≡ ok v)
      × (drop off d ≡ write_u64_be v ++ drop (off + 8) d)
unfolding read_u64_be
read_u64_be-bytes d off a0 a1 a2 a3 a4 a5 a6 a7 h0 h1 h2 h3 h4 h5 h6 h7 e0 e1 e2 e3 e4 e5 e6 e7 = (
  omega arith,
  rw (e0, e1, e2, e3, e4, e5, e6, e7) (ap ok (omega arith)),
  rw (u64_of_bytes a0 a1 a2 a3 a4 a5 a6 a7 h0 h1 h2 h3 h4 h5 h6 h7) (
      e0
      ∙ ap (λ (t : List ℕ). a0 ∷ t) e1
      ∙ ap (λ (t : List ℕ). a0 ∷ a1 ∷ t) e2
      ∙ ap (λ (t : List ℕ). a0 ∷ a1 ∷ a2 ∷ t) e3
      ∙ ap (λ (t : List ℕ). a0 ∷ a1 ∷ a2 ∷ a3 ∷ t) e4
      ∙ ap (λ (t : List ℕ). a0 ∷ a1 ∷ a2 ∷ a3 ∷ a4 ∷ t) e5
      ∙ ap (λ (t : List ℕ). a0 ∷ a1 ∷ a2 ∷ a3 ∷ a4 ∷ a5 ∷ t) e6
      ∙ ap (λ (t : List ℕ). a0 ∷ a1 ∷ a2 ∷ a3 ∷ a4 ∷ a5 ∷ a6 ∷ t) e7
      ∙ ap (λ (k : ℕ). a0 ∷ a1 ∷ a2 ∷ a3 ∷ a4 ∷ a5 ∷ a6 ∷ a7 ∷ drop k d) (omega arith)),
)

-- A word within bounds is read, and is the one that its bytes write.
pub read_u64_be-inv :
    {E : Type 0} (d : List ℕ) (off : ℕ)
    → off + 8 ≤ length d
    → All IsByte d
    → (v : ℕ) × IsU64 v
      × (read_u64_be {E = E} d off ≡ ok v)
      × (drop off d ≡ write_u64_be v ++ drop (off + 8) d)
read_u64_be-inv d off h bytes =
    let (a0, h0, e0) = expose d (off) (omega arith) bytes in
    let (a1, h1, e1) = expose d (off + 1) (omega arith) bytes in
    let (a2, h2, e2) = expose d (off + 1 + 1) (omega arith) bytes in
    let (a3, h3, e3) = expose d (off + 1 + 1 + 1) (omega arith) bytes in
    let (a4, h4, e4) = expose d (off + 1 + 1 + 1 + 1) (omega arith) bytes in
    let (a5, h5, e5) = expose d (off + 1 + 1 + 1 + 1 + 1) (omega arith) bytes in
    let (a6, h6, e6) = expose d (off + 1 + 1 + 1 + 1 + 1 + 1) (omega arith) bytes in
    let (a7, h7, e7) = expose d (off + 1 + 1 + 1 + 1 + 1 + 1 + 1) (omega arith) bytes in
    let r =
      read_u64_be-bytes d off a0 a1 a2 a3 a4 a5 a6 a7 h0 h1 h2 h3 h4 h5 h6 h7 e0 e1 e2 e3 e4 e5 e6
        e7 in
    (_, r.0, r.1, r.2)

-- The same, for a value that is known to have been read.
pub read_u64_be-ok :
    {E : Type 0} (d : List ℕ) (off v : ℕ)
    → off + 8 ≤ length d
    → All IsByte d
    → read_u64_be {E = E} d off ≡ ok v
    → IsU64 v × (drop off d ≡ write_u64_be v ++ drop (off + 8) d)
read_u64_be-ok {E} d off v h bytes e =
    let (w, small, read, split) = read_u64_be-inv {E = E} d off h bytes in
    let same : w ≡ v = ok-injective w v (sym read ∙ e) in
    (
      subst IsU64 same small,
      subst (λ u. drop off d ≡ write_u64_be u ++ drop (off + 8) d) same split,
    )

pub read_u64_be-ne-fault :
    {E : Type 0} (d : List ℕ) (off : ℕ)
    → off + 8 ≤ length d
    → All IsByte d
    → read_u64_be {E = E} d off ≢ fault
read_u64_be-ne-fault {E} d off h bytes p = cc ((read_u64_be-inv {E = E} d off h bytes).2)
