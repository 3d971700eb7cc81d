-- ===== src/Kademlia/Index.antt =====
-- The index of a bucket.
use madoka.Common.{
  ℕ, zero, suc, ◌+◌, ◌*◌, ◌/◌, ◌^◌, ◌≤◌, ◌<◌, ◌≡◌, ◌≢◌, refl, List, [], ◌∷◌, arith, not, ◌==◌,
  if◌then◌else◌, ◌⊎◌, ◌↔◌, inl, inr,
}
use madoka.Bytes.{NodeId, IsByte, IsArray}
use madoka.Kademlia.{bit_xor, countl_zero, index_from, kademlia_bucket_index}

bit_xor-zero : (bits a b : ℕ) → a < 2 ^ bits → b < 2 ^ bits → bit_xor bits a b ≡ 0 → a ≡ b
unfolding bit_xor
bit_xor-zero zero a b h k e = omega arith
bit_xor-zero (suc bits) a b h k e = ground (arith, bit_xor-zero bits (a / 2) (b / 2))

bit_xor_self : (bits a : ℕ) → bit_xor bits a a ≡ 0
unfolding bit_xor
bit_xor_self zero a = refl
bit_xor_self (suc bits) a = ground (arith, bit_xor_self bits (a / 2))

countl_zero-le : (v : ℕ) → v ≢ 0 → countl_zero v ≤ 7
unfolding countl_zero
countl_zero-le v h = ground arith

xor_byte-zero : (x y : ℕ) → IsByte x → IsByte y → bit_xor 8 x y ≡ 0 → x ≡ y
xor_byte-zero x y h k e = bit_xor-zero 8 x y h k e

-- One byte of the loop.
index_step :
    (i n v c rest x y : ℕ) (a b : NodeId)
    → i + suc n ≡ 32
    → (v ≡ 0 → x ≡ y)
    → (v ≢ 0 → c ≤ 7)
    → (rest < 256) ⊎ ((rest ≡ 256) × (a ≡ b))
    → let r = if not (v == 0) then i * 8 + c else rest in
      (r < 256) ⊎ ((r ≡ 256) × (◌≡◌ {A = List ℕ} (x ∷ a) (y ∷ b)))
index_step i n zero c rest x y a b e same small h = ground (arith, same, h)
index_step i n (suc v) c rest x y a b e same small h =
    inl (grind (arith, small (λ p. omega (arith, p))))

-- The index from byte `i` on, where `n` bytes are left.
index_from_lem :
    (i n : ℕ) (a b : NodeId)
    → IsArray n a
    → IsArray n b
    → i + n ≡ 32
    → (index_from i a b < 256) ⊎ ((index_from i a b ≡ 256) × (a ≡ b))
unfolding index_from
index_from_lem i n [] [] h k e = inr (refl, refl)
index_from_lem i n [] (y ∷ b) h k e = absurd (omega (arith, h.0, k.0))
index_from_lem i n (x ∷ a) [] h k e = absurd (omega (arith, h.0, k.0))
index_from_lem i zero (x ∷ a) (y ∷ b) h k e = absurd (omega (arith, h.0))
index_from_lem i (suc n) (x ∷ a) (y ∷ b) h k e =
    index_step i n (bit_xor 8 x y) (countl_zero (bit_xor 8 x y)) (index_from (i + 1) a b) x y a b e
      (xor_byte-zero x y h.1.0 k.1.0) (countl_zero-le (bit_xor 8 x y))
      (index_from_lem (i + 1) n a b (omega (arith, h.0), h.1.1) (omega (arith, k.0), k.1.1)
        (omega (arith, e)))

index_from_self : (i : ℕ) (a : NodeId) → index_from i a a ≡ 256
unfolding index_from
index_from_self i [] = refl
index_from_self i (x ∷ a) = ground (arith, bit_xor_self 8 x, index_from_self (i + 1) a)

-- Two ids of 32 bytes have a bucket index below 256 exactly when they differ, so only the local
-- id has no bucket.
pub bucket_index_iff :
    (local remote : NodeId)
    → IsArray 32 local
    → IsArray 32 remote
    → ((kademlia_bucket_index local remote < 256) ↔ (local ≢ remote))
unfolding kademlia_bucket_index
bucket_index_iff local remote h k = (
  λ lt e.
      let self : index_from 0 local remote ≡ 256 = rw e (index_from_self 0 remote) in
      omega (arith, lt, self),
  λ n. ground (arith, index_from_lem 0 32 local remote h k refl),
)
