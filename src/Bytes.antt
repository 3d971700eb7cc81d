-- ===== src/Bytes.antt =====
-- Byte arrays: `NodeId`, `IPv6` and the key arrays of include/core/config.hpp, their comparisons,
-- and the zero array that a value-initialised `std::array` is.
pub mod Slice
pub mod Words
pub mod Unwrite
pub mod Unwrite64
use madoka.Common.{
  ℕ, zero, suc, ◌+◌, ◌^◌, ◌<◌, ◌≡◌, ◌≢◌, refl, ap, ◌↔◌, Bool, true, false, ◌&&◌, List, [], ◌∷◌,
  ◌++◌, arith, length, All, take, drop, replicate, ltb, ◌==◌, if◌then◌else◌, not,
}

-- `unsigned char` and the unsigned widths of <cstdint>, as ranges of numbers.
abbrev pub IsByte : ℕ → Type 0
IsByte b = b < 256

abbrev pub IsU16 : ℕ → Type 0
IsU16 v = v < 2 ^ 16

abbrev pub IsU32 : ℕ → Type 0
IsU32 v = v < 2 ^ 32

abbrev pub IsU64 : ℕ → Type 0
IsU64 v = v < 2 ^ 64

-- `std::array<unsigned char, 32>`: a list, whose length and range are in `IsArray 32`.
abbrev pub NodeId : Type 0
NodeId = List ℕ

abbrev pub IPv6 : Type 0
IPv6 = List ℕ

abbrev pub IsArray : ℕ → List ℕ → Type 0
IsArray n xs = (length xs ≡ n) × All IsByte xs

-- `NodeId{}` and `IPv6{}`
abbrev pub zero_id : NodeId
zero_id = replicate 32 0

abbrev pub zero_address : IPv6
zero_address = replicate 16 0

-- `operator==` of arrays and strings
unfoldable pub bytes_eq : List ℕ → List ℕ → Bool
bytes_eq [] [] = true
bytes_eq [] (y ∷ ys) = false
bytes_eq (x ∷ xs) [] = false
bytes_eq (x ∷ xs) (y ∷ ys) = x == y && bytes_eq xs ys

pub bytes_eq_refl : (xs : List ℕ) → bytes_eq xs xs ≡ true
unfolding bytes_eq
bytes_eq_refl [] = refl
bytes_eq_refl (x ∷ xs) = ground (arith, bytes_eq_refl xs)

pub bytes_eq_sound : (xs ys : List ℕ) → bytes_eq xs ys ≡ true → xs ≡ ys
unfolding bytes_eq
bytes_eq_sound [] [] h = refl
bytes_eq_sound [] (y ∷ ys) h = cc
bytes_eq_sound (x ∷ xs) [] h = cc
bytes_eq_sound (x ∷ xs) (y ∷ ys) h = ground (arith, bytes_eq_sound xs ys)

pub bytes_eq_iff : (xs ys : List ℕ) → (bytes_eq xs ys ≡ true) ↔ (xs ≡ ys)
bytes_eq_iff xs ys = (bytes_eq_sound xs ys, λ e. rw e (bytes_eq_refl ys))

pub bytes_eq-ne : (xs ys : List ℕ) → bytes_eq xs ys ≡ false → xs ≢ ys
bytes_eq-ne xs ys h e = ground (arith, bytes_eq_iff xs ys)

-- `std::lexicographical_compare` (node_id_less)
unfoldable pub node_id_less : NodeId → NodeId → Bool
node_id_less xs [] = false
node_id_less [] (y ∷ ys) = true
node_id_less (x ∷ xs) (y ∷ ys) =
    if ltb x y then true else if ltb y x then false else node_id_less xs ys

-- `virtual_address`: bytes 8 to 15 of the network prefix are replaced by the first 8 of the id.
unfoldable pub virtual_address : IPv6 → NodeId → IPv6
virtual_address network id = take 8 network ++ take 8 id
