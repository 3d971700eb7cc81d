-- ===== src/Keyed.antt =====
-- Vectors of entries that are searched by a byte-array key with `std::find_if`, as the peers of a
-- topology, the contacts of a bucket and the routes of a table are. Not code of its own: the laws
-- that those components share.
use madoka.Common.{
  ◌≡◌, refl, Bool, List, [], ◌∷◌, ◌++◌, arith, if◌then◌else◌, Option, some, none, find_if,
  erase_first, update_first, erase_if, All, All-find_if,
}
use madoka.Bytes.{bytes_eq, bytes_eq_iff, NodeId}
use mathlib.Core.Option

module _ {ℓ} {A : Type ℓ} (key : A → NodeId) where
  abbrev pub has_key : NodeId → A → Bool
  has_key k a = bytes_eq (key a) k

  unfoldable pub find_key : NodeId → List A → Option A
  unfolding find_if
  find_key k xs = find_if (has_key k) xs

  -- No key occurs twice.
  abbrev pub Unique : List A → Type ℓ
  Unique [] = Unit
  Unique (x ∷ xs) = (find_key (key x) xs ≡ none) × Unique xs

module _ {ℓ} {A : Type ℓ} (key : A → NodeId) where
  pub find_key-key : (k : NodeId) (xs : List A) (a : A) → find_key key k xs ≡ some a → key a ≡ k
  unfolding find_key
  find_key-key k [] a h = absurd (ground arith)
  find_key-key k (x ∷ xs) a h = ground (arith, bytes_eq_iff (key x) k, find_key-key k xs a)

  pub All-find_key {κ} :
      (P : A → Type κ) (k : NodeId) (xs : List A) (a : A)
      → All P xs
      → find_key key k xs ≡ some a
      → P a
  unfolding find_key
  All-find_key P k xs a h e = All-find_if (has_key key k) P xs a h e

  pub find_key-append :
      (k : NodeId) (xs : List A) (a : A)
      → find_key key k (xs ++ a ∷ []) ≡ elim (find_key key k xs) [
        | none ↦ if bytes_eq (key a) k then some a else none
        | some b ↦ some b
      ]
  unfolding find_key
  find_key-append k [] a = refl
  find_key-append k (x ∷ xs) a = ground (arith, find_key-append k xs a)

  pub Unique-append :
      (xs : List A) (a : A)
      → Unique key xs
      → find_key key (key a) xs ≡ none
      → Unique key (xs ++ a ∷ [])
  unfolding find_key
  Unique-append [] a u h = (refl, tt)
  Unique-append (x ∷ xs) a u h = ground (
    arith,
    find_key-append (key x) xs a,
    bytes_eq_iff (key a) (key x),
    bytes_eq_iff (key x) (key a),
    Unique-append xs a u.1,
  )

  pub find_key-erase_first :
      (k j : NodeId) (xs : List A)
      → Unique key xs
      → find_key key k (erase_first (has_key key j) xs)
        ≡ (if bytes_eq j k then none else find_key key k xs)
  unfolding find_key erase_first
  find_key-erase_first k j [] u = ground arith
  find_key-erase_first k j (x ∷ xs) u = ground (
    arith,
    bytes_eq_iff (key x) k,
    bytes_eq_iff (key x) j,
    bytes_eq_iff j k,
    find_key-erase_first k j xs u.1,
  )

  -- Erasing entries finds no key that was not there.
  pub find_key-erase_first-none :
      (k j : NodeId) (xs : List A)
      → find_key key k xs ≡ none
      → find_key key k (erase_first (has_key key j) xs) ≡ none
  unfolding find_key erase_first
  find_key-erase_first-none k j [] h = refl
  find_key-erase_first-none k j (x ∷ xs) h = ground (arith, find_key-erase_first-none k j xs)

  pub Unique-erase_first :
      (j : NodeId) (xs : List A) → Unique key xs → Unique key (erase_first (has_key key j) xs)
  unfolding erase_first
  Unique-erase_first j [] u = tt
  Unique-erase_first j (x ∷ xs) u =
      ground (arith, find_key-erase_first-none (key x) j xs, Unique-erase_first j xs u.1)

  pub find_key-erase_if-none :
      (p : A → Bool) (k : NodeId) (xs : List A)
      → find_key key k xs ≡ none
      → find_key key k (erase_if p xs) ≡ none
  unfolding find_key erase_if
  find_key-erase_if-none p k [] h = refl
  find_key-erase_if-none p k (x ∷ xs) h = ground (arith, find_key-erase_if-none p k xs)

  pub Unique-erase_if : (p : A → Bool) (xs : List A) → Unique key xs → Unique key (erase_if p xs)
  unfolding erase_if
  Unique-erase_if p [] u = tt
  Unique-erase_if p (x ∷ xs) u =
      ground (arith, find_key-erase_if-none p (key x) xs, Unique-erase_if p xs u.1)

  pub find_key-erase_if :
      (p : A → Bool) (k : NodeId) (xs : List A)
      → Unique key xs
      → find_key key k (erase_if p xs)
        ≡ elim (find_key key k xs) [ none ↦ none | some a ↦ if p a then none else some a ]
  unfolding find_key erase_if
  find_key-erase_if p k [] u = refl
  find_key-erase_if p k (x ∷ xs) u =
      ground (arith, bytes_eq_iff (key x) k, find_key-erase_if p k xs u.1)

-- An update of the first entry of a key that keeps the key there.
module _ {ℓ} {A : Type ℓ} (key : A → NodeId) (j : NodeId) (f : A → A)
    (same : (a : A) → key a ≡ j → key (f a) ≡ key a) where
  pub find_key-update_first :
      (k : NodeId) (xs : List A)
      → find_key key k (update_first (has_key key j) f xs)
        ≡ (if bytes_eq j k then Option.map f (find_key key k xs) else find_key key k xs)
  unfolding find_key update_first
  find_key-update_first k [] = ground arith
  find_key-update_first k (x ∷ xs) = ground (
    arith,
    same x,
    bytes_eq_iff (key x) k,
    bytes_eq_iff (key (f x)) k,
    bytes_eq_iff (key x) j,
    bytes_eq_iff j k,
    find_key-update_first k xs,
  )

  pub Unique-update_first :
      (xs : List A) → Unique key xs → Unique key (update_first (has_key key j) f xs)
  unfolding update_first
  Unique-update_first [] u = tt
  Unique-update_first (x ∷ xs) u = ground (
    arith,
    same x,
    bytes_eq_iff (key x) j,
    find_key-update_first (key x) xs,
    Unique-update_first xs u.1,
  )
