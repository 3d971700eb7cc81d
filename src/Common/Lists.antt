-- ===== src/Common/Lists.antt =====
-- Sequences (`std::vector`, `std::span`) as lists, measured and cut by native numbers, and the
-- algorithms of the C++ standard library that the sources call with a predicate.
use Prim.Native.Nat.{ℕ, zero, suc, ◌+◌, ◌-◌, ◌≤◌, min}
use mathlib.Core.Path.{◌≡◌, refl}
use mathlib.Core.Bool.{Bool, true, false, ◌||◌}
use mathlib.Core.Option.{Option, none, some}
use mathlib.Core.List.{List, [], ◌∷◌, ◌++◌}
use native.Mathlib.Omega.{arith}
use madoka.Common.Tests.{if◌then◌else◌}

module _ {ℓ} {A : Type ℓ} where
  abbrev pub length : List A → ℕ
  length [] = 0
  length (x ∷ xs) = suc (length xs)

  abbrev pub take : ℕ → List A → List A
  take zero xs = []
  take (suc n) [] = []
  take (suc n) (x ∷ xs) = x ∷ take n xs

  abbrev pub drop : ℕ → List A → List A
  drop zero xs = xs
  drop (suc n) [] = []
  drop (suc n) (x ∷ xs) = drop n xs

  abbrev pub replicate : ℕ → A → List A
  replicate zero a = []
  replicate (suc n) a = a ∷ replicate n a

module _ {ℓ} {A : Type ℓ} where
  pub length-append : (xs ys : List A) → length (xs ++ ys) ≡ length xs + length ys
  length-append [] ys = omega arith
  length-append (x ∷ xs) ys = omega (arith, length-append xs ys)

  pub length-take : (n : ℕ) (xs : List A) → length (take n xs) ≡ min n (length xs)
  length-take zero xs = omega arith
  length-take (suc n) [] = omega arith
  length-take (suc n) (x ∷ xs) = omega (arith, length-take n xs)

  pub length-drop : (n : ℕ) (xs : List A) → length (drop n xs) ≡ length xs - n
  length-drop zero xs = omega arith
  length-drop (suc n) [] = omega arith
  length-drop (suc n) (x ∷ xs) = omega (arith, length-drop n xs)

  pub take-append-drop : (n : ℕ) (xs : List A) → take n xs ++ drop n xs ≡ xs
  take-append-drop zero xs = refl
  take-append-drop (suc n) [] = refl
  take-append-drop (suc n) (x ∷ xs) = rw (take-append-drop n xs)

  pub length-eq-zero : (xs : List A) → length xs ≡ 0 → xs ≡ []
  length-eq-zero [] h = refl
  length-eq-zero (x ∷ xs) h = absurd (omega arith)

-- A predicate on every element.
abbrev pub All {ℓ κ} : {A : Type ℓ} → (A → Type κ) → List A → Type κ
All P [] = Unit
All P (x ∷ xs) = P x × All P xs

pub All-append {ℓ κ} :
    {A : Type ℓ} (P : A → Type κ) (xs ys : List A) → All P xs → All P ys → All P (xs ++ ys)
All-append P [] ys h k = k
All-append P (x ∷ xs) ys h k = (h.0, All-append P xs ys h.1 k)

pub All-mono {ℓ κ κ'} :
    {A : Type ℓ} (P : A → Type κ) (Q : A → Type κ')
    → ((a : A) → P a → Q a)
    → (xs : List A) → All P xs
    → All Q xs
All-mono P Q f [] h = tt
All-mono P Q f (x ∷ xs) h = (f x h.0, All-mono P Q f xs h.1)

module _ {ℓ κ} {A : Type ℓ} (P : A → Type κ) where
  pub All-take : (n : ℕ) (xs : List A) → All P xs → All P (take n xs)
  All-take zero xs h = tt
  All-take (suc n) [] h = tt
  All-take (suc n) (x ∷ xs) h = (h.0, All-take n xs h.1)

  pub All-drop : (n : ℕ) (xs : List A) → All P xs → All P (drop n xs)
  All-drop zero xs h = h
  All-drop (suc n) [] h = tt
  All-drop (suc n) (x ∷ xs) h = All-drop n xs h.1

module _ {ℓ} {A : Type ℓ} (p : A → Bool) where
  -- `std::find_if`
  unfoldable pub find_if : List A → Option A
  find_if [] = none
  find_if (x ∷ xs) = if p x then some x else find_if xs

  -- The first match replaced, as by an assignment through the iterator of `std::find_if`.
  unfoldable pub update_first : (A → A) → List A → List A
  update_first f [] = []
  update_first f (x ∷ xs) = if p x then f x ∷ xs else x ∷ update_first f xs

  -- The first match erased, as by `erase` of that iterator.
  unfoldable pub erase_first : List A → List A
  erase_first [] = []
  erase_first (x ∷ xs) = if p x then xs else x ∷ erase_first xs

  -- `std::any_of`
  unfoldable pub any_of : List A → Bool
  any_of [] = false
  any_of (x ∷ xs) = p x || any_of xs

  -- `std::count_if`
  unfoldable pub count_if : List A → ℕ
  count_if [] = 0
  count_if (x ∷ xs) = (if p x then 1 else 0) + count_if xs

  -- `std::erase_if`, and `erase` of `std::remove_if`
  unfoldable pub erase_if : List A → List A
  erase_if [] = []
  erase_if (x ∷ xs) = if p x then erase_if xs else x ∷ erase_if xs

module _ {ℓ} {A : Type ℓ} (p : A → Bool) where
  pub length-update_first : (f : A → A) (xs : List A) → length (update_first p f xs) ≡ length xs
  unfolding update_first
  length-update_first f [] = refl
  length-update_first f (x ∷ xs) = ground (arith, length-update_first f xs)

  pub length-erase_first : (xs : List A) → length (erase_first p xs) ≤ length xs
  unfolding erase_first
  length-erase_first [] = omega arith
  length-erase_first (x ∷ xs) = ground (arith, length-erase_first xs)

  pub length-erase_if : (xs : List A) → length (erase_if p xs) ≤ length xs
  unfolding erase_if
  length-erase_if [] = omega arith
  length-erase_if (x ∷ xs) = ground (arith, length-erase_if xs)

  pub find_if-holds : (xs : List A) (a : A) → find_if p xs ≡ some a → p a ≡ true
  unfolding find_if
  find_if-holds [] a h = absurd (ground arith)
  find_if-holds (x ∷ xs) a h = ground (arith, find_if-holds xs a)

  pub count_if-append : (xs ys : List A) → count_if p (xs ++ ys) ≡ count_if p xs + count_if p ys
  unfolding count_if
  count_if-append [] ys = omega arith
  count_if-append (x ∷ xs) ys = omega (arith, count_if-append xs ys)

  pub erase_if-erase_if : (xs : List A) → erase_if p (erase_if p xs) ≡ erase_if p xs
  unfolding erase_if
  erase_if-erase_if [] = refl
  erase_if-erase_if (x ∷ xs) = ground (arith, erase_if-erase_if xs)

  pub All-erase_first {κ} : (P : A → Type κ) (xs : List A) → All P xs → All P (erase_first p xs)
  unfolding erase_first
  All-erase_first P [] h = h
  All-erase_first P (x ∷ xs) h = ground (arith, All-erase_first P xs h.1)

  pub All-erase_if {κ} : (P : A → Type κ) (xs : List A) → All P xs → All P (erase_if p xs)
  unfolding erase_if
  All-erase_if P [] h = h
  All-erase_if P (x ∷ xs) h = ground (arith, All-erase_if P xs h.1)

  pub All-find_if {κ} :
      (P : A → Type κ) (xs : List A) (a : A) → All P xs → find_if p xs ≡ some a → P a
  unfolding find_if
  All-find_if P [] a h e = absurd (ground arith)
  All-find_if P (x ∷ xs) a h e = ground (arith, All-find_if P xs a h.1)

  pub All-update_first {κ} :
      (P : A → Type κ) (f : A → A) (xs : List A)
      → ((a : A) → p a ≡ true → P a → P (f a))
      → All P xs
      → All P (update_first p f xs)
  unfolding update_first
  All-update_first P f [] keep h = tt
  All-update_first P f (x ∷ xs) keep h = ground (arith, keep x, All-update_first P f xs keep h.1)

-- Predicates that agree on a list.
module _ {ℓ} {A : Type ℓ} (p q : A → Bool) where
  pub find_if-congr : (xs : List A) → All (λ x. p x ≡ q x) xs → find_if p xs ≡ find_if q xs
  unfolding find_if
  find_if-congr [] h = refl
  find_if-congr (x ∷ xs) h = ground (arith, find_if-congr xs h.1)

  pub update_first-congr :
      (f : A → A) (xs : List A)
      → All (λ x. p x ≡ q x) xs
      → update_first p f xs ≡ update_first q f xs
  unfolding update_first
  update_first-congr f [] h = refl
  update_first-congr f (x ∷ xs) h = ground (arith, update_first-congr f xs h.1)
