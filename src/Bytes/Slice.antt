-- ===== src/Bytes/Slice.antt =====
-- Reads from a `std::span<const uint8_t>`. A read past its end is undefined behaviour in the source:
-- here it is `fault`, a result of its own that no decoder may have.
use native.Mathlib.Nat.{zero-add, suc-add}
use madoka.Common.{
  ℕ, zero, suc, ◌+◌, ◌≤◌, ◌≡◌, refl, sym, ap, ◌∙◌, Bool, List, [], ◌∷◌, ◌++◌, arith, length, take,
  drop, leb, if◌then◌else◌, length-append, length-drop, length-take, take-append-drop,
}

pub data Result (E A : Type 0) : Type 0 where
  ok : A → Result E A
  err : E → Result E A
  fault : Result E A

-- What a reader that has checked its test goes on with.
abbrev pub check : {E : Type 0} (test : Bool) (message : E) → Result E (Unit {0})
check test message = if test then ok tt else err message

-- One step of a reader, and the rest of it; `fault` is passed on like a message.
infixl 5 ◌>>◌
abbrev pub ◌>>◌ : {E B : Type 0} → Result E (Unit {0}) → Result E B → Result E B
ok passed >> rest = rest
err message >> rest = err message
fault >> rest = fault

infixl 5 ◌>>=◌
abbrev pub ◌>>=◌ : {E A B : Type 0} (step : Result E A) (rest : A → Result E B) → Result E B
fault >>= rest = fault
err message >>= rest = err message
ok value >>= rest = rest value

pub ok-injective : {E A : Type 0} (a b : A) → ◌≡◌ {A = Result E A} (ok a) (ok b) → a ≡ b
ok-injective a b h = cc

-- The `n` bytes from `off` on.
unfoldable pub slice : {E : Type 0} → List ℕ → ℕ → ℕ → Result E (List ℕ)
slice d off n = if leb (off + n) (length d) then ok (take n (drop off d)) else fault

-- `data.subspan(off)`
unfoldable pub subspan : {E : Type 0} → List ℕ → ℕ → Result E (List ℕ)
subspan d off = if leb off (length d) then ok (drop off d) else fault

abbrev first_byte : {E : Type 0} → List ℕ → Result E ℕ
first_byte [] = fault
first_byte (b ∷ bs) = ok b

-- `data[i]`
unfoldable pub byte_at : {E : Type 0} → List ℕ → ℕ → Result E ℕ
byte_at d i = first_byte (drop i d)

-- What is left of `d` from `off` on.
abbrev pub Rest : List ℕ → ℕ → List ℕ → Type 0
Rest d off r = (drop off d ≡ r) × (length d ≡ off + length r)

pub Rest-start : (d : List ℕ) → Rest d 0 d
Rest-start d = (refl, omega arith)

pub Rest-drop : (d : List ℕ) (off : ℕ) → off ≤ length d → Rest d off (drop off d)
Rest-drop d off h = (refl, omega (arith, length-drop off d))

drop-append : (n : ℕ) (c r : List ℕ) → length c ≡ n → drop n (c ++ r) ≡ r
drop-append zero [] r h = refl
drop-append zero (x ∷ c) r h = absurd (omega arith)
drop-append (suc n) [] r h = absurd (omega arith)
drop-append (suc n) (x ∷ c) r h = drop-append n c r (omega arith)

take-append : (n : ℕ) (c r : List ℕ) → length c ≡ n → take n (c ++ r) ≡ c
take-append zero [] r h = refl
take-append zero (x ∷ c) r h = absurd (omega arith)
take-append (suc n) [] r h = absurd (omega arith)
take-append (suc n) (x ∷ c) r h = ap (◌∷◌ x) (take-append n c r (omega arith))

drop-nil : (n : ℕ) → drop {A = ℕ} n [] ≡ []
drop-nil zero = refl
drop-nil (suc n) = refl

pub drop-drop : (m n : ℕ) (d : List ℕ) → drop n (drop m d) ≡ drop (m + n) d
drop-drop zero n d = rw zero-add
drop-drop (suc m) n [] = rw (suc-add, drop-nil n)
drop-drop (suc m) n (x ∷ d) = rw suc-add (drop-drop m n d)

pub Rest-next :
    (d : List ℕ) (off n : ℕ) (c r : List ℕ)
    → Rest d off (c ++ r)
    → length c ≡ n
    → Rest d (off + n) r
Rest-next d off n c r h e = (
  sym (drop-drop off n d) ∙ ap (drop n) h.0 ∙ drop-append n c r e,
  omega (arith, h.1, e, length-append c r),
)

pub slice-Rest :
    {E : Type 0} (d : List ℕ) (off n : ℕ) (c r : List ℕ)
    → Rest d off (c ++ r)
    → length c ≡ n
    → slice {E = E} d off n ≡ ok c
unfolding slice
slice-Rest d off n c r h e = ground (arith, h.0, h.1, length-append c r, take-append n c r e)

-- Within bounds a read succeeds.
pub slice-eq :
    {E : Type 0} (d : List ℕ) (off n : ℕ)
    → off + n ≤ length d
    → slice {E = E} d off n ≡ ok (take n (drop off d))
unfolding slice
slice-eq d off n h = ground arith

pub length-take-drop :
    (d : List ℕ) (off n : ℕ) → off + n ≤ length d → length (take n (drop off d)) ≡ n
length-take-drop d off n h = omega (arith, length-take n (drop off d), length-drop off d)

-- A prefix of the rest, and what follows it.
pub drop-split : (d : List ℕ) (off n : ℕ) → drop off d ≡ take n (drop off d) ++ drop (off + n) d
drop-split d off n =
    sym (take-append-drop n (drop off d)) ∙ ap (◌++◌ (take n (drop off d))) (drop-drop off n d)

-- A span from `off` on is what is left there.
pub subspan-Rest :
    {E : Type 0} (d : List ℕ) (off : ℕ) (r : List ℕ) → Rest d off r → subspan {E = E} d off ≡ ok r
unfolding subspan
subspan-Rest d off r h = ground (arith, h.0, h.1)
