-- ===== src/Trust/Order.antt =====
-- The order of ids: `node_id_less` is a strict linear order on ids of one length.
use madoka.Common.{ℕ, ◌≡◌, refl, Bool, true, false, [], ◌∷◌, arith, ltb, if◌then◌else◌}
use madoka.Bytes.{NodeId, bytes_eq, node_id_less}

lex_less_trans :
    (x y z : ℕ) (r1 r2 r3 : Bool)
    → (r1 ≡ true → r2 ≡ true → r3 ≡ true)
    → (if ltb x y then true else if ltb y x then false else r1) ≡ true
    → (if ltb y z then true else if ltb z y then false else r2) ≡ true
    → (if ltb x z then true else if ltb z x then false else r3) ≡ true
lex_less_trans x y z r1 r2 r3 f h k = ground (arith, f)

pub less_trans :
    (a b c : NodeId) → node_id_less a b ≡ true → node_id_less b c ≡ true → node_id_less a c ≡ true
unfolding node_id_less
less_trans a [] c h k = absurd cc
less_trans a (y ∷ b) [] h k = absurd cc
less_trans [] (y ∷ b) (z ∷ c) h k = refl
less_trans (x ∷ a) (y ∷ b) (z ∷ c) h k =
    lex_less_trans x y z (node_id_less a b) (node_id_less b c) (node_id_less a c) (less_trans a b c)
      h k

pub less_irrefl : (a : NodeId) → node_id_less a a ≡ false
unfolding node_id_less
less_irrefl [] = refl
less_irrefl (x ∷ a) = ground (arith, less_irrefl a)

-- Of two ids that are not the same one is less.
pub less_total :
    (a b : NodeId) → node_id_less a b ≡ false → node_id_less b a ≡ false → bytes_eq a b ≡ true
unfolding node_id_less bytes_eq
less_total [] [] h k = refl
less_total [] (y ∷ b) h k = absurd cc
less_total (x ∷ a) [] h k = absurd cc
less_total (x ∷ a) (y ∷ b) h k = ground (arith, less_total a b)

pub less-ne : (a b : NodeId) → node_id_less a b ≡ true → bytes_eq a b ≡ false
unfolding node_id_less bytes_eq
less-ne a [] h = absurd cc
less-ne [] (y ∷ b) h = refl
less-ne (x ∷ a) (y ∷ b) h = ground (arith, less-ne a b)
