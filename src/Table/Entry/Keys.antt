-- ===== src/Table/Entry/Keys.antt =====
-- `same_key` decides equality of keys.
use Prim.Native.Nat.{Ordering}
use source.Prelude.{ℕ, ◌≡◌, refl, ap, true, List, [], ◌∷◌, length, arith}
use source.Table.Entry.{memcmp, same_key}

memcmp-eq : (a b : List ℕ) → length a ≡ length b → memcmp (length b) a b ≡ Ordering.eq → a ≡ b
unfolding memcmp
memcmp-eq [] [] l e = refl
memcmp-eq [] (y ∷ b) l e = absurd (ground arith)
memcmp-eq (x ∷ a) [] l e = absurd (ground arith)
memcmp-eq (x ∷ a) (y ∷ b) l e = ground (arith, memcmp-eq a b)

memcmp_refl : (a : List ℕ) → memcmp (length a) a a ≡ Ordering.eq
unfolding memcmp
memcmp_refl [] = refl
memcmp_refl (x ∷ a) = ground (arith, memcmp_refl a)

pub same_key-eq : (a b : List ℕ) → same_key a b ≡ true → a ≡ b
unfolding same_key
same_key-eq a b h = ground (arith, memcmp-eq a b)

pub same_key_refl : (a : List ℕ) → same_key a a ≡ true
unfolding same_key
same_key_refl a = ground (arith, memcmp_refl a)

-- Equal keys have the same tests against every key.
pub same_key_left : (a b c : List ℕ) → same_key a b ≡ true → same_key a c ≡ same_key b c
same_key_left a b c h = ap (λ k. same_key k c) (same_key-eq a b h)

pub same_key_right : (a b c : List ℕ) → same_key a b ≡ true → same_key c a ≡ same_key c b
same_key_right a b c h = ap (same_key c) (same_key-eq a b h)
