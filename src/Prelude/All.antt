-- ===== src/Prelude/All.antt =====
-- A predicate of all the members of a list.
use mathlib.Core.List.{List, [], ◌∷◌, ◌++◌}

module _ {ℓ κ} {A : Type ℓ} where
  abbrev pub All : (A → Type κ) → List A → Type κ
  All P [] = Unit
  All P (x ∷ xs) = P x × All P xs

module _ {ℓ κ} {A : Type ℓ} (P : A → Type κ) where
  pub All-append : (xs ys : List A) → All P xs → All P ys → All P (xs ++ ys)
  All-append [] ys a b = b
  All-append (x ∷ xs) ys a b = (a.0, All-append xs ys a.1 b)

  pub All-left : (xs ys : List A) → All P (xs ++ ys) → All P xs
  All-left [] ys a = tt
  All-left (x ∷ xs) ys a = (a.0, All-left xs ys a.1)

  pub All-right : (xs ys : List A) → All P (xs ++ ys) → All P ys
  All-right [] ys a = a
  All-right (x ∷ xs) ys a = All-right xs ys a.1

  -- A member less, and one more.
  pub All-without : (xs : List A) (x : A) (ys : List A) → All P (xs ++ x ∷ ys) → All P (xs ++ ys)
  All-without [] x ys a = a.1
  All-without (z ∷ xs) x ys a = (a.0, All-without xs x ys a.1)

  pub All-with : (xs : List A) (x : A) (ys : List A) → P x → All P (xs ++ ys) → All P (xs ++ x ∷ ys)
  All-with [] x ys p a = (p, a)
  All-with (z ∷ xs) x ys p a = (a.0, All-with xs x ys p a.1)

  pub All-of : (xs : List A) → ((x : A) → P x) → All P xs
  All-of [] p = tt
  All-of (x ∷ xs) p = (p x, All-of xs p)

pub All-map {ℓ κ μ} :
    {A : Type ℓ} (P : A → Type κ) (Q : A → Type μ) (xs : List A)
    → ((x : A) → P x → Q x)
    → All P xs
    → All Q xs
All-map P Q [] f a = tt
All-map P Q (x ∷ xs) f a = (f x a.0, All-map P Q xs f a.1)

pub All-zip {ℓ κ μ} :
    {A : Type ℓ} (P : A → Type κ) (Q : A → Type μ) (xs : List A)
    → All P xs
    → All Q xs
    → All (λ x. P x × Q x) xs
All-zip P Q [] a b = tt
All-zip P Q (x ∷ xs) a b = ((a.0, b.0), All-zip P Q xs a.1 b.1)

pub All-transposed {ℓ κ μ} :
    {A : Type ℓ} {B : Type κ} (R : A → B → Type μ) (xs : List A) (ys : List B)
    → All (λ x. All (R x) ys) xs
    → All (λ y. All (λ x. R x y) xs) ys
All-transposed R xs [] a = tt
All-transposed R xs (y ∷ ys) a =
    (All-map _ _ xs (λ x p. p.0) a, All-transposed R xs ys (All-map _ _ xs (λ x p. p.1) a))

-- A relation of every member to all behind it.
module _ {ℓ κ} {A : Type ℓ} where
  abbrev pub Pairwise : (A → A → Type κ) → List A → Type (ℓ ⊔ κ)
  Pairwise R [] = Unit
  Pairwise R (x ∷ xs) = All (R x) xs × Pairwise R xs

module _ {ℓ κ} {A : Type ℓ} (R : A → A → Type κ) where
  pub Pairwise-without :
      (xs : List A) (x : A) (ys : List A) → Pairwise R (xs ++ x ∷ ys) → Pairwise R (xs ++ ys)
  Pairwise-without [] x ys a = a.1
  Pairwise-without (z ∷ xs) x ys a = (All-without (R z) xs x ys a.0, Pairwise-without xs x ys a.1)

  pub Pairwise-with :
      (xs : List A) (x : A) (ys : List A)
      → All (λ a. R a x) xs
      → All (R x) ys
      → Pairwise R (xs ++ ys)
      → Pairwise R (xs ++ x ∷ ys)
  Pairwise-with [] x ys before after a = (after, a)
  Pairwise-with (z ∷ xs) x ys before after a =
      (All-with (R z) xs x ys before.0 a.0, Pairwise-with xs x ys before.1 after a.1)

  -- Of two parts, every member of the first to every member of the second.
  pub Pairwise-across : (xs ys : List A) → Pairwise R (xs ++ ys) → All (λ x. All (R x) ys) xs
  Pairwise-across [] ys a = tt
  Pairwise-across (x ∷ xs) ys a = (All-right (R x) xs ys a.0, Pairwise-across xs ys a.1)

  pub Pairwise-right : (xs ys : List A) → Pairwise R (xs ++ ys) → Pairwise R ys
  Pairwise-right [] ys a = a
  Pairwise-right (x ∷ xs) ys a = Pairwise-right xs ys a.1

  pub Pairwise-left : (xs ys : List A) → Pairwise R (xs ++ ys) → Pairwise R xs
  Pairwise-left [] ys a = tt
  Pairwise-left (x ∷ xs) ys a = (All-left (R x) xs ys a.0, Pairwise-left xs ys a.1)

-- A member for which another is put that has what the first has.
pub All-replaced {ℓ κ} :
    {A : Type ℓ} (P : A → Type κ) (xs : List A) (x y : A) (ys : List A)
    → (P x → P y)
    → All P (xs ++ x ∷ ys)
    → All P (xs ++ y ∷ ys)
All-replaced P [] x y ys f a = (f a.0, a.1)
All-replaced P (z ∷ xs) x y ys f a = (a.0, All-replaced P xs x y ys f a.1)

pub Pairwise-replaced {ℓ κ} :
    {A : Type ℓ} (R : A → A → Type κ) (xs : List A) (x y : A) (ys : List A)
    → ((z : A) → R z x → R z y)
    → ((z : A) → R x z → R y z)
    → Pairwise R (xs ++ x ∷ ys)
    → Pairwise R (xs ++ y ∷ ys)
Pairwise-replaced R [] x y ys f g a = (All-map (R x) (R y) ys g a.0, a.1)
Pairwise-replaced R (z ∷ xs) x y ys f g a =
    (All-replaced (R z) xs x y ys (f z) a.0, Pairwise-replaced R xs x y ys f g a.1)
