-- ===== src/Base/Lists.antt =====
-- Iterator adaptors by Boolean tests, and predicates on lists by recursion.
use mathlib.Core.Path.{◌≡◌, refl}
use mathlib.Core.Logic.{◌⊎◌, inl, inr, ◌↔◌}
use mathlib.Core.Bool.{Bool, true, false, ◌||◌, not}
use mathlib.Core.List.{List, [], ◌∷◌, ◌++◌, map, reverse_aux}
use Prim.Native.Nat.{ℕ, suc}
use native.Mathlib.Omega.{arith}
use killjoy.Base.Tests.{if◌then◌else◌, Bool-cases}

module _ {ℓ} {A : Type ℓ} where
  abbrev pub length : List A → ℕ
  length [] = 0
  length (x ∷ xs) = suc (length xs)

  -- `iter().filter(p).collect()`
  abbrev pub filter : (A → Bool) → List A → List A
  filter p [] = []
  filter p (x ∷ xs) = let rest = filter p xs in if p x then x ∷ rest else rest

  -- `iter().any(p)`
  abbrev pub any : (A → Bool) → List A → Bool
  any p [] = false
  any p (x ∷ xs) = p x || any p xs

  abbrev pub is_empty : List A → Bool
  is_empty [] = true
  is_empty (x ∷ xs) = false

module _ {ℓ} {A : Type ℓ} where
  -- Every element, some element.
  abbrev pub All {κ} : (A → Type κ) → List A → Type κ
  All P [] = Unit
  All P (x ∷ xs) = P x × All P xs

  abbrev pub Any : (A → Type 0) → List A → Type 0
  Any P [] = ⊥
  Any P (x ∷ xs) = P x ⊎ Any P xs

abbrev pub In : {A : Type 0} → A → List A → Type 0
In a = Any (λ x. x ≡ a)

module _ {A : Type 0} where
  pub All-append : (P : A → Type 0) (xs ys : List A) → All P xs → All P ys → All P (xs ++ ys)
  All-append P [] ys hx hy = hy
  All-append P (x ∷ xs) ys (first, others) hy = (first, All-append P xs ys others hy)

  -- An `any` that is true has a witness, and the other way round.
  pub any_iff : (p : A → Bool) (xs : List A) → (any p xs ≡ true) ↔ Any (λ x. p x ≡ true) xs
  any_iff p [] = (λ h. cc, λ h. absurd h)
  any_iff p (x ∷ xs) = let ih = any_iff p xs in ground arith

  pub any-eq-false : (p : A → Bool) (xs : List A) → any p xs ≡ false → All (λ x. p x ≡ false) xs
  any-eq-false p [] h = tt
  any-eq-false p (x ∷ xs) h = ground (arith, any-eq-false p xs)

  pub In-append : (a : A) (xs ys : List A) → In a (xs ++ ys) ↔ (In a xs ⊎ In a ys)
  In-append a [] ys = (λ h. inr h, λ h. elim h [ inl e ↦ absurd e | inr e ↦ e ])
  In-append a (x ∷ xs) ys = let ih = In-append a xs ys in ground arith

  -- What `filter` keeps.
  pub In-filter :
      (p : A → Bool) (a : A) (xs : List A) → In a (filter p xs) ↔ (In a xs × (p a ≡ true))
  In-filter p a [] = (λ h. absurd h, λ h. h.0)
  In-filter p a (x ∷ xs) = let ih = In-filter p a xs in ground arith

  pub All_of_In : (P : A → Type 0) (xs : List A) → All P xs → (a : A) → In a xs → P a
  All_of_In P [] h a m = absurd m
  All_of_In P (x ∷ xs) h a (inl e) = rw (← e) h.0
  All_of_In P (x ∷ xs) h a (inr m) = All_of_In P xs h.1 a m

  pub is_empty-filter : (p : A → Bool) (xs : List A) → not (is_empty (filter p xs)) ≡ any p xs
  is_empty-filter p [] = refl
  is_empty-filter p (x ∷ xs) = ground (arith, is_empty-filter p xs)

pub All-filter :
    {A : Type 0} (P : A → Type 0) (p : A → Bool) (xs : List A) → All P xs → All P (filter p xs)
All-filter P p [] h = tt
All-filter P p (x ∷ xs) (h, hs) = elim (Bool-cases (p x)) [
  | inl e ↦ rw e (h, All-filter P p xs hs)
  | inr e ↦ rw e (All-filter P p xs hs)
]

pub All-reverse_aux :
    {A : Type 0} (P : A → Type 0) (xs ys : List A) → All P xs → All P ys → All P (reverse_aux xs ys)
All-reverse_aux P [] ys hx hy = hy
All-reverse_aux P (x ∷ xs) ys hx hy = All-reverse_aux P xs (x ∷ ys) hx.1 (hx.0, hy)

pub All-map :
    {A B : Type 0} (P : B → Type 0) (f : A → B) (xs : List A)
    → ((x : A) → In x xs → P (f x))
    → All P (map f xs)
All-map P f [] h = tt
All-map P f (x ∷ xs) h = (h x (inl refl), All-map P f xs (λ y m. h y (inr m)))

-- A list that another was put in front of.
pub In-reverse_aux :
    {A : Type 0} (x : A) (xs ys : List A) → In x ys ⊎ In x xs → In x (reverse_aux xs ys)
In-reverse_aux x [] ys (inl m) = m
In-reverse_aux x [] ys (inr m) = absurd m
In-reverse_aux x (y ∷ xs) ys (inl m) = In-reverse_aux x xs (y ∷ ys) (inl (inr m))
In-reverse_aux x (y ∷ xs) ys (inr (inl e)) = In-reverse_aux x xs (y ∷ ys) (inl (inl e))
In-reverse_aux x (y ∷ xs) ys (inr (inr m)) = In-reverse_aux x xs (y ∷ ys) (inr m)
