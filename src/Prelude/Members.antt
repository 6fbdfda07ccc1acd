-- ===== src/Prelude/Members.antt =====
-- Membership in a list, by recursion, and what the list functions keep of it.
use Prim.Native.Nat.{ℕ, zero, suc}
use mathlib.Core.Path.{◌≡◌, refl, sym, subst}
use mathlib.Core.Bool.{Bool, true}
use mathlib.Core.Logic.{inl, inr}
use mathlib.Core.List.{List, [], ◌∷◌}
use mathlib.Core.Option.{some}
use native.Mathlib.Omega.{arith}
use progo_a2a.Prelude.Tests.{Bool-cases}
use progo_a2a.Prelude.Lists.{All, any, find, keep, take}

pub data In {ℓ} {A : Type ℓ} (a : A) : List A → Type ℓ where
  here : {x : A} {xs : List A} → a ≡ x → In a (x ∷ xs)
  there : {x : A} {xs : List A} → In a xs → In a (x ∷ xs)

module _ {ℓ} {A : Type ℓ} where
  pub In-All {κ} : (P : A → Type κ) (xs : List A) (a : A) → All P xs → In a xs → P a
  In-All P [] a h i = elim i [ ]
  In-All P (x ∷ xs) a h (here e) = subst P (sym e) h.0
  In-All P (x ∷ xs) a h (there i) = In-All P xs a h.1 i

  pub All-of-In {κ} : (P : A → Type κ) (xs : List A) → ((a : A) → In a xs → P a) → All P xs
  All-of-In P [] h = tt
  All-of-In P (x ∷ xs) h = (h x (here refl), All-of-In P xs (λ a i. h a (there i)))

  pub any-In : (p : A → Bool) (xs : List A) → any p xs ≡ true → (a : A) × In a xs × (p a ≡ true)
  any-In p [] h = absurd (ground arith)
  any-In p (x ∷ xs) h = elim (Bool-cases (p x)) [
    | inl e ↦ (x, here refl, e)
    | inr e ↦ let (a, i, q) = any-In p xs (ground arith) in (a, there i, q)
  ]

  pub In-any : (p : A → Bool) (xs : List A) (a : A) → In a xs → p a ≡ true → any p xs ≡ true
  In-any p [] a i h = elim i [ ]
  In-any p (x ∷ xs) a (here e) h = let q : p x ≡ true = subst (λ y. p y ≡ true) e h in ground arith
  In-any p (x ∷ xs) a (there i) h = ground (arith, In-any p xs a i h)

  pub In-take : (n : ℕ) (xs : List A) (a : A) → In a (take n xs) → In a xs
  In-take zero xs a i = elim i [ ]
  In-take (suc n) [] a i = i
  In-take (suc n) (x ∷ xs) a (here e) = here e
  In-take (suc n) (x ∷ xs) a (there i) = there (In-take n xs a i)

  pub In-keep : (p : A → Bool) (xs : List A) (a : A) → In a (keep p xs) → In a xs × (p a ≡ true)
  In-keep p [] a i = elim i [ ]
  In-keep p (x ∷ xs) a i = elim (Bool-cases (p x)) [
    | inl e ↦ kept e (rw e at i) (In-keep p xs a)
    | inr e ↦ let (j, q) = In-keep p xs a (rw e at i) in (there j, q)
  ]
    where
      kept :
          p x ≡ true
          → In a (x ∷ keep p xs)
          → (In a (keep p xs) → In a xs × (p a ≡ true))
          → In a (x ∷ xs) × (p a ≡ true)
      kept e (here q) ih = (here q, subst (λ y. p y ≡ true) (sym q) e)
      kept e (there j) ih = let (k, q) = ih j in (there k, q)

  pub find-In : (p : A → Bool) (xs : List A) (a : A) → find p xs ≡ some a → In a xs × (p a ≡ true)
  find-In p [] a h = absurd (ground arith)
  find-In p (x ∷ xs) a h = elim (Bool-cases (p x)) [
    | inl e ↦ (here (ground arith), ground arith)
    | inr e ↦ let (j, q) = find-In p xs a (ground arith) in (there j, q)
  ]
