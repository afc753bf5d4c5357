-- ===== src/Common/Lists.antt =====
-- Lists measured by native numbers, predicates on all elements, and Boolean searches.
use Prim.Native.Nat.{ℕ, zero, suc, ◌+◌, ◌≤◌}
use mathlib.Core.Path.{◌≡◌, subst}
use mathlib.Core.Bool.{Bool, true, false, ◌&&◌, ◌||◌}
use mathlib.Core.Option.{Option, none, some}
use mathlib.Core.List.{List, [], ◌∷◌, ◌++◌}
use native.Mathlib.Omega.{arith}
use thinking_feature_flag_se.Common.Tests.{if◌then◌else◌, Bool-cases}
use mathlib.Core.Logic.{inl, inr}

module _ {ℓ} {A : Type ℓ} where
  abbrev pub length : List A → ℕ
  length [] = 0
  length (x ∷ xs) = suc (length xs)

  abbrev pub take : ℕ → List A → List A
  take zero xs = []
  take (suc n) [] = []
  take (suc n) (x ∷ xs) = x ∷ take n xs

  pub length-append : (xs ys : List A) → length (xs ++ ys) ≡ length xs + length ys
  length-append [] ys = omega arith
  length-append (x ∷ xs) ys = omega (arith, length-append xs ys)

  pub length-take_le : (n : ℕ) (xs : List A) → length (take n xs) ≤ n
  length-take_le zero xs = omega arith
  length-take_le (suc n) [] = omega arith
  length-take_le (suc n) (x ∷ xs) = omega (arith, length-take_le n xs)

  -- `any(p(x) for x in xs)`
  abbrev pub any : (A → Bool) → List A → Bool
  any p [] = false
  any p (x ∷ xs) = p x || any p xs

  -- `all(p(x) for x in xs)`
  abbrev pub all : (A → Bool) → List A → Bool
  all p [] = true
  all p (x ∷ xs) = p x && all p xs

  -- `[x for x in xs if p(x)]`, also the rows that a `where` clause keeps
  abbrev pub select : (A → Bool) → List A → List A
  select p [] = []
  select p (x ∷ xs) = if p x then x ∷ select p xs else select p xs

  -- `scalar_one_or_none`, and the loops that return at the first hit
  abbrev pub first : (A → Bool) → List A → Option A
  first p [] = none
  first p (x ∷ xs) = if p x then some x else first p xs

-- A predicate on all elements, by recursion, so that it computes to a tuple.
abbrev pub All {ℓ κ} : {A : Type ℓ} → (A → Type κ) → List A → Type κ
All P [] = Unit
All P (x ∷ xs) = P x × All P xs

-- An element, with the place where it stands.
pub data In {ℓ} {A : Type ℓ} (a : A) : List A → Type ℓ where
  here : {xs : List A} → In a (a ∷ xs)
  there : {x : A} {xs : List A} → In a xs → In a (x ∷ xs)

module _ {ℓ κ} {A : Type ℓ} (P : A → Type κ) where
  pub All-append : (xs ys : List A) → All P xs → All P ys → All P (xs ++ ys)
  All-append [] ys hx hy = hy
  All-append (x ∷ xs) ys hx hy = (hx.0, All-append xs ys hx.1 hy)

  pub All-at : {a : A} {xs : List A} → In a xs → All P xs → P a
  All-at here h = h.0
  All-at (there m) h = All-at m h.1

pub All-map {ℓ κ ι} :
    {A : Type ℓ} {P : A → Type κ} {Q : A → Type ι}
    → ((a : A) → P a → Q a)
    → (xs : List A) → All P xs
    → All Q xs
All-map f [] h = tt
All-map f (x ∷ xs) h = (f x h.0, All-map f xs h.1)

-- What a search finds is in the list and passes the test.
pub first-In {ℓ} :
    {A : Type ℓ} (test : A → Bool) (xs : List A) {x : A}
    → first test xs ≡ some x
    → In x xs × (test x ≡ true)
first-In test [] e = cc
first-In test (y ∷ xs) {x} e = elim (Bool-cases (test y)) [
  | inl hit ↦
      let same : y ≡ x = ground arith in
      subst (λ z. In z (y ∷ xs) × (test z ≡ true)) same (here, hit)
  | inr missed ↦ let (place, hit) = first-In test xs {x = x} (ground arith) in (there place, hit)
]

module _ {ℓ κ} {A : Type ℓ} (P : A → Type κ) (keep : A → Bool) where
  pub All-select : (xs : List A) → All P xs → All P (select keep xs)
  All-select [] h = tt
  All-select (x ∷ xs) h = elim (Bool-cases (keep x)) [
    | inl kept ↦ rw kept (h.0, All-select xs h.1)
    | inr dropped ↦ rw dropped (All-select xs h.1)
  ]

-- What a selection keeps has passed its test.
pub select-kept {ℓ} :
    {A : Type ℓ} (keep : A → Bool) (xs : List A) → All (λ x. keep x ≡ true) (select keep xs)
select-kept keep [] = tt
select-kept keep (x ∷ xs) = elim (Bool-cases (keep x)) [
  | inl kept ↦ rw kept (kept, select-kept keep xs)
  | inr dropped ↦ rw dropped (select-kept keep xs)
]
