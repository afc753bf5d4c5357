-- ===== src/Common/Sorting.antt =====
-- Sorting by insertion, as ORDER BY and `sorted` order rows and numbers: rows that are equal in the
-- order keep no place of their own.
use Prim.Native.Nat.{ℕ, zero, suc}
use mathlib.Core.Path.{◌≡◌, refl}
use mathlib.Core.Bool.{Bool, true, false, not}
use mathlib.Core.Logic.{◌⊎◌, inl, inr}
use mathlib.Core.List.{List, [], ◌∷◌, ◌++◌, Perm, perm_middle}
use mathlib.Core.List.Perm
use native.Mathlib.Omega.{arith}
use thinking_feature_flag_se.Common.Tests.{if◌then◌else◌, if-either, Bool-cases}
use thinking_feature_flag_se.Common.Lists.{length, take, select, select-kept, All, All-map}

module _ {A : Type 0} (before : A → A → Bool) where
  -- `before x y` says that `x` need not come after `y`.
  insert_by : A → List A → List A
  insert_by x [] = x ∷ []
  insert_by x (y ∷ ys) = if before x y then x ∷ y ∷ ys else y ∷ insert_by x ys

  unfoldable pub order_by : List A → List A
  unfolding insert_by
  order_by [] = []
  order_by (x ∷ xs) = insert_by x (order_by xs)

  insert_by-perm : (x : A) (ys : List A) → Perm (insert_by x ys) (x ∷ ys)
  unfolding insert_by
  insert_by-perm x [] = Perm.refl (x ∷ [])
  insert_by-perm x (y ∷ ys) =
      if-either (λ l. Perm l (x ∷ y ∷ ys)) (before x y) (Perm.refl (x ∷ y ∷ ys))
        (Perm.trans (Perm.cons y (insert_by-perm x ys)) (Perm.swap x y ys))

  -- Ordering keeps every row, as often as it is there.
  pub order_by-perm : (xs : List A) → Perm (order_by xs) xs
  unfolding order_by
  order_by-perm [] = Perm.refl []
  order_by-perm (x ∷ xs) =
      Perm.trans (insert_by-perm x (order_by xs)) (Perm.cons x (order_by-perm xs))

  All-insert_by : (P : A → Type 0) (x : A) (ys : List A) → P x → All P ys → All P (insert_by x ys)
  unfolding insert_by
  All-insert_by P x [] hx h = (hx, tt)
  All-insert_by P x (y ∷ ys) hx h =
      if-either (All P) (before x y) (hx, h) (h.0, All-insert_by P x ys hx h.1)

  pub All-order_by : (P : A → Type 0) (xs : List A) → All P xs → All P (order_by xs)
  unfolding order_by
  All-order_by P [] h = tt
  All-order_by P (x ∷ xs) h = All-insert_by P x (order_by xs) h.0 (All-order_by P xs h.1)

module _ {A : Type 0} (before : A → A → Bool) where
  length-insert_by : (x : A) (ys : List A) → length (insert_by before x ys) ≡ suc (length ys)
  unfolding insert_by
  length-insert_by x [] = refl
  length-insert_by x (y ∷ ys) =
      let rest = length-insert_by x ys in
      elim (Bool-cases (before x y)) [
        | inl first ↦ rw first refl
        | inr later ↦ rw later (ground (arith, rest))
      ]

  -- Ordering keeps the number of rows,
  pub length-order_by : (xs : List A) → length (order_by before xs) ≡ length xs
  unfolding order_by
  length-order_by [] = refl
  length-order_by (x ∷ xs) =
      let inserted = length-insert_by x (order_by before xs) in
      let rest = length-order_by xs in omega arith

  length-select-insert_by :
      (p : A → Bool) (x : A) (ys : List A)
      → length (select p (insert_by before x ys)) ≡ length (select p (x ∷ ys))
  unfolding insert_by
  length-select-insert_by p x [] = refl
  length-select-insert_by p x (y ∷ ys) =
      let rest = length-select-insert_by p x ys in
      elim (Bool-cases (before x y)) [
        | inl first ↦ rw first refl
        | inr later ↦ rw later (ground (arith, rest))
      ]

  -- and the number of those that pass a test.
  pub length-select-order_by :
      (p : A → Bool) (xs : List A) → length (select p (order_by before xs)) ≡ length (select p xs)
  unfolding order_by
  length-select-order_by p [] = refl
  length-select-order_by p (x ∷ xs) =
      let inserted = length-select-insert_by p x (order_by before xs) in
      let rest = length-select-order_by p xs in ground (arith, inserted, rest)

-- Each element stands in a relation to all that follow it.
abbrev pub Ordered : {A : Type 0} → (A → A → Type 0) → List A → Type 0
Ordered R [] = Unit
Ordered R (x ∷ xs) = All (R x) xs × Ordered R xs

module _ {A : Type 0} (before : A → A → Bool) (R : A → A → Type 0)
    (yes : (x y : A) → before x y ≡ true → R x y) (no : (x y : A) → before x y ≡ false → R y x)
    (chain : (x y z : A) → R x y → R y z → R x z) where
  insert_by-Ordered : (x : A) (ys : List A) → Ordered R ys → Ordered R (insert_by before x ys)
  unfolding insert_by
  insert_by-Ordered x [] h = (tt, tt)
  insert_by-Ordered x (y ∷ ys) h = elim (Bool-cases (before x y)) [
    | inl first ↦ rw first ((yes x y first, All-map (λ z. chain x y z (yes x y first)) ys h.0), h)
    | inr later ↦
        rw later (All-insert_by before (R y) x ys (no x y later) h.0, insert_by-Ordered x ys h.1)
  ]

  pub order_by-Ordered : (xs : List A) → Ordered R (order_by before xs)
  unfolding order_by
  order_by-Ordered [] = tt
  order_by-Ordered (x ∷ xs) = insert_by-Ordered x (order_by before xs) (order_by-Ordered xs)

-- What `take` leaves behind, and how much it takes.
pub take-rest {ℓ} :
    {A : Type ℓ} (n : ℕ) (xs : List A)
    → (rest : List A) × (take n xs ++ rest ≡ xs) × ((rest ≡ []) ⊎ (length (take n xs) ≡ n))
take-rest zero xs = (xs, refl, inr refl)
take-rest (suc n) [] = ([], refl, inl refl)
take-rest (suc n) (x ∷ xs) =
    let (rest, whole, full) = take-rest n xs in
    (rest, cc, elim full [ inl none_left ↦ inl none_left | inr counted ↦ inr (cc) ])

-- What a test keeps and what it drops are the whole list.
pub select-perm {ℓ} :
    {A : Type ℓ} (p : A → Bool) (xs : List A) → Perm (select p xs ++ select (λ x. not (p x)) xs) xs
select-perm p [] = Perm.refl []
select-perm p (x ∷ xs) =
    let rest = select-perm p xs in
    elim (Bool-cases (p x)) [
      | inl kept ↦ rw kept (Perm.cons x rest)
      | inr dropped ↦
          rw dropped
            (Perm.trans (perm_middle (select p xs) (select (λ y. not (p y)) xs)) (Perm.cons x rest))
    ]

-- `found` has all the elements of a list with a property, each as often as the list has it, in an order.
pub record IsListing {A : Type 0} (P : A → Type 0) (R : A → A → Type 0) (found all : List A)
    : Type 0 where
  pub others : List A
  pub complete : Perm (found ++ others) all
  pub listed : All P found
  pub unlisted : All (λ x. ¬ P x) others
  pub in_order : Ordered R found

module _ {A : Type 0} (before : A → A → Bool) (R : A → A → Type 0)
    (yes : (x y : A) → before x y ≡ true → R x y) (no : (x y : A) → before x y ≡ false → R y x)
    (chain : (x y z : A) → R x y → R y z → R x z) (keep : A → Bool) (P : A → Type 0)
    (kept : (x : A) → keep x ≡ true → P x) (dropped : (x : A) → not (keep x) ≡ true → ¬ P x) where
  pub order_by-IsListing : (xs : List A) → IsListing P R (order_by before (select keep xs)) xs
  order_by-IsListing xs =
      let others = select (λ x. not (keep x)) xs in
      record {
        others = others;
        complete =
            Perm.trans (Perm.append_right others (order_by-perm before (select keep xs)))
              (select-perm keep xs);
        listed =
            All-order_by before P (select keep xs)
              (All-map kept (select keep xs) (select-kept keep xs));
        unlisted = All-map dropped others (select-kept (λ x. not (keep x)) xs);
        in_order = order_by-Ordered before R yes no chain (select keep xs);
      }
