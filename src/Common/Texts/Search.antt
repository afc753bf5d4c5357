-- ===== src/Common/Texts/Search.antt =====
-- What the searches in a text find.
use mathlib.Core.List.{reverse, reverse-append, reverse-reverse}
use thinking_feature_flag_se.Common.Tests.{nat_eq, Bool-cases}
use thinking_feature_flag_se.Common.Texts.{starts_with, contains, ends_with}
use Prim.Native.Nat.{ℕ}
use mathlib.Core.Path.{◌≡◌, refl, sym, ap, ap₂, ◌∙◌}
use mathlib.Core.Logic.{◌↔◌, inl, inr}
use mathlib.Core.Bool.{true}
use mathlib.Core.List.{List, [], ◌∷◌, ◌++◌}
use native.Mathlib.Omega.{arith}

starts_with-split :
    (text part : List ℕ) → starts_with text part ≡ true → (rest : List ℕ) × (text ≡ part ++ rest)
unfolding starts_with
starts_with-split text [] h = (text, refl)
starts_with-split [] (c ∷ part) h = cc
starts_with-split (d ∷ text) (c ∷ part) h =
    let (rest, e) = starts_with-split text part (ground arith) in (rest, ap₂ ◌∷◌ (ground arith) e)

split-starts_with : (part rest : List ℕ) → starts_with (part ++ rest) part ≡ true
unfolding starts_with
split-starts_with [] rest = refl
split-starts_with (c ∷ part) rest = ground (arith, split-starts_with part rest)

-- A text starts with a part exactly when it is the part and some rest.
pub starts_with_iff :
    (text part : List ℕ)
    → (starts_with text part ≡ true) ↔ ((rest : List ℕ) × (text ≡ part ++ rest))
starts_with_iff text part =
    (starts_with-split text part, λ (rest, e). rw e (split-starts_with part rest))

contains-split :
    (text part : List ℕ)
    → contains text part ≡ true
    → (before : List ℕ) × (after : List ℕ) × (text ≡ before ++ part ++ after)
unfolding contains
contains-split [] part h = let (rest, e) = starts_with-split [] part h in ([], rest, e)
contains-split (d ∷ text) part h = elim (Bool-cases (starts_with (d ∷ text) part)) [
  | inl now ↦ let (rest, e) = starts_with-split (d ∷ text) part now in ([], rest, e)
  | inr later ↦
      let (before, after, e) = contains-split text part (ground arith) in
      (d ∷ before, after, ap (λ r. d ∷ r) e)
]

contains_start : (text part : List ℕ) → starts_with text part ≡ true → contains text part ≡ true
unfolding contains
contains_start [] part h = h
contains_start (d ∷ text) part h = rw h

split-contains : (before part after : List ℕ) → contains (before ++ part ++ after) part ≡ true
unfolding contains
split-contains [] part after = contains_start (part ++ after) part (split-starts_with part after)
split-contains (d ∷ before) part after = ground (arith, split-contains before part after)

-- A text contains a part exactly when the part stands between two others.
pub contains_iff :
    (text part : List ℕ)
    → (contains text part ≡ true)
      ↔ ((before : List ℕ) × (after : List ℕ) × (text ≡ before ++ part ++ after))
contains_iff text part =
    (contains-split text part, λ (before, after, e). rw e (split-contains before part after))

ends_with-split :
    (text part : List ℕ) → ends_with text part ≡ true → (before : List ℕ) × (text ≡ before ++ part)
unfolding ends_with
ends_with-split text part h =
    let (rest, e) = starts_with-split (reverse text) (reverse part) h in
    (
      reverse rest,
      sym (reverse-reverse text)
          ∙ ap reverse e
          ∙ reverse-append (reverse part) rest
          ∙ ap (λ r. reverse rest ++ r) (reverse-reverse part),
    )

-- A text ends with a part exactly when it is some text and the part.
pub ends_with_iff :
    (text part : List ℕ)
    → (ends_with text part ≡ true) ↔ ((before : List ℕ) × (text ≡ before ++ part))
unfolding ends_with
ends_with_iff text part = (
  ends_with-split text part,
  λ (before, e).
      rw (e, reverse-append before part) (split-starts_with (reverse part) (reverse before)),
)
