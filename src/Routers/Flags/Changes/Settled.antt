-- ===== src/Routers/Flags/Changes/Settled.antt =====
-- `_drop_unchanged` after its own changes are made (app/routers/flags.py): nothing is left to change.
use thinking_feature_flag_se.Common.{
  ℕ, suc, ◌≤◌, ◌≡◌, ◌≢◌, refl, sym, ◌∙◌, ap, subst, Bool, false, none, some, List, [], ◌∷◌, ◌++◌,
  arith, select, Bool-cases, inl, inr,
}
use thinking_feature_flag_se.Schemas.{Field, unset, sent}
use thinking_feature_flag_se.Routers.Flags.Changes.{drop_unchanged, when_sent}

-- A dict of changes to an entity: `key` tells the keys of the dict apart.
module _ {E C : Type 0} (differs : E → C → Bool) (assign : E → C → E) (key : C → ℕ) where
  -- The keys ascend, from `n` on.
  abbrev pub KeysFrom : ℕ → List C → Type 0
  KeysFrom n [] = Unit
  KeysFrom n (c ∷ changes) = (n ≤ key c) × KeysFrom (suc (key c)) changes

  pub KeysFrom-weaken :
      {n m : ℕ} (changes : List C) → n ≤ m → KeysFrom m changes → KeysFrom n changes
  KeysFrom-weaken [] le h = tt
  KeysFrom-weaken (c ∷ changes) le h = (omega (arith, le, h.0), h.1)

  pub KeysFrom-when_sent :
      {A : Type 0} (n : ℕ) (change : A → C) (field : Field A) (rest : List C)
      → ((a : A) → key (change a) ≡ n)
      → KeysFrom (suc n) rest
      → KeysFrom n (when_sent change field ++ rest)
  KeysFrom-when_sent n change unset rest same h = KeysFrom-weaken rest (omega arith) h
  KeysFrom-when_sent n change (sent none) rest same h = KeysFrom-weaken rest (omega arith) h
  KeysFrom-when_sent n change (sent (some a)) rest same h = (omega (arith, same a), rw (same a) h)

  -- The loop of `setattr` over the dict.
  abbrev pub assign_all : E → List C → E
  assign_all e [] = e
  assign_all e (c ∷ changes) = assign_all (assign e c) changes

  module _ (differs-assign : (e : E) (c : C) → differs (assign e c) c ≡ false)
      (differs_elsewhere : (e : E) (c d : C)
        → key c ≢ key d
        → differs (assign e c) d ≡ differs e d) where
    -- Assignments under later keys do not touch `c`.
    differs-assign_all :
        (e : E) (c : C) (n : ℕ) (changes : List C) (keep : C → Bool)
        → key c ≢ n
        → key c ≤ n
        → KeysFrom n changes
        → differs (assign_all e (select keep changes)) c ≡ differs e c
    differs-assign_all e c n [] keep apart le h = refl
    differs-assign_all e c n (d ∷ changes) keep apart le h =
        let after = λ (e' : E).
          differs-assign_all e' c (suc (key d)) changes keep (λ same. omega (arith, same, le, h.0))
            (omega (arith, le, h.0)) h.1 in
        elim (Bool-cases (keep d)) [
          | inl kept ↦ rw kept (
              after (assign e d)
              ∙ differs_elsewhere e d c (λ same. apart (omega (arith, same, le, h.0))))
          | inr dropped ↦ rw dropped (after e)
        ]

    -- What differs under later keys is the same before and after an assignment.
    select-assign :
        (e : E) (c : C) (n : ℕ) (changes : List C)
        → suc (key c) ≤ n
        → KeysFrom n changes
        → select (differs (assign e c)) changes ≡ select (differs e) changes
    select-assign e c n [] le h = refl
    select-assign e c n (d ∷ changes) le h =
        rw
          (
            differs_elsewhere e c d (λ same. omega (arith, same, le, h.0)),
            select-assign e c (suc (key d)) changes (omega (arith, le, h.0)) h.1,
          )
          refl

    -- What is left of `c ∷ changes` once `kept` is assigned.
    abbrev Settles : E → List C → List C → Type 0
    Settles e changes kept = select (differs (assign_all e kept)) changes ≡ []

    Settles-cons :
        (e : E) (c : C) (changes kept : List C)
        → differs (assign_all e kept) c ≡ false
        → Settles e changes kept
        → Settles e (c ∷ changes) kept
    Settles-cons e c changes kept same h = rw same h

    select-Settles :
        (e : E) (n : ℕ) (changes : List C)
        → KeysFrom n changes
        → Settles e changes (select (differs e) changes)
    select-Settles e n [] h = refl
    select-Settles e n (c ∷ changes) h = elim (Bool-cases (differs e c)) [
      | inr same ↦
          let kept = select (differs e) changes in
          let skipped : select (differs e) (c ∷ changes) ≡ kept = rw same refl in
          subst (Settles e (c ∷ changes)) (sym skipped) (
            Settles-cons e c changes kept
              (differs-assign_all e c (suc (key c)) changes (differs e) (λ s. omega (arith, s))
                  (omega arith) h.1
                ∙ same)
              (select-Settles e (suc (key c)) changes h.1))
      | inl changed ↦
          let e' = assign e c in
          let kept = select (differs e') changes in
          let taken : select (differs e) (c ∷ changes) ≡ c ∷ kept =
            rw changed
              (ap (λ l. c ∷ l) (sym (select-assign e c (suc (key c)) changes (omega arith) h.1))) in
          subst (Settles e (c ∷ changes)) (sym taken) (
            Settles-cons e c changes (c ∷ kept)
              (differs-assign_all e' c (suc (key c)) changes (differs e') (λ s. omega (arith, s))
                  (omega arith) h.1
                ∙ differs-assign e c)
              (select-Settles e' (suc (key c)) changes h.1))
    ]

    -- Once what differs is assigned, nothing does.
    pub drop_unchanged-assign_all :
        (e : E) (n : ℕ) (changes : List C)
        → KeysFrom n changes
        → drop_unchanged differs (assign_all e (drop_unchanged differs e changes)) changes ≡ []
    unfolding drop_unchanged
    drop_unchanged-assign_all = select-Settles
