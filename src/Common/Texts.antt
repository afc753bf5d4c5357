-- ===== src/Common/Texts.antt =====
-- Text as Python's `str` methods read it: a list of code points.
pub mod Search
pub mod Numbers
use Prim.Native.Char.{code}
use text.Mathlib.TextEquality.{Char-path}
use text.Mathlib.TextLemmas.{nil-append, cons-append}
use thinking_feature_flag_se.Common.Tests.{◌==◌, nat_eq}
use Prim.Native.Nat.{ℕ}
use Prim.Native.String.{String, ◌++◌ as ◌<>◌}
use mathlib.Core.Path.{◌≡◌, refl, sym, ap, ap₂, ◌∙◌}
use mathlib.Core.Logic.{◌≢◌}
use mathlib.Core.Bool.{Bool, true, false, ◌&&◌, ◌||◌}
use mathlib.Core.List.{List, [], ◌∷◌, ◌++◌, reverse}

abbrev pub codes : String → List ℕ
codes String.[] = []
codes (String.◌∷◌ c s) = code c ∷ codes s

-- `text.startswith(part)`
unfoldable pub starts_with : List ℕ → List ℕ → Bool
starts_with text [] = true
starts_with [] (c ∷ part) = false
starts_with (d ∷ text) (c ∷ part) = d == c && starts_with text part

-- `part in text`
pub contains : List ℕ → List ℕ → Bool
unfolding starts_with
contains [] part = starts_with [] part
contains (d ∷ text) part = starts_with (d ∷ text) part || contains text part

-- `text.endswith(part)`
pub ends_with : List ℕ → List ℕ → Bool
unfolding starts_with
ends_with text part = starts_with (reverse text) (reverse part)

pub codes-append : (s t : String) → codes (s <> t) ≡ codes s ++ codes t
codes-append String.[] t = rw nil-append
codes-append (String.◌∷◌ c s) t = rw cons-append (ap (λ r. code c ∷ r) (codes-append s t))

pub codes-injective : (s t : String) → codes s ≡ codes t → s ≡ t
codes-injective String.[] String.[] e = refl
codes-injective String.[] (String.◌∷◌ d t) e = cc
codes-injective (String.◌∷◌ c s) String.[] e = cc
codes-injective (String.◌∷◌ c s) (String.◌∷◌ d t) e =
    ap₂ String.◌∷◌ (Char-path c d (cc)) (codes-injective s t (cc))

-- A text in which a code point does not occur.
abbrev pub Lacks : ℕ → List ℕ → Type 0
Lacks x [] = Unit
Lacks x (c ∷ s) = (c ≢ x) × Lacks x s

-- Two texts that end at the first separator are cut apart in one way only.
pub separator_cuts :
    (x : ℕ) (s s' t t' : List ℕ)
    → Lacks x s
    → Lacks x s'
    → s ++ x ∷ t ≡ s' ++ x ∷ t'
    → (s ≡ s') × (t ≡ t')
separator_cuts x [] [] t t' h h' e = (refl, cc)
separator_cuts x [] (c ∷ s') t t' h h' e = absurd (h'.0 (cc))
separator_cuts x (c ∷ s) [] t t' h h' e = absurd (h.0 (cc))
separator_cuts x (c ∷ s) (d ∷ s') t t' h h' e =
    let rest = separator_cuts x s s' t t' h.1 h'.1 (cc) in (cc (rest.0), rest.1)

-- The same for texts that are joined by a colon, as `f"{s}:{t}"` joins them.
pub colon_cuts :
    (s s' t t' : String)
    → Lacks b':' (codes s)
    → Lacks b':' (codes s')
    → s <> ":" <> t ≡ s' <> ":" <> t'
    → (s ≡ s') × (t ≡ t')
colon_cuts s s' t t' h h' e =
    let joined : codes s ++ b':' ∷ codes t ≡ codes s' ++ b':' ∷ codes t' =
      sym (codes-append s (":" <> t) ∙ ap (λ r. codes s ++ r) (codes-append ":" t))
      ∙ ap codes e
      ∙ codes-append s' (":" <> t')
      ∙ ap (λ r. codes s' ++ r) (codes-append ":" t') in
    let cut = separator_cuts b':' (codes s) (codes s') (codes t) (codes t') h h' joined in
    (codes-injective s s' cut.0, codes-injective t t' cut.1)

pub Lacks-append : (x : ℕ) (s t : List ℕ) → Lacks x s → Lacks x t → Lacks x (s ++ t)
Lacks-append x [] t h h' = h'
Lacks-append x (c ∷ s) t h h' = (h.0, Lacks-append x s t h.1 h')
