-- ===== src/Common/Texts/Numbers.antt =====
-- `str` of a natural number, and the number that such a text stands for.
use Prim.Native.Nat.{ℕ, zero, suc, ◌+◌, ◌-◌, ◌*◌, ◌/◌, ◌%◌, ◌<◌}
use Prim.Native.String.{String, ◌++◌ as ◌<>◌}
use mathlib.Core.Path.{◌≡◌, refl, sym, ap, ◌∙◌}
use mathlib.Core.Logic.{inl, inr}
use mathlib.Core.List.{List, [], ◌∷◌}
use native.Mathlib.Omega.{arith}
use thinking_feature_flag_se.Common.Tests.{ltb, ◌==◌, nat_eq, if◌then◌else◌, Bool-cases}
use thinking_feature_flag_se.Common.Texts.{codes, codes-append}

digit_text : ℕ → String
digit_text d =
    if d == 0
    then "0"
    else if d == 1
    then "1"
    else if d == 2
    then "2"
    else if d == 3
    then "3"
    else if d == 4
    then "4"
    else if d == 5
    then "5"
    else if d == 6
    then "6"
    else if d == 7
    then "7"
    else if d == 8
    then "8"
    else "9"

-- The digits of a number, before what is printed already.
number_from : ℕ → ℕ → String → String
unfolding digit_text
number_from zero n printed = printed
number_from (suc fuel) n printed =
    let printed' = digit_text (n % 10) <> printed in
    let more = number_from fuel (n / 10) printed' in if ltb n 10 then printed' else more

unfoldable pub number_text : ℕ → String
unfolding number_from
number_text n = number_from (suc n) n ""

-- What decimal digits stand for, behind the digits of a number.
abbrev pub read_from : ℕ → List ℕ → ℕ
read_from acc [] = acc
read_from acc (c ∷ digits) = read_from (acc * 10 + (c - b'0')) digits

codes-digit_text : (d : ℕ) → d < 10 → codes (digit_text d) ≡ (b'0' + d) ∷ []
unfolding digit_text
codes-digit_text zero h = refl
codes-digit_text (suc zero) h = refl
codes-digit_text (suc (suc zero)) h = refl
codes-digit_text (suc (suc (suc zero))) h = refl
codes-digit_text (suc (suc (suc (suc zero)))) h = refl
codes-digit_text (suc (suc (suc (suc (suc zero))))) h = refl
codes-digit_text (suc (suc (suc (suc (suc (suc zero)))))) h = refl
codes-digit_text (suc (suc (suc (suc (suc (suc (suc zero))))))) h = refl
codes-digit_text (suc (suc (suc (suc (suc (suc (suc (suc zero)))))))) h = refl
codes-digit_text (suc (suc (suc (suc (suc (suc (suc (suc (suc zero))))))))) h = refl
codes-digit_text (suc (suc (suc (suc (suc (suc (suc (suc (suc (suc d)))))))))) h =
    absurd (omega arith)

read-digit_text :
    (d acc : ℕ) (printed : String)
    → d < 10
    → read_from acc (codes (digit_text d <> printed)) ≡ read_from (acc * 10 + d) (codes printed)
read-digit_text d acc printed h =
    rw (codes-append (digit_text d) printed, codes-digit_text d h)
      (ap (λ n. read_from n (codes printed)) (omega arith))

read-number_from :
    (fuel n : ℕ) (printed : String)
    → n < fuel
    → read_from 0 (codes (number_from fuel n printed)) ≡ read_from n (codes printed)
unfolding number_from
read-number_from zero n printed h = absurd (omega arith)
read-number_from (suc fuel) n printed h = elim (Bool-cases (ltb n 10)) [
  | inl last ↦ rw last (
      read-digit_text (n % 10) 0 printed (omega arith)
      ∙ ap (λ m. read_from m (codes printed)) (ground arith))
  | inr more ↦ rw more (
      read-number_from fuel (n / 10) (digit_text (n % 10) <> printed) (ground arith)
      ∙ read-digit_text (n % 10) (n / 10) printed (omega arith)
      ∙ ap (λ m. read_from m (codes printed)) (omega arith))
]

-- The fuel of the printing is enough: the text of a number has all its digits, and reads back as the
-- number.
read-number_text : (n : ℕ) → read_from 0 (codes (number_text n)) ≡ n
unfolding number_text
read-number_text n = read-number_from (suc n) n "" (omega arith)

pub number_text-injective : (m n : ℕ) → number_text m ≡ number_text n → m ≡ n
number_text-injective m n e =
    sym (read-number_text m) ∙ ap (λ s. read_from 0 (codes s)) e ∙ read-number_text n

number_text_test : number_text 120 ≡ "120"
unfolding number_text
number_text_test = refl
