-- ===== src/Prelude/Decimal.antt =====
-- Reading a printed number back.
use Prim.Native.Nat.{ℕ, zero, suc, ◌+◌, ◌-◌, ◌*◌, ◌/◌, ◌%◌, ◌<◌}
use Prim.Native.String.{String}
use mathlib.Core.Path.{◌≡◌, refl, ap, ◌∙◌}
use mathlib.Core.Bool.{Bool, true, false, ◌&&◌}
use mathlib.Core.Logic.{inl, inr}
use mathlib.Core.List.{List, [], ◌∷◌, ◌++◌}
use mathlib.Core.List.{append_assoc}
use video_encoder_service.Prelude.Lists.{All, All-append}
use native.Mathlib.Omega.{arith}
use video_encoder_service.Prelude.Tests.{ltb, leb, ◌==◌, if◌then◌else◌, Bool-cases, ltb→lt}
use video_encoder_service.Prelude.Text.{
  str_append, codes, codes-append, digit, decimal_loop, decimal,
}

abbrev pub is_digit : ℕ → Bool
is_digit c = leb b'0' c && leb c b'9'

-- The number at the front of a text, and what follows it.
pub number : ℕ → List ℕ → ℕ × List ℕ
number acc [] = (acc, [])
number acc (c ∷ s) =
    let more = number (acc * 10 + (c - b'0')) s in if is_digit c then more else (acc, c ∷ s)

codes-digit : (d : ℕ) → d < 10 → codes (digit d) ≡ (b'0' + d) ∷ []
codes-digit zero h = refl
codes-digit (suc zero) h = refl
codes-digit (suc (suc zero)) h = refl
codes-digit (suc (suc (suc zero))) h = refl
codes-digit (suc (suc (suc (suc zero)))) h = refl
codes-digit (suc (suc (suc (suc (suc zero))))) h = refl
codes-digit (suc (suc (suc (suc (suc (suc zero)))))) h = refl
codes-digit (suc (suc (suc (suc (suc (suc (suc zero))))))) h = refl
codes-digit (suc (suc (suc (suc (suc (suc (suc (suc zero)))))))) h = refl
codes-digit (suc (suc (suc (suc (suc (suc (suc (suc (suc zero))))))))) h = refl
codes-digit (suc (suc (suc (suc (suc (suc (suc (suc (suc (suc d)))))))))) h = absurd (omega arith)

number-digit :
    (acc d : ℕ) (s : List ℕ) → d < 10 → number acc (codes (digit d) ++ s) ≡ number (acc * 10 + d) s
unfolding number
number-digit acc d s h =
    let on : is_digit (b'0' + d) ≡ true = ground arith in
    let value : b'0' + d - b'0' ≡ d = omega arith in rw (codes-digit d h) (rw on (rw value refl))

number-loop :
    (fuel n : ℕ) (rest : String) (s : List ℕ)
    → n < fuel
    → number 0 (codes (decimal_loop fuel n rest) ++ s) ≡ number n (codes rest ++ s)
unfolding decimal_loop
number-loop zero n rest s h = elim h [ ]
number-loop (suc fuel) n rest s h = elim (Bool-cases (ltb n 10)) [
  | inl small ↦
      let alone : 0 * 10 + n ≡ n = omega arith in
      rw small (
        rw (codes-append (digit n) rest) (
          rw (append_assoc (codes (digit n)) (codes rest) s) (
            number-digit 0 n (codes rest ++ s) (ltb→lt n 10 small)
            ∙ ap (λ (k : ℕ). number k (codes rest ++ s)) alone)))
  | inr big ↦
      let more = str_append (digit (n % 10)) rest in
      let whole : n / 10 * 10 + n % 10 ≡ n = omega arith in
      rw big (
        number-loop fuel (n / 10) more s (ground arith)
        ∙ rw (codes-append (digit (n % 10)) rest) (
            rw (append_assoc (codes (digit (n % 10))) (codes rest) s) (
              number-digit (n / 10) (n % 10) (codes rest ++ s) (omega arith)
              ∙ ap (λ (k : ℕ). number k (codes rest ++ s)) whole)))
]

-- A printed number that no digit follows is read back.
pub number-decimal :
    (n c : ℕ) (s : List ℕ) → is_digit c ≡ false → number 0 (codes (decimal n) ++ c ∷ s) ≡ (n, c ∷ s)
unfolding decimal number
number-decimal n c s end = number-loop (suc n) n "" (c ∷ s) (omega arith) ∙ rw end refl

-- A text of one line.
abbrev pub Plain : List ℕ → Type 0
Plain s = All (λ c. (c == 10) ≡ false) s

pub Plain-append : (s t : List ℕ) → Plain s → Plain t → Plain (s ++ t)
Plain-append s t = All-append (λ c. (c == 10) ≡ false) s t

Plain-digit : (d : ℕ) → d < 10 → Plain (codes (digit d))
Plain-digit d h = rw (codes-digit d h) (ground arith, tt)

Plain-loop :
    (fuel n : ℕ) (rest : String) → Plain (codes rest) → Plain (codes (decimal_loop fuel n rest))
unfolding decimal_loop
Plain-loop zero n rest h = h
Plain-loop (suc fuel) n rest h = elim (Bool-cases (ltb n 10)) [
  | inl small ↦
      rw small
        (rw (codes-append (digit n) rest) (Plain-append _ _ (Plain-digit n (ltb→lt n 10 small)) h))
  | inr big ↦ rw big (
      Plain-loop fuel (n / 10) (str_append (digit (n % 10)) rest) (
        rw (codes-append (digit (n % 10)) rest)
          (Plain-append _ _ (Plain-digit (n % 10) (omega arith)) h)))
]

pub Plain-decimal : (n : ℕ) → Plain (codes (decimal n))
unfolding decimal
Plain-decimal n = Plain-loop (suc n) n "" tt
