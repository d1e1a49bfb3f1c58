-- ===== src/Prelude/Decimal.antt =====
-- Numbers in decimal: `str(n)` of Python, and the value of a run of digits.
use aipy.Prelude.Tests.{ltb, ltb→lt, if◌then◌else◌, ◌==◌, nat_eq, Bool-cases}
use aipy.Prelude.Texts.{is_digit, is_blank}
use Prim.Native.Nat.{ℕ, zero, suc, ◌+◌, ◌-◌, ◌*◌, ◌/◌, ◌%◌, ◌<◌}
use Prim.Native.Char.{Char, code}
use Prim.Native.String.{String}
use mathlib.Core.Path.{◌≡◌, refl, ap, ◌∙◌}
use mathlib.Core.Logic.{inl, inr}
use mathlib.Core.Bool.{Bool, true, false, ◌&&◌}
use mathlib.Core.Option.{Option, none, some}
use native.Mathlib.Omega.{arith}

-- The character of a digit; past 9, where no caller goes, the last.
pub digit : ℕ → Char
digit zero = "0"
digit (suc zero) = "1"
digit (suc (suc zero)) = "2"
digit (suc (suc (suc zero))) = "3"
digit (suc (suc (suc (suc zero)))) = "4"
digit (suc (suc (suc (suc (suc zero))))) = "5"
digit (suc (suc (suc (suc (suc (suc zero)))))) = "6"
digit (suc (suc (suc (suc (suc (suc (suc zero))))))) = "7"
digit (suc (suc (suc (suc (suc (suc (suc (suc zero)))))))) = "8"
digit _ = "9"

pub code-digit : (n : ℕ) → n < 10 → code (digit n) ≡ n + 48
unfolding digit
code-digit zero h = refl
code-digit (suc zero) h = refl
code-digit (suc (suc zero)) h = refl
code-digit (suc (suc (suc zero))) h = refl
code-digit (suc (suc (suc (suc zero)))) h = refl
code-digit (suc (suc (suc (suc (suc zero))))) h = refl
code-digit (suc (suc (suc (suc (suc (suc zero)))))) h = refl
code-digit (suc (suc (suc (suc (suc (suc (suc zero))))))) h = refl
code-digit (suc (suc (suc (suc (suc (suc (suc (suc zero)))))))) h = refl
code-digit (suc (suc (suc (suc (suc (suc (suc (suc (suc zero))))))))) h = refl
code-digit (suc (suc (suc (suc (suc (suc (suc (suc (suc (suc n)))))))))) h = absurd (omega arith)

-- The digits of `n` in front of `acc`, the last one first; the fuel bounds their number.
decimal_acc : ℕ → ℕ → String → String
decimal_acc zero n acc = acc
decimal_acc (suc fuel) n acc =
    let more = decimal_acc fuel (n / 10) (String.◌∷◌ (digit (n % 10)) acc) in
    if ltb n 10 then String.◌∷◌ (digit n) acc else more

unfoldable pub decimal : ℕ → String
unfolding decimal_acc digit
decimal n = decimal_acc (suc n) n ""

-- The value of the digits up to the end of the text, or to a last line feed: `(\d+)$`, with the
-- value of the digits read so far.
unfoldable pub digits_value : ℕ → String → Option ℕ
digits_value n String.[] = some n
digits_value n (String.◌∷◌ c s) =
    let rest = digits_value (n * 10 + (code c - 48)) s in
    if is_digit c then rest else if code c == 10 && is_blank s then some n else none

unfoldable pub starts_digit : String → Bool
starts_digit String.[] = false
starts_digit (String.◌∷◌ c s) = is_digit c

digit-is_digit : (n : ℕ) → n < 10 → is_digit (digit n) ≡ true
digit-is_digit n h = ground (arith, code-digit n h)

digits_value-digit :
    (m n : ℕ) (s : String)
    → n < 10
    → digits_value m (String.◌∷◌ (digit n) s) ≡ digits_value (m * 10 + n) s
unfolding digits_value
digits_value-digit m n s h = ground (arith, code-digit n h, digit-is_digit n h)

digits_value-acc :
    (fuel n : ℕ) (acc : String)
    → n < fuel
    → digits_value 0 (decimal_acc fuel n acc) ≡ digits_value n acc
unfolding decimal_acc
digits_value-acc zero n acc h = elim h [ ]
digits_value-acc (suc fuel) n acc h = elim (Bool-cases (ltb n 10)) [
  | inl small ↦
      let e : 0 * 10 + n ≡ n = omega arith in
      rw small (digits_value-digit 0 n acc (ltb→lt n 10 small) ∙ ap (λ k. digits_value k acc) e)
  | inr large ↦
      let same : n / 10 * 10 + n % 10 ≡ n = omega arith in
      rw large (
        digits_value-acc fuel (n / 10) (String.◌∷◌ (digit (n % 10)) acc) (ground arith)
        ∙ digits_value-digit (n / 10) (n % 10) acc (omega arith)
        ∙ ap (λ k. digits_value k acc) same)
]

starts_digit-acc :
    (fuel n : ℕ) (acc : String)
    → starts_digit acc ≡ true
    → starts_digit (decimal_acc fuel n acc) ≡ true
unfolding decimal_acc starts_digit
starts_digit-acc zero n acc h = h
starts_digit-acc (suc fuel) n acc h = elim (Bool-cases (ltb n 10)) [
  | inl small ↦ rw small (digit-is_digit n (ltb→lt n 10 small))
  | inr large ↦ rw large (
      starts_digit-acc fuel (n / 10) (String.◌∷◌ (digit (n % 10)) acc)
        (digit-is_digit (n % 10) (omega arith)))
]

-- The decimal form of a number has that value, and begins with a digit.
pub digits_value-decimal :
    (n : ℕ) → (digits_value 0 (decimal n) ≡ some n) × (starts_digit (decimal n) ≡ true)
unfolding decimal digits_value starts_digit
digits_value-decimal n = (
  digits_value-acc (suc n) n "" (omega arith),
  elim (Bool-cases (ltb n 10)) [
    | inl small ↦ rw small (digit-is_digit n (ltb→lt n 10 small))
    | inr large ↦ rw large (
        starts_digit-acc n (n / 10) (String.◌∷◌ (digit (n % 10)) "")
          (digit-is_digit (n % 10) (omega arith)))
  ],
)

unfoldable pub digits_only : String → Bool
digits_only String.[] = true
digits_only (String.◌∷◌ c s) = is_digit c && digits_only s

digits_only-acc :
    (fuel n : ℕ) (acc : String)
    → digits_only acc ≡ true
    → digits_only (decimal_acc fuel n acc) ≡ true
unfolding decimal_acc digits_only
digits_only-acc zero n acc h = h
digits_only-acc (suc fuel) n acc h = elim (Bool-cases (ltb n 10)) [
  | inl small ↦ rw small (ground (arith, h, digit-is_digit n (ltb→lt n 10 small)))
  | inr large ↦ rw large (
      digits_only-acc fuel (n / 10) (String.◌∷◌ (digit (n % 10)) acc)
        (ground (arith, h, digit-is_digit (n % 10) (omega arith))))
]

pub digits_only-decimal : (n : ℕ) → digits_only (decimal n) ≡ true
unfolding decimal digits_only
digits_only-decimal n = digits_only-acc (suc n) n "" refl
