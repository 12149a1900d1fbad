-- ===== src/Materials/DocDate.antt =====
-- `_doc_date` of api/materials/store.py: the date that a document number starts with.
--
-- What passes `strptime` passes `isdigit`. The year is written in four digits, as `%Y` is documented;
-- a C library that does not pad years below 1000 is not modelled.
pub mod Digits
pub mod Dashes
use Prim.Native.Char.{Char, code}
use server_api.Prelude.{
  zero, suc, List, ◌||◌, ℕ, ◌+◌, ◌-◌, ◌*◌, ◌/◌, ◌%◌, ◌%◌, Bool, ◌&&◌, Option, none, some, [], ◌∷◌,
  String, leb, ◌==◌, if◌then◌else◌,
}

-- The zeros of Unicode's decimal digits but ASCII's; the nine others follow each of them.
abbrev other_zeros : List ℕ
other_zeros =
    1632 ∷ 1776 ∷ 1984 ∷ 2406 ∷ 2534 ∷ 2662 ∷ 2790 ∷ 2918 ∷ 3046 ∷ 3174 ∷ 3302 ∷ 3430 ∷ 3558 ∷ 3664
    ∷ 3792 ∷ 3872 ∷ 4160 ∷ 4240 ∷ 6112 ∷ 6160 ∷ 6470 ∷ 6608 ∷ 6784 ∷ 6800 ∷ 6992 ∷ 7088 ∷ 7232
    ∷ 7248 ∷ 42528 ∷ 43216 ∷ 43264 ∷ 43472 ∷ 43504 ∷ 43600 ∷ 44016 ∷ 65296 ∷ 66720 ∷ 68912 ∷ 69734
    ∷ 69872 ∷ 69942 ∷ 70096 ∷ 70384 ∷ 70736 ∷ 70864 ∷ 71248 ∷ 71360 ∷ 71472 ∷ 71904 ∷ 72016 ∷ 72784
    ∷ 73040 ∷ 73120 ∷ 92768 ∷ 92864 ∷ 93008 ∷ 120782 ∷ 120792 ∷ 120802 ∷ 120812 ∷ 120822 ∷ 123200
    ∷ 123632 ∷ 125264 ∷ 130032 ∷ []

abbrev decimal_at : ℕ → List ℕ → Option ℕ
decimal_at c [] = none
decimal_at c (z ∷ zs) =
    let rest = decimal_at c zs in if leb z c && leb c (z + 9) then some (c - z) else rest

-- `\d`, with the value that `int` gives it, and `[0-9]`.
abbrev pub decimal_value : Char → Option ℕ
decimal_value c = decimal_at (code c) (48 ∷ other_zeros)

abbrev ascii_value : Char → Option ℕ
ascii_value c = decimal_at (code c) (48 ∷ [])

-- `strptime` reads the month as `1[0-2]|0[1-9]` and the day as `3[0-1]|[1-2]\d|0[1-9]`.
abbrev day_unit : ℕ → Char → Option ℕ
day_unit tens c = if tens == 1 || tens == 2 then decimal_value c else ascii_value c

abbrev one_if_divides : ℕ → ℕ → ℕ
one_if_divides n y = if y % n == 0 then 1 else 0

abbrev leap_day : ℕ → ℕ
leap_day y = one_if_divides 4 y + one_if_divides 400 y - one_if_divides 100 y

-- The months of 31 days are the odd ones up to July and the even ones from August.
abbrev month_length : ℕ → ℕ → ℕ
month_length y m = if m == 2 then 28 + leap_day y else 30 + (m + m / 8) % 2

abbrev pub is_date : ℕ → ℕ → ℕ → Bool
is_date y m d = leb 1 y && leb 1 m && leb m 12 && leb 1 d && leb d (month_length y m)

abbrev pub dash : Char
dash = "-"

abbrev pub digit_char : ℕ → Char
digit_char zero = "0"
digit_char (suc zero) = "1"
digit_char (suc (suc zero)) = "2"
digit_char (suc (suc (suc zero))) = "3"
digit_char (suc (suc (suc (suc zero)))) = "4"
digit_char (suc (suc (suc (suc (suc zero))))) = "5"
digit_char (suc (suc (suc (suc (suc (suc zero)))))) = "6"
digit_char (suc (suc (suc (suc (suc (suc (suc zero))))))) = "7"
digit_char (suc (suc (suc (suc (suc (suc (suc (suc zero)))))))) = "8"
digit_char (suc (suc (suc (suc (suc (suc (suc (suc (suc n))))))))) = "9"

-- `strftime("%Y-%m-%d")`, the year in four digits.
abbrev dashed : ℕ → ℕ → ℕ → ℕ → ℕ → ℕ → ℕ → ℕ → String
dashed a b c d e f g h = String.◌∷◌ (digit_char a) (
    String.◌∷◌ (digit_char b) (
      String.◌∷◌ (digit_char c) (
        String.◌∷◌ (digit_char d) (
          String.◌∷◌ dash (
            String.◌∷◌ (digit_char e) (
              String.◌∷◌ (digit_char f) (
                String.◌∷◌ dash
                  (String.◌∷◌ (digit_char g) (String.◌∷◌ (digit_char h) String.[])))))))))

abbrev dated : ℕ → ℕ → ℕ → ℕ → ℕ → ℕ → ℕ → ℕ → Option String
dated a b c d e f g h =
    if is_date (a * 1000 + b * 100 + c * 10 + d) (e * 10 + f) (g * 10 + h)
    then some (dashed a b c d e f g h)
    else none

-- The next digit, if there is one.
abbrev digit : Option ℕ → (ℕ → Option String) → Option String
digit none f = none
digit (some n) f = f n

abbrev date_of : Char → Char → Char → Char → Char → Char → Char → Char → Option String
date_of a b c d e f g h = digit (decimal_value a) (λ y₁. digit (decimal_value b) (λ y₂.
    digit (decimal_value c) (λ y₃. digit (decimal_value d) (λ y₄. digit (ascii_value e) (λ m₁.
      digit (ascii_value f) (λ m₂.
        digit (ascii_value g)
          (λ d₁. digit (day_unit d₁ h) (λ d₂. dated y₁ y₂ y₃ y₄ m₁ m₂ d₁ d₂))))))))

-- The first eight characters, if there are as many.
unfoldable pub doc_date : String → Option String
doc_date
      (String.◌∷◌ a (
        String.◌∷◌ b (
          String.◌∷◌ c
            (String.◌∷◌ d (String.◌∷◌ e (String.◌∷◌ f (String.◌∷◌ g (String.◌∷◌ h s)))))))) =
    date_of a b c d e f g h
doc_date _ = none
