-- ===== src/Materials/DocDate/Digits.antt =====
-- The digits of a document number that a date is read from.
use Prim.Native.Char.{Char, code}
use server_api.Prelude.{
  ℕ, zero, suc, ◌≤◌, ◌≡◌, refl, sym, ap, ◌∙◌, false, ◌||◌, Option, none, some, List, [], ◌∷◌,
  String, arith, ◌==◌, if◌then◌else◌, Bool-cases, inl, inr,
}
use server_api.Materials.DocDate.{
  decimal_at, other_zeros, decimal_value, ascii_value, day_unit, digit_char, digit, dated, date_of,
}

-- What a digit is read as again.
pub digit_char_lem :
    (n : ℕ)
    → n ≤ 9
    → ((code (digit_char n) == 45) ≡ false)
      × (decimal_value (digit_char n) ≡ some n)
      × (ascii_value (digit_char n) ≡ some n)
digit_char_lem zero h = (refl, refl, refl)
digit_char_lem (suc zero) h = (refl, refl, refl)
digit_char_lem (suc (suc zero)) h = (refl, refl, refl)
digit_char_lem (suc (suc (suc zero))) h = (refl, refl, refl)
digit_char_lem (suc (suc (suc (suc zero)))) h = (refl, refl, refl)
digit_char_lem (suc (suc (suc (suc (suc zero))))) h = (refl, refl, refl)
digit_char_lem (suc (suc (suc (suc (suc (suc zero)))))) h = (refl, refl, refl)
digit_char_lem (suc (suc (suc (suc (suc (suc (suc zero))))))) h = (refl, refl, refl)
digit_char_lem (suc (suc (suc (suc (suc (suc (suc (suc zero)))))))) h = (refl, refl, refl)
digit_char_lem (suc (suc (suc (suc (suc (suc (suc (suc (suc zero))))))))) h = (refl, refl, refl)
digit_char_lem (suc (suc (suc (suc (suc (suc (suc (suc (suc (suc n)))))))))) h =
    absurd (omega (arith, h))

pub decimal_at-le : (c n : ℕ) (zs : List ℕ) → decimal_at c zs ≡ some n → n ≤ 9
decimal_at-le c n [] h = absurd (ground arith)
decimal_at-le c n (z ∷ zs) h = ground (arith, decimal_at-le c n zs)

pub digit-some :
    (o : Option ℕ) (f : ℕ → Option String) (t : String)
    → digit o f ≡ some t
    → (n : ℕ) × (o ≡ some n) × (f n ≡ some t)
digit-some none f t p = absurd (ground arith)
digit-some (some n) f t p = (n, refl, p)

pub first_zero :
    (c n : ℕ) (zs : List ℕ) → decimal_at c (48 ∷ []) ≡ some n → decimal_at c (48 ∷ zs) ≡ some n
first_zero c n zs h = ground arith

pub ascii-decimal : (c : Char) (n : ℕ) → ascii_value c ≡ some n → decimal_value c ≡ some n
ascii-decimal c n h = first_zero (code c) n other_zeros h

pub day_unit-decimal : (t : ℕ) (c : Char) (n : ℕ) → day_unit t c ≡ some n → decimal_value c ≡ some n
day_unit-decimal t c n h = elim (Bool-cases (t == 1 || t == 2)) [
  | inl e ↦ sym (ap (λ b. if b then decimal_value c else ascii_value c) e) ∙ h
  | inr e ↦ ascii-decimal c n (sym (ap (λ b. if b then decimal_value c else ascii_value c) e) ∙ h)
]

pub day_unit-digit_char : (t n : ℕ) → n ≤ 9 → day_unit t (digit_char n) ≡ some n
day_unit-digit_char t n h = elim (Bool-cases (t == 1 || t == 2)) [
  | inl e ↦
      ap (λ b. if b then decimal_value (digit_char n) else ascii_value (digit_char n)) e
      ∙ (digit_char_lem n h).1
  | inr e ↦
      ap (λ b. if b then decimal_value (digit_char n) else ascii_value (digit_char n)) e
      ∙ (digit_char_lem n h).2
]

-- The digits that a date is read from.
pub record Digits (a b c d e f g h : Char) (t : String) : Type 0 where
  pub x₁ : ℕ
  pub x₂ : ℕ
  pub x₃ : ℕ
  pub x₄ : ℕ
  pub x₅ : ℕ
  pub x₆ : ℕ
  pub x₇ : ℕ
  pub x₈ : ℕ
  pub r₁ : decimal_value a ≡ some x₁
  pub r₂ : decimal_value b ≡ some x₂
  pub r₃ : decimal_value c ≡ some x₃
  pub r₄ : decimal_value d ≡ some x₄
  pub r₅ : decimal_value e ≡ some x₅
  pub r₆ : decimal_value f ≡ some x₆
  pub r₇ : decimal_value g ≡ some x₇
  pub r₈ : decimal_value h ≡ some x₈
  pub is_dated : dated x₁ x₂ x₃ x₄ x₅ x₆ x₇ x₈ ≡ some t

pub date_of-Digits :
    (a b c d e f g h : Char) (t : String)
    → date_of a b c d e f g h ≡ some t
    → Digits a b c d e f g h t
date_of-Digits a b c d e f g h t p =
    let s₁ =
      digit-some (decimal_value a)
        (λ y₁. digit (decimal_value b) (λ y₂. digit (decimal_value c) (λ y₃.
          digit (decimal_value d) (λ y₄. digit (ascii_value e) (λ m₁. digit (ascii_value f) (λ m₂.
            digit (ascii_value g)
              (λ d₁. digit (day_unit d₁ h) (λ d₂. dated y₁ y₂ y₃ y₄ m₁ m₂ d₁ d₂))))))))
        t p in
    let s₂ =
      digit-some (decimal_value b)
        (λ y₂. digit (decimal_value c) (λ y₃. digit (decimal_value d) (λ y₄.
          digit (ascii_value e) (λ m₁. digit (ascii_value f) (λ m₂.
            digit (ascii_value g)
              (λ d₁. digit (day_unit d₁ h) (λ d₂. dated s₁.0 y₂ y₃ y₄ m₁ m₂ d₁ d₂)))))))
        t s₁.2 in
    let s₃ =
      digit-some (decimal_value c)
        (λ y₃. digit (decimal_value d) (λ y₄. digit (ascii_value e) (λ m₁.
          digit (ascii_value f) (λ m₂.
            digit (ascii_value g)
              (λ d₁. digit (day_unit d₁ h) (λ d₂. dated s₁.0 s₂.0 y₃ y₄ m₁ m₂ d₁ d₂))))))
        t s₂.2 in
    let s₄ =
      digit-some (decimal_value d)
        (λ y₄. digit (ascii_value e) (λ m₁. digit (ascii_value f) (λ m₂.
          digit (ascii_value g)
            (λ d₁. digit (day_unit d₁ h) (λ d₂. dated s₁.0 s₂.0 s₃.0 y₄ m₁ m₂ d₁ d₂)))))
        t s₃.2 in
    let s₅ =
      digit-some (ascii_value e)
        (λ m₁. digit (ascii_value f) (λ m₂.
          digit (ascii_value g)
            (λ d₁. digit (day_unit d₁ h) (λ d₂. dated s₁.0 s₂.0 s₃.0 s₄.0 m₁ m₂ d₁ d₂))))
        t s₄.2 in
    let s₆ =
      digit-some (ascii_value f)
        (λ m₂.
          digit (ascii_value g)
            (λ d₁. digit (day_unit d₁ h) (λ d₂. dated s₁.0 s₂.0 s₃.0 s₄.0 s₅.0 m₂ d₁ d₂)))
        t s₅.2 in
    let s₇ =
      digit-some (ascii_value g)
        (λ d₁. digit (day_unit d₁ h) (λ d₂. dated s₁.0 s₂.0 s₃.0 s₄.0 s₅.0 s₆.0 d₁ d₂)) t s₆.2 in
    let s₈ =
      digit-some (day_unit s₇.0 h) (λ d₂. dated s₁.0 s₂.0 s₃.0 s₄.0 s₅.0 s₆.0 s₇.0 d₂) t s₇.2 in
    record {
      x₁ = s₁.0;
      x₂ = s₂.0;
      x₃ = s₃.0;
      x₄ = s₄.0;
      x₅ = s₅.0;
      x₆ = s₆.0;
      x₇ = s₇.0;
      x₈ = s₈.0;
      r₁ = s₁.1;
      r₂ = s₂.1;
      r₃ = s₃.1;
      r₄ = s₄.1;
      r₅ = ascii-decimal e s₅.0 s₅.1;
      r₆ = ascii-decimal f s₆.0 s₆.1;
      r₇ = ascii-decimal g s₇.0 s₇.1;
      r₈ = day_unit-decimal s₇.0 h s₈.0 s₈.1;
      is_dated = s₈.2;
    }

pub value-le : (c : Char) (n : ℕ) → decimal_value c ≡ some n → n ≤ 9
value-le c n h = decimal_at-le (code c) n (48 ∷ other_zeros) h
