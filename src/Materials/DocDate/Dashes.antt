-- ===== src/Materials/DocDate/Dashes.antt =====
-- The date of a document number and the digits it is read from.
use Prim.Native.Char.{Char, code}
use server_api.Prelude.{
  ℕ, zero, suc, ◌+◌, ◌*◌, ◌≤◌, ◌≡◌, refl, sym, ap, ◌∙◌, Bool, true, false, Option, none, some,
  String, arith, ◌==◌, text_length, if◌then◌else◌,
}
use server_api.Materials.DocDate.{
  decimal_value, ascii_value, day_unit, digit_char, digit, dated, is_date, dash, dashed, doc_date,
}
use server_api.Materials.DocDate.Digits.{
  digit_char_lem, day_unit-digit_char, date_of-Digits, value-le,
}

unfoldable pub undashed : String → String
undashed String.[] = String.[]
undashed (String.◌∷◌ c s) =
    let rest = undashed s in if code c == 45 then rest else String.◌∷◌ c rest

abbrev pub first_chars : ℕ → String → String
first_chars zero s = String.[]
first_chars (suc n) String.[] = String.[]
first_chars (suc n) (String.◌∷◌ c s) = String.◌∷◌ c (first_chars n s)

undashed-digit_char :
    (n : ℕ) (s : String)
    → n ≤ 9
    → undashed (String.◌∷◌ (digit_char n) s) ≡ String.◌∷◌ (digit_char n) (undashed s)
unfolding undashed
undashed-digit_char n s h = rw (digit_char_lem n h).0 refl

undashed-dash : (s : String) → undashed (String.◌∷◌ dash s) ≡ undashed s
unfolding undashed
undashed-dash s = refl

undashed_nil : undashed String.[] ≡ String.[]
unfolding undashed
undashed_nil = refl

or_empty : Option String → String
or_empty none = String.[]
or_empty (some s) = s

some_if : (b : Bool) (x t : String) → (if b then some x else none) ≡ some t → x ≡ t
unfolding or_empty
some_if true x t p = ap or_empty p
some_if false x t p = absurd (ground arith)

abbrev eight : ℕ → ℕ → ℕ → ℕ → ℕ → ℕ → ℕ → ℕ → String
eight a b c d e f g h = String.◌∷◌ (digit_char a) (
    String.◌∷◌ (digit_char b) (
      String.◌∷◌ (digit_char c) (
        String.◌∷◌ (digit_char d) (
          String.◌∷◌ (digit_char e) (
            String.◌∷◌ (digit_char f)
              (String.◌∷◌ (digit_char g) (String.◌∷◌ (digit_char h) String.[])))))))

-- A text with its digits as ASCII writes them.
abbrev ascii_char : Option ℕ → Char → Char
ascii_char none c = c
ascii_char (some n) c = digit_char n

abbrev pub ascii_digits : String → String
ascii_digits String.[] = String.[]
ascii_digits (String.◌∷◌ c s) = String.◌∷◌ (ascii_char (decimal_value c) c) (ascii_digits s)

undashed-dashed :
    (a b c d e f g h : ℕ)
    → a ≤ 9
    → b ≤ 9
    → c ≤ 9
    → d ≤ 9
    → e ≤ 9
    → f ≤ 9
    → g ≤ 9
    → h ≤ 9
    → undashed (dashed a b c d e f g h) ≡ eight a b c d e f g h
undashed-dashed a b c d e f g h pa pb pc pd pe pf pg ph =
    undashed-digit_char a _ pa
    ∙ ap (λ (z : String). String.◌∷◌ (digit_char a) z)
        (undashed-digit_char b _ pb
          ∙ ap (λ (z : String). String.◌∷◌ (digit_char b) z)
              (undashed-digit_char c _ pc
                ∙ ap (λ (z : String). String.◌∷◌ (digit_char c) z)
                    (undashed-digit_char d _ pd
                      ∙ ap (λ (z : String). String.◌∷◌ (digit_char d) z)
                          (undashed-dash _
                            ∙ (undashed-digit_char e _ pe
                                ∙ ap (λ (z : String). String.◌∷◌ (digit_char e) z)
                                    (undashed-digit_char f _ pf
                                      ∙ ap (λ (z : String). String.◌∷◌ (digit_char f) z)
                                          (undashed-dash _
                                            ∙ (undashed-digit_char g _ pg
                                                ∙ ap (λ (z : String). String.◌∷◌ (digit_char g) z)
                                                    (undashed-digit_char h _ ph
                                                      ∙ ap
                                                          (λ (z : String).
                                                            String.◌∷◌ (digit_char h) z)
                                                          undashed_nil)))))))))

-- The eight digits alone have the date that they have with dashes.
doc_date-eight :
    (a b c d e f g h : ℕ)
    → a ≤ 9
    → b ≤ 9
    → c ≤ 9
    → d ≤ 9
    → e ≤ 9
    → f ≤ 9
    → g ≤ 9
    → h ≤ 9
    → doc_date (eight a b c d e f g h) ≡ dated a b c d e f g h
unfolding doc_date
doc_date-eight a b c d e f g h pa pb pc pd pe pf pg ph =
    ap
      (λ o. digit o (λ y₁. digit (decimal_value (digit_char b)) (λ y₂.
        digit (decimal_value (digit_char c)) (λ y₃. digit (decimal_value (digit_char d)) (λ y₄.
          digit (ascii_value (digit_char e)) (λ m₁. digit (ascii_value (digit_char f)) (λ m₂.
            digit (ascii_value (digit_char g)) (λ d₁.
              digit (day_unit d₁ (digit_char h)) (λ d₂. dated y₁ y₂ y₃ y₄ m₁ m₂ d₁ d₂)))))))))
      (digit_char_lem a pa).1
    ∙ ap
        (λ o. digit o (λ y₂. digit (decimal_value (digit_char c)) (λ y₃.
          digit (decimal_value (digit_char d)) (λ y₄. digit (ascii_value (digit_char e)) (λ m₁.
            digit (ascii_value (digit_char f)) (λ m₂.
              digit (ascii_value (digit_char g)) (λ d₁.
                digit (day_unit d₁ (digit_char h)) (λ d₂. dated a y₂ y₃ y₄ m₁ m₂ d₁ d₂))))))))
        (digit_char_lem b pb).1
    ∙ ap
        (λ o. digit o (λ y₃. digit (decimal_value (digit_char d)) (λ y₄.
          digit (ascii_value (digit_char e)) (λ m₁. digit (ascii_value (digit_char f)) (λ m₂.
            digit (ascii_value (digit_char g))
              (λ d₁. digit (day_unit d₁ (digit_char h)) (λ d₂. dated a b y₃ y₄ m₁ m₂ d₁ d₂)))))))
        (digit_char_lem c pc).1
    ∙ ap
        (λ o. digit o (λ y₄. digit (ascii_value (digit_char e)) (λ m₁.
          digit (ascii_value (digit_char f)) (λ m₂.
            digit (ascii_value (digit_char g))
              (λ d₁. digit (day_unit d₁ (digit_char h)) (λ d₂. dated a b c y₄ m₁ m₂ d₁ d₂))))))
        (digit_char_lem d pd).1
    ∙ ap
        (λ o. digit o (λ m₁. digit (ascii_value (digit_char f)) (λ m₂.
          digit (ascii_value (digit_char g))
            (λ d₁. digit (day_unit d₁ (digit_char h)) (λ d₂. dated a b c d m₁ m₂ d₁ d₂)))))
        (digit_char_lem e pe).2
    ∙ ap
        (λ o. digit o (λ m₂.
          digit (ascii_value (digit_char g))
            (λ d₁. digit (day_unit d₁ (digit_char h)) (λ d₂. dated a b c d e m₂ d₁ d₂))))
        (digit_char_lem f pf).2
    ∙ ap (λ o. digit o (λ d₁. digit (day_unit d₁ (digit_char h)) (λ d₂. dated a b c d e f d₁ d₂)))
        (digit_char_lem g pg).2
    ∙ ap (λ o. digit o (λ d₂. dated a b c d e f g d₂)) (day_unit-digit_char g h ph)

-- What `doc_date` answers has ten characters; without its dashes it is the first eight characters
-- of the document number, their digits written in ASCII, and these alone have the same date.
pub doc_date_roundtrip :
    (s t : String)
    → doc_date s ≡ some t
    → (undashed t ≡ ascii_digits (first_chars 8 s))
      × (text_length t ≡ 10)
      × (doc_date (undashed t) ≡ some t)
unfolding doc_date
doc_date_roundtrip String.[] t h = absurd (ground arith)
doc_date_roundtrip (String.◌∷◌ a String.[]) t h = absurd (ground arith)
doc_date_roundtrip (String.◌∷◌ a (String.◌∷◌ b String.[])) t h = absurd (ground arith)
doc_date_roundtrip (String.◌∷◌ a (String.◌∷◌ b (String.◌∷◌ c String.[]))) t h =
    absurd (ground arith)
doc_date_roundtrip (String.◌∷◌ a (String.◌∷◌ b (String.◌∷◌ c (String.◌∷◌ d String.[])))) t h =
    absurd (ground arith)
doc_date_roundtrip
      (String.◌∷◌ a (String.◌∷◌ b (String.◌∷◌ c (String.◌∷◌ d (String.◌∷◌ e String.[]))))) t h =
    absurd (ground arith)
doc_date_roundtrip
      (String.◌∷◌ a
        (String.◌∷◌ b (String.◌∷◌ c (String.◌∷◌ d (String.◌∷◌ e (String.◌∷◌ f String.[]))))))
      t h =
    absurd (ground arith)
doc_date_roundtrip
      (String.◌∷◌ a (
        String.◌∷◌ b
          (String.◌∷◌ c (String.◌∷◌ d (String.◌∷◌ e (String.◌∷◌ f (String.◌∷◌ g String.[])))))))
      t h =
    absurd (ground arith)
doc_date_roundtrip
      (String.◌∷◌ a (
        String.◌∷◌ b (
          String.◌∷◌ c
            (String.◌∷◌ d (String.◌∷◌ e (String.◌∷◌ f (String.◌∷◌ g (String.◌∷◌ h s))))))))
      t p =
    let w = date_of-Digits a b c d e f g h t p in
    let same : dashed w.x₁ w.x₂ w.x₃ w.x₄ w.x₅ w.x₆ w.x₇ w.x₈ ≡ t =
      some_if
        (is_date (w.x₁ * 1000 + w.x₂ * 100 + w.x₃ * 10 + w.x₄) (w.x₅ * 10 + w.x₆)
          (w.x₇ * 10 + w.x₈))
        (dashed w.x₁ w.x₂ w.x₃ w.x₄ w.x₅ w.x₆ w.x₇ w.x₈) t w.is_dated in
    let plain : undashed t ≡ eight w.x₁ w.x₂ w.x₃ w.x₄ w.x₅ w.x₆ w.x₇ w.x₈ =
      ap undashed (sym same)
      ∙ undashed-dashed w.x₁ w.x₂ w.x₃ w.x₄ w.x₅ w.x₆ w.x₇ w.x₈ (value-le a w.x₁ w.r₁)
          (value-le b w.x₂ w.r₂) (value-le c w.x₃ w.r₃) (value-le d w.x₄ w.r₄)
          (value-le e w.x₅ w.r₅) (value-le f w.x₆ w.r₆) (value-le g w.x₇ w.r₇)
          (value-le h w.x₈ w.r₈) in
    let written : ascii_digits (
          first_chars 8 (
            String.◌∷◌ a (
              String.◌∷◌ b (
                String.◌∷◌ c
                  (String.◌∷◌ d (String.◌∷◌ e (String.◌∷◌ f (String.◌∷◌ g (String.◌∷◌ h s)))))))))
        ≡ eight w.x₁ w.x₂ w.x₃ w.x₄ w.x₅ w.x₆ w.x₇ w.x₈ =
      rw (w.r₁, w.r₂, w.r₃, w.r₄, w.r₅, w.r₆, w.r₇, w.r₈) refl in
    (
      plain ∙ sym written,
      ap text_length (sym same),
      ap doc_date plain
          ∙ doc_date-eight w.x₁ w.x₂ w.x₃ w.x₄ w.x₅ w.x₆ w.x₇ w.x₈ (value-le a w.x₁ w.r₁)
              (value-le b w.x₂ w.r₂) (value-le c w.x₃ w.r₃) (value-le d w.x₄ w.r₄)
              (value-le e w.x₅ w.r₅) (value-le f w.x₆ w.r₆) (value-le g w.x₇ w.r₇)
              (value-le h w.x₈ w.r₈)
          ∙ w.is_dated,
    )
