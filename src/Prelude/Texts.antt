-- ===== src/Prelude/Texts.antt =====
-- Python's `str.strip` and `str.lower` on the code points of a text. `lower` is that of ASCII: no
-- other text becomes an ASCII word without `k` by `str.lower`, which is all that is asked of it.
use Prim.Native.Nat.{ℕ, zero, suc, ◌+◌, ◌/◌, ◌%◌, Ordering}
use Prim.Native.Char.{Char, code}
use Prim.Native.String.{String, compare}
use mathlib.Core.Bool.{Bool, true, false, ◌&&◌, ◌||◌}
use mathlib.Core.List.{List, [], ◌∷◌}
use server_api.Prelude.Tests.{leb, ltb, ◌==◌, str_eq, if◌then◌else◌}

abbrev pub codes : String → List ℕ
codes String.[] = []
codes (String.◌∷◌ c s) = code c ∷ codes s

abbrev pub is_space : ℕ → Bool
is_space c =
    leb 9 c && leb c 13
    || leb 28 c && leb c 32
    || c == 133
    || c == 160
    || c == 5760
    || leb 8192 c && leb c 8202
    || c == 8232
    || c == 8233
    || c == 8239
    || c == 8287
    || c == 12288

abbrev pub rev_onto : String → String → String
rev_onto String.[] out = out
rev_onto (String.◌∷◌ c s) out = rev_onto s (String.◌∷◌ c out)

abbrev pub reverse_text : String → String
reverse_text s = rev_onto s String.[]

abbrev pub drop_while : (ℕ → Bool) → String → String
drop_while p String.[] = String.[]
drop_while p (String.◌∷◌ c s) =
    let rest = drop_while p s in if p (code c) then rest else String.◌∷◌ c s

-- `str.rstrip` and `str.strip`, the characters to drop given by a test.
abbrev pub rstrip : (ℕ → Bool) → String → String
rstrip p s = reverse_text (drop_while p (reverse_text s))

abbrev pub strip : String → String
strip s = rstrip is_space (drop_while is_space s)

abbrev pub lower_code : ℕ → ℕ
lower_code c = if leb 65 c && leb c 90 then c + 32 else c

abbrev pub lower : List ℕ → List ℕ
lower [] = []
lower (c ∷ cs) = lower_code c ∷ lower cs

abbrev pub codes_eq : List ℕ → List ℕ → Bool
codes_eq [] [] = true
codes_eq (c ∷ cs) (d ∷ ds) = c == d && codes_eq cs ds
codes_eq _ _ = false

abbrev pub text_length : String → ℕ
text_length String.[] = 0
text_length (String.◌∷◌ c s) = suc (text_length s)

-- `not s` of a text.
abbrev pub is_blank : String → Bool
is_blank String.[] = true
is_blank (String.◌∷◌ c s) = false

abbrev pub mem_text : String → List String → Bool
mem_text s [] = false
mem_text s (t ∷ ts) = let rest = mem_text s ts in if str_eq s t then true else rest

-- `s.split(sep)` for a separator of one character.
abbrev pub push_char : Char → List String → List String
push_char c [] = String.◌∷◌ c String.[] ∷ []
push_char c (s ∷ ss) = String.◌∷◌ c s ∷ ss

abbrev pub split_on : ℕ → String → List String
split_on sep String.[] = String.[] ∷ []
split_on sep (String.◌∷◌ c s) =
    let rest = split_on sep s in if code c == sep then String.[] ∷ rest else push_char c rest

-- The order of texts by code points, which is that of SQLite and of Python.
abbrev pub text_le : String → String → Bool
text_le s t = elim (compare s t) [ Ordering.gt ↦ false | _ ↦ true ]

abbrev digit_char : ℕ → Char
digit_char d =
    if d == 0
    then "0"
    else if d == 1
    then "1"
    else if d == 2
    then "2"
    else if d == 3
    then "3"
    else if d == 4
    then "4"
    else if d == 5
    then "5"
    else if d == 6
    then "6"
    else if d == 7
    then "7"
    else if d == 8
    then "8"
    else "9"

abbrev decimal_onto : ℕ → ℕ → String → String
decimal_onto zero n out = out
decimal_onto (suc fuel) n out =
    let next = String.◌∷◌ (digit_char (n % 10)) out in
    let rest = decimal_onto fuel (n / 10) next in if ltb n 10 then next else rest

-- `str(n)`: no number has more digits than itself and one.
unfoldable pub decimal : ℕ → String
decimal n = decimal_onto (suc n) n String.[]
