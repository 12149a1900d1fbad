-- ===== src/Records/Like.antt =====
-- `escape_like_wildcards` of shared/validators.py, and `LIKE … ESCAPE '\'` of SQLite.
--
-- A text stands as its code points: 37 is `%`, 92 the backslash and 95 `_`. `LIKE` takes the letters
-- of ASCII in either case.
use server_api.Prelude.{
  ℕ, ◌≡◌, refl, ap, ◌∙◌, Bool, true, false, ◌&&◌, ◌||◌, List, [], ◌∷◌, ◌++◌, map, ◌==◌, ==_iff,
  lower_code, if◌then◌else◌, Bool-cases, inl, inr,
}

abbrev pub Text : Type 0
Text = List ℕ

-- `str.replace` of one character by itself after a backslash.
abbrev replace_escaped : ℕ → Text → Text
replace_escaped c [] = []
replace_escaped c (d ∷ t) =
    let rest = replace_escaped c t in if d == c then 92 ∷ d ∷ rest else d ∷ rest

unfoldable pub escape_like_wildcards : Text → Text
escape_like_wildcards value = replace_escaped 95 (replace_escaped 37 (replace_escaped 92 value))

-- What a pattern asks for: `%`, `_`, a character, or nothing that there is, after an escape at the end.
pub data Token : Type 0 where
  any_run any_one never : Token
  lit : ℕ → Token

abbrev token : ℕ → Token
token c = if c == 37 then any_run else if c == 95 then any_one else lit c

-- The flag says that an escape is open.
unfoldable pub tokens : Bool → Text → List Token
tokens false [] = []
tokens true [] = never ∷ []
tokens true (c ∷ t) = lit c ∷ tokens false t
tokens false (c ∷ t) =
    let escaped = tokens true t in
    let rest = tokens false t in if c == 92 then escaped else token c ∷ rest

abbrev pub any_suffix : (Text → Bool) → Text → Bool
any_suffix f [] = f []
any_suffix f (c ∷ t) = f (c ∷ t) || any_suffix f t

abbrev pub like_tokens : List Token → Text → Bool
like_tokens [] [] = true
like_tokens [] (d ∷ t) = false
like_tokens (any_run ∷ ps) t = any_suffix (like_tokens ps) t
like_tokens (any_one ∷ ps) [] = false
like_tokens (any_one ∷ ps) (d ∷ t) = like_tokens ps t
like_tokens (never ∷ ps) t = false
like_tokens (lit c ∷ ps) [] = false
like_tokens (lit c ∷ ps) (d ∷ t) = (lower_code c == lower_code d) && like_tokens ps t

unfoldable pub like : Text → Text → Bool
like pattern text = like_tokens (tokens false pattern) text

-- The two patterns that the routes build.
abbrev pub contains_pattern : Text → Text
contains_pattern q = 37 ∷ escape_like_wildcards q ++ 37 ∷ []

abbrev pub prefix_pattern : Text → Text
prefix_pattern q = escape_like_wildcards q ++ 37 ∷ []

-- A text begins with another, and has it somewhere, in either case.
abbrev pub starts_with : Text → Text → Bool
starts_with [] t = true
starts_with (c ∷ p) [] = false
starts_with (c ∷ p) (d ∷ t) = (lower_code c == lower_code d) && starts_with p t

abbrev pub contains : Text → Text → Bool
contains p = any_suffix (starts_with p)

tokens-escape :
    (q rest : Text)
    → tokens false (escape_like_wildcards q ++ rest) ≡ map lit q ++ tokens false rest
unfolding escape_like_wildcards tokens
tokens-escape [] rest = refl
tokens-escape (c ∷ q) rest = elim (Bool-cases (c == 92)) [
  | inl e ↦ rw ((==_iff c 92).0 e) (ap (λ z. lit 92 ∷ z) (tokens-escape q rest))
  | inr e ↦ elim (Bool-cases (c == 37)) [
    | inl f ↦ rw ((==_iff c 37).0 f) (ap (λ z. lit 37 ∷ z) (tokens-escape q rest))
    | inr f ↦ elim (Bool-cases (c == 95)) [
      | inl g ↦ rw ((==_iff c 95).0 g) (ap (λ z. lit 95 ∷ z) (tokens-escape q rest))
      | inr g ↦ rw (e, f, g) (rw (e, f, g) (ap (λ z. lit c ∷ z) (tokens-escape q rest)))
    ]
  ]
]

any_suffix-true : (f : Text → Bool) (t : Text) → f t ≡ true → any_suffix f t ≡ true
any_suffix-true f [] h = h
any_suffix-true f (c ∷ t) h = rw h refl

any_suffix_congr :
    (f g : Text → Bool) (t : Text) → ((s : Text) → f s ≡ g s) → any_suffix f t ≡ any_suffix g t
any_suffix_congr f g [] h = h []
any_suffix_congr f g (c ∷ t) h = rw (h (c ∷ t), any_suffix_congr f g t h) refl

-- `%` at the end takes every rest.
any_rest : (t : Text) → like_tokens (any_run ∷ []) t ≡ true
any_rest [] = refl
any_rest (c ∷ t) = any_rest t

like_tokens-lits : (q t : Text) → like_tokens (map lit q ++ any_run ∷ []) t ≡ starts_with q t
like_tokens-lits [] t = any_rest t
like_tokens-lits (c ∷ q) [] = refl
like_tokens-lits (c ∷ q) (d ∷ t) =
    ap (λ z. (lower_code c == lower_code d) && z) (like_tokens-lits q t)

-- The pattern that is built from a search text, whatever wildcards or backslashes it has, finds the
-- rows whose text has the search text in it, and the one built from a prefix those that begin with
-- it: the letters of ASCII in either case, every other character as it is.
pub like-escape :
    (q t : Text)
    → (like (contains_pattern q) t ≡ contains q t) × (like (prefix_pattern q) t ≡ starts_with q t)
unfolding like tokens
like-escape q t =
    let read = tokens-escape q (37 ∷ []) in
    (
      ap (λ ps. any_suffix (like_tokens ps) t) read
          ∙ any_suffix_congr (like_tokens (map lit q ++ any_run ∷ [])) (starts_with q) t
              (like_tokens-lits q),
      ap (λ ps. like_tokens ps t) read ∙ like_tokens-lits q t,
    )
