-- ===== src/Access/Auth/Grants.antt =====
-- Whom `authenticate` grants.
use server_api.Prelude.{
  ◌≡◌, refl, ap, ◌∙◌, Bool, true, false, not, ◌&&◌, ◌||◌, Option, none, some, List, [], ◌∷◌, String,
  str_eq, is_blank, mem_text, All, Bool-cases, inl, inr, if◌then◌else◌,
}
use server_api.Access.Auth.{
  AuthSettings, AuthResult, Headers, extract_credentials, is_ascii, compare_digest, unless_raised,
  matches_from, matches_any, offered, authenticate,
}

abbrev AreAscii : List String → Type 0
AreAscii = All (λ s. is_ascii s ≡ true)

-- A credential that is not empty and is one of the values.
abbrev pub is_one_of : Option String → List String → Bool
is_one_of none allowed = false
is_one_of (some c) allowed = not (is_blank c) && mem_text c allowed

-- The comparison raises: the credential is given and not of ASCII, and there is a value to compare.
abbrev pub raises : Option String → List String → Bool
raises none allowed = false
raises (some c) [] = false
raises (some c) (v ∷ vs) = not (is_blank c) && not (is_ascii c)

abbrev pub is_granted : Option AuthResult → Option Bool
is_granted none = none
is_granted (some r) = some r.authenticated

compare_digest-ascii :
    (a b : String) → is_ascii a ≡ true → is_ascii b ≡ true → compare_digest a b ≡ some (str_eq a b)
compare_digest-ascii a b h g = rw (h, g) refl

matches_from-mem_text :
    (b : Bool) (c : String) (vs : List String)
    → is_ascii c ≡ true
    → AreAscii vs
    → matches_from b c vs ≡ some (b || mem_text c vs)
matches_from-mem_text true c [] h g = refl
matches_from-mem_text false c [] h g = refl
matches_from-mem_text b c (v ∷ vs) h g =
    ap (unless_raised (λ e. matches_from (b || e) c vs)) (compare_digest-ascii c v h g.0)
    ∙ matches_from-mem_text (b || str_eq c v) c vs h g.1
    ∙ ap some (or_found b (str_eq c v))
  where
    or_found :
        (b e : Bool) → ((b || e) || mem_text c vs) ≡ (b || (if e then true else mem_text c vs))
    or_found true e = refl
    or_found false true = refl
    or_found false false = refl

offered_lem :
    (o : Option String) (allowed : List String)
    → AreAscii allowed
    → offered o allowed ≡ (if raises o allowed then none else some (is_one_of o allowed))
unfolding matches_any
offered_lem none allowed g = refl
offered_lem (some c) [] g = elim (Bool-cases (is_blank c)) [ inl e ↦ rw e refl | inr e ↦ rw e refl ]
offered_lem (some c) (v ∷ vs) g = elim (Bool-cases (is_blank c)) [
  | inl e ↦ rw e refl
  | inr e ↦ elim (Bool-cases (is_ascii c)) [
    | inl f ↦ rw e (matches_from-mem_text false c (v ∷ vs) f g ∙ rw f refl)
    | inr f ↦ rw (e, f) refl
  ]
]

-- Where the configured keys and tokens are of ASCII, `authenticate` grants every request if it is
-- switched off, and else exactly those that offer one of the keys or one of the tokens; it raises
-- exactly if it comes to compare an offered key or token that is not of ASCII.
pub authenticate_grants :
    (headers : Headers) (settings : AuthSettings)
    → AreAscii settings.api_keys
    → AreAscii settings.bearer_tokens
    → let (key, bearer) = extract_credentials headers in
      is_granted (authenticate headers settings) ≡ (
        if not settings.enabled
        then some true
        else if raises key settings.api_keys
        then none
        else if is_one_of key settings.api_keys
        then some true
        else if raises bearer settings.bearer_tokens
        then none
        else some (is_one_of bearer settings.bearer_tokens))
unfolding authenticate
authenticate_grants headers settings keys tokens =
    let (key, bearer) = extract_credentials headers in
    rw (offered_lem key settings.api_keys keys, offered_lem bearer settings.bearer_tokens tokens)
      (elim (Bool-cases settings.enabled) [
        | inl e ↦ elim (Bool-cases (raises key settings.api_keys)) [
          | inl f ↦ rw (e, f) refl
          | inr f ↦ elim (Bool-cases (is_one_of key settings.api_keys)) [
            | inl g ↦ rw (e, f, g) refl
            | inr g ↦ elim (Bool-cases (raises bearer settings.bearer_tokens)) [
              | inl h ↦ rw (e, f, g, h) refl
              | inr h ↦ elim (Bool-cases (is_one_of bearer settings.bearer_tokens)) [
                | inl i ↦ rw (e, f, g, h, i) refl
                | inr i ↦ rw (e, f, g, h, i) refl
              ]
            ]
          ]
        ]
        | inr e ↦ rw e refl
      ])
