-- ===== src/Access/Auth.antt =====
-- shared/auth.py.
--
-- Header names are of ASCII, as HTTP has them. The sets of keys and tokens are lists. An answer of
-- `none` is the `TypeError` that `compare_digest` raises for a text that is not of ASCII.
pub mod Grants
use server_api.Prelude.{
  ℕ, zero, suc, ◌-◌, Bool, true, false, not, ◌&&◌, ◌||◌, Option, none, some, List, [], ◌∷◌, String,
  ltb, leb, str_eq, codes, codes_eq, lower, strip, is_blank, mem_text, text_length, if◌then◌else◌,
  Dict, get,
}
use Prim.Native.Char.{code}
use Prim.Native.String.{◌++◌ as text_append}

abbrev public_paths : List String
public_paths = "/" ∷ "/healthz" ∷ "/docs" ∷ "/redoc" ∷ "/openapi.json" ∷ []

abbrev pub is_public_path : String → Bool
is_public_path path = mem_text path public_paths

pub record AuthSettings : Type 0 where
  pub enabled : Bool
  pub api_keys : List String
  pub bearer_tokens : List String

pub record AuthResult : Type 0 where
  pub authenticated : Bool
  pub principal : Option String
  pub method : Option String
  pub reason : Option String

abbrev drop_chars : ℕ → String → String
drop_chars zero s = s
drop_chars (suc n) String.[] = String.[]
drop_chars (suc n) (String.◌∷◌ c s) = drop_chars n s

unfoldable pub mask_secret : String → String
mask_secret secret =
    if ltb 4 (text_length secret)
    then text_append "****" (drop_chars (text_length secret - 4) secret)
    else "****"

abbrev pub Headers : Type 0
Headers = Dict String

-- The first header whose name is the same in lower case.
abbrev by_lower_name : String → Headers → Option String
by_lower_name name [] = none
by_lower_name name ((key, value) ∷ hs) =
    let rest = by_lower_name name hs in
    if codes_eq (lower (codes key)) (lower (codes name)) then some value else rest

abbrev or_by_lower : Option String → String → Headers → Option String
or_by_lower (some value) name headers = some value
or_by_lower none name headers = by_lower_name name headers

unfoldable pub get_header : Headers → String → Option String
get_header headers name = or_by_lower (get name headers) name headers

-- `api_key.strip() if api_key else None`.
abbrev stripped : Option String → Option String
stripped none = none
stripped (some s) = if is_blank s then none else some (strip s)

abbrev begins : List ℕ → List ℕ → Bool
begins [] t = true
begins (c ∷ p) [] = false
begins (c ∷ p) (d ∷ t) = codes_eq (c ∷ []) (d ∷ []) && begins p t

abbrev or_none : String → Option String
or_none s = if is_blank s then none else some s

abbrev bearer_of : Option String → Option String
bearer_of none = none
bearer_of (some authz) =
    if begins (codes "bearer ") (lower (codes authz))
    then or_none (strip (drop_chars 7 authz))
    else none

unfoldable pub extract_credentials : Headers → Option String × Option String
extract_credentials headers =
    (stripped (get_header headers "x-api-key"), bearer_of (get_header headers "authorization"))

abbrev pub is_ascii : String → Bool
is_ascii String.[] = true
is_ascii (String.◌∷◌ c s) = leb (code c) 127 && is_ascii s

abbrev pub compare_digest : String → String → Option Bool
compare_digest a b = if is_ascii a && is_ascii b then some (str_eq a b) else none

abbrev pub unless_raised : (Bool → Option Bool) → Option Bool → Option Bool
unless_raised f none = none
unless_raised f (some b) = f b

-- The loop over all values, without an early return.
abbrev matches_from : Bool → String → List String → Option Bool
matches_from matched candidate [] = some matched
matches_from matched candidate (v ∷ vs) =
    unless_raised (λ b. matches_from (matched || b) candidate vs) (compare_digest candidate v)

unfoldable pub matches_any : String → List String → Option Bool
matches_any = matches_from false

-- `credential and _matches_any(credential, allowed)`.
abbrev pub offered : Option String → List String → Option Bool
offered none allowed = some false
offered (some c) allowed = if is_blank c then some false else matches_any c allowed

abbrev pub is_given : Option String → Bool
is_given none = false
is_given (some c) = not (is_blank c)

abbrev granted : String → String → Option String → AuthResult
granted label method credential = record {
  authenticated = true;
  principal = elim credential [
    | none ↦ none
    | some c ↦ some (text_append label (text_append ":" (mask_secret c)))
  ];
  method = some method;
  reason = none;
}

abbrev refused : Bool → AuthResult
refused given = record {
  authenticated = false;
  principal = none;
  method = none;
  reason = some (if given then "invalid_credentials" else "missing_credentials");
}

abbrev by_bearer : Option Bool → Bool → Option String → Option AuthResult
by_bearer none given bearer = none
by_bearer (some true) given bearer = some (granted "bearer" "bearer" bearer)
by_bearer (some false) given bearer = some (refused given)

abbrev by_key : Option Bool → Option String → Option Bool → Bool → Option String → Option AuthResult
by_key none api_key second given bearer = none
by_key (some true) api_key second given bearer = some (granted "apikey" "api_key" api_key)
by_key (some false) api_key second given bearer = by_bearer second given bearer

abbrev open_access : AuthResult
open_access = record {
  authenticated = true;
  principal = none;
  method = none;
  reason = some "auth_disabled";
}

unfoldable pub authenticate : Headers → AuthSettings → Option AuthResult
authenticate headers settings =
    let (api_key, bearer) = extract_credentials headers in
    if not settings.enabled
    then some open_access
    else by_key (offered api_key settings.api_keys) api_key (offered bearer settings.bearer_tokens)
        (is_given api_key || is_given bearer) bearer
