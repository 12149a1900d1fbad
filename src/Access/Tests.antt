-- ===== src/Access/Tests.antt =====
-- Requests with and without a key.
use server_api.Prelude.{ℕ, suc, ◌≡◌, refl, true, not, ◌&&◌, none, some, [], ◌∷◌, if◌then◌else◌, get}
use server_api.RateLimiter.{init, drop_expired, is_allowed}
use server_api.Access.{Request, Limits, add_request_id_and_rate_limit, auth_and_audit}
use server_api.Access.Auth.{
  AuthSettings, Headers, extract_credentials, get_header, matches_any, mask_secret, authenticate,
}
use server_api.Access.Auth.Grants.{is_granted, is_one_of, raises, authenticate_grants}
use server_api.Access.Served.{is_admitted, reaches, code_of, is_none, request_served}

abbrev settings : AuthSettings
settings = record { enabled = true; api_keys = "secret-1a2b" ∷ []; bearer_tokens = "token" ∷ [] }

abbrev with_key : Headers
with_key = ("X-API-Key", " secret-1a2b ") ∷ []

key_granted : is_granted (authenticate with_key settings) ≡ some true
unfolding authenticate extract_credentials get_header get matches_any
key_granted = refl

key_masked : mask_secret "secret-1a2b" ≡ "****1a2b"
unfolding mask_secret
key_masked = refl

authenticate_grants_example :
    let (key, bearer) = extract_credentials with_key in
    is_granted (authenticate with_key settings) ≡ (
      if not settings.enabled
      then some true
      else if raises key settings.api_keys
      then none
      else if is_one_of key settings.api_keys
      then some true
      else if raises bearer settings.bearer_tokens
      then none
      else some (is_one_of bearer settings.bearer_tokens))
authenticate_grants_example = authenticate_grants with_key settings (refl, tt) (refl, tt)

abbrev posting : Headers → Request
posting headers = record {
  method = "POST";
  path = "/materials/backup";
  client_ip = "10.0.0.1";
  headers = headers;
}

abbrev limits : Limits
limits = record { api_rate_limiter = init 1 60; read_rate_limiter = init 2 60; requests = 0 }

abbrev counting : Request → ℕ → ℕ × ℕ
counting r n = (200, suc n)

refused_without_key :
    code_of (add_request_id_and_rate_limit counting settings 1000 5 6 (posting []) limits 0).0
    ≡ some 401
unfolding add_request_id_and_rate_limit auth_and_audit authenticate extract_credentials get_header
    get is_allowed drop_expired
refused_without_key = refl

request_served_example :
    let (reply, after_limits, after) =
      add_request_id_and_rate_limit counting settings 1000 5 6 (posting with_key) limits 0 in
    (after ≡ (
      if is_admitted 5 (posting with_key) limits && reaches settings (posting with_key)
      then 1
      else 0))
    × (code_of reply ≡ (
        if not (is_admitted 5 (posting with_key) limits)
        then some 429
        else if reaches settings (posting with_key)
        then some 200
        else if is_none (authenticate with_key settings)
        then none
        else some 401))
request_served_example = request_served counting settings 1000 5 6 (posting with_key) limits 0
