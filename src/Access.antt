-- ===== src/Access.antt =====
-- The middleware of api/main.py in front of every route, over shared/auth.py and the rate limiter.
--
-- A route is a parameter: what it does to the rest of the server, and the code that it answers with.
-- A request is handled as one step that reads the clock before and after the route. The request id,
-- the logs and the texts of the answers are left out.
pub mod Auth
pub mod Served
mod Tests
use server_api.Prelude.{
  ℕ, ◌+◌, ◌%◌, Bool, not, ◌||◌, Option, none, some, [], ◌∷◌, String, str_eq, mem_text, ◌==◌,
  if◌then◌else◌,
}
use server_api.RateLimiter.{RateLimiter, is_allowed, retry_after, remaining, cleanup}
use server_api.Access.Auth.{AuthSettings, AuthResult, Headers, is_public_path, authenticate}

pub record Request : Type 0 where
  pub method : String
  pub path : String
  pub client_ip : String
  pub headers : Headers

-- The two limiters and the counter of the requests.
pub record Limits : Type 0 where
  pub api_rate_limiter : RateLimiter
  pub read_rate_limiter : RateLimiter
  pub requests : ℕ

-- An answer with its `X-RateLimit` headers, `none` the exception that went through the middleware.
pub record Reply : Type 0 where
  pub status_code : ℕ
  pub retry_after : Option ℕ
  pub remaining : Option ℕ

abbrev pub is_read : Request → Bool
is_read r = mem_text r.method ("GET" ∷ "HEAD" ∷ "OPTIONS" ∷ [])

abbrev pub limiter_of : Request → Limits → RateLimiter
limiter_of r l = if is_read r then l.read_rate_limiter else l.api_rate_limiter

abbrev pub store_limiter : Request → RateLimiter → Limits → Limits
store_limiter r limiter l =
    if is_read r
    then record l { read_rate_limiter = limiter }
    else record l { api_rate_limiter = limiter }

abbrev pub passes_through : AuthSettings → Request → Bool
passes_through settings r =
    not settings.enabled || str_eq r.method "OPTIONS" || is_public_path r.path

-- `max_ips` of `cleanup` is its default, and the interval `_CLEANUP_INTERVAL`.
abbrev clean_limits : ℕ → ℕ → Limits → Limits
clean_limits max_ips now l = record l {
  api_rate_limiter = (cleanup max_ips now l.api_rate_limiter).1;
  read_rate_limiter = (cleanup max_ips now l.read_rate_limiter).1;
}

unfoldable pub count_request : ℕ → ℕ → Limits → Limits
count_request max_ips now l =
    let counted = record l { requests = l.requests + 1 } in
    if l.requests % 100 == 0 then clean_limits max_ips now counted else counted

module _ {ℓ} {S : Type ℓ} (route : Request → S → ℕ × S) where
  abbrev decided : Option AuthResult → Request → S → Option ℕ × S
  decided none r s = (none, s)
  decided (some result) r s =
      if result.authenticated
      then (let (code, after) = route r s in (some code, after))
      else (some 401, s)

  unfoldable pub auth_and_audit : AuthSettings → Request → S → Option ℕ × S
  auth_and_audit settings r s =
      if passes_through settings r
      then (let (code, after) = route r s in (some code, after))
      else decided (authenticate r.headers settings) r s

  abbrev public_reply : Option ℕ → Option Reply
  public_reply none = none
  public_reply (some code) =
      some (record { status_code = code; retry_after = none; remaining = none })

  -- After the route; an exception leaves before the counter is read.
  abbrev limited_reply : ℕ → ℕ → Request → Option ℕ × S → Limits → Option Reply × Limits × S
  limited_reply max_ips later r (none, s) l = (none, l, s)
  limited_reply max_ips later r (some code, s) l =
      let (left, limiter) = remaining r.client_ip later (limiter_of r l) in
      (
        some (record { status_code = code; retry_after = none; remaining = some left }),
        count_request max_ips later (store_limiter r limiter l),
        s,
      )

  unfoldable pub add_request_id_and_rate_limit :
      AuthSettings → ℕ → ℕ → ℕ → Request → Limits → S → Option Reply × Limits × S
  add_request_id_and_rate_limit settings max_ips now later r l s =
      if is_public_path r.path
      then (let (code, after) = auth_and_audit settings r s in (public_reply code, l, after))
      else let (allowed, limiter) = is_allowed r.client_ip now (limiter_of r l) in
        let (wait, waited) = retry_after r.client_ip now limiter in
        if allowed
        then limited_reply max_ips later r (auth_and_audit settings r s) (store_limiter r limiter l)
        else (
          some (record { status_code = 429; retry_after = some wait; remaining = some 0 }),
          store_limiter r waited l,
          s,
        )
