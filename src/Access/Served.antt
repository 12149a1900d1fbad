-- ===== src/Access/Served.antt =====
-- What happens to a request.
use server_api.Prelude.{
  ℕ, ◌≡◌, refl, Bool, true, false, not, ◌&&◌, ◌||◌, Option, none, some, Bool-cases, inl, inr,
  if◌then◌else◌,
}
use server_api.RateLimiter.{is_allowed}
use server_api.Access.{
  Request, Limits, Reply, limiter_of, passes_through, auth_and_audit, add_request_id_and_rate_limit,
}
use server_api.Access.Auth.{AuthSettings, AuthResult, is_public_path, authenticate}

-- The authentication comes to an exception, or to a grant.
abbrev pub is_none : Option AuthResult → Bool
is_none none = true
is_none (some r) = false

abbrev pub is_grant : Option AuthResult → Bool
is_grant none = false
is_grant (some r) = r.authenticated

abbrev pub reaches : AuthSettings → Request → Bool
reaches settings r = passes_through settings r || is_grant (authenticate r.headers settings)

abbrev pub is_admitted : ℕ → Request → Limits → Bool
is_admitted now r l = is_public_path r.path || (is_allowed r.client_ip now (limiter_of r l)).0

abbrev pub code_of : Option Reply → Option ℕ
code_of none = none
code_of (some reply) = some reply.status_code

module _ {ℓ} {S : Type ℓ} (route : Request → S → ℕ × S) where
  abbrev pub outcome : AuthSettings → Request → S → Option ℕ × S
  outcome settings r s =
      if reaches settings r
      then (some (route r s).0, (route r s).1)
      else if is_none (authenticate r.headers settings)
      then (none, s)
      else (some 401, s)

  auth_and_audit_lem :
      (settings : AuthSettings) (r : Request) (s : S)
      → auth_and_audit route settings r s ≡ outcome settings r s
  unfolding auth_and_audit
  auth_and_audit_lem settings r s = elim (Bool-cases (passes_through settings r)) [
    | inl e ↦ rw e refl
    | inr e ↦ rw e (decided_lem (authenticate r.headers settings))
  ]
    where
      decided_lem :
          (o : Option AuthResult)
          → server_api.Access.decided route o r s ≡ (
              if is_grant o
              then (some (route r s).0, (route r s).1)
              else if is_none o
              then (none, s)
              else (some 401, s))
      decided_lem none = refl
      decided_lem (some result) = refl

  -- The route changes the server exactly if the limiter of the request's kind admits the request, or
  -- its path is public, and the request is granted or needs no grant; it is then answered as the
  -- route answers. Else the server is as before, and the answer is 429 if the request is not
  -- admitted, and if it is, an exception where its credentials raise one and 401 where not.
  pub request_served :
      (settings : AuthSettings) (max_ips now later : ℕ) (r : Request) (l : Limits) (s : S)
      → let (reply, limits, after) =
          add_request_id_and_rate_limit route settings max_ips now later r l s in
        (after ≡ (if is_admitted now r l && reaches settings r then (route r s).1 else s))
        × (code_of reply ≡ (
            if not (is_admitted now r l)
            then some 429
            else if reaches settings r
            then some (route r s).0
            else if is_none (authenticate r.headers settings)
            then none
            else some 401))
  unfolding add_request_id_and_rate_limit
  request_served settings max_ips now later r l s =
      let auth = auth_and_audit_lem settings r s in
      elim (Bool-cases (is_public_path r.path)) [
        | inl e ↦ elim (Bool-cases (reaches settings r)) [
          | inl g ↦ rw (auth, g, e) (refl, refl)
          | inr g ↦ elim (Bool-cases (is_none (authenticate r.headers settings))) [
            | inl h ↦ rw (auth, g, h, e) (refl, refl)
            | inr h ↦ rw (auth, g, h, e) (refl, refl)
          ]
        ]
        | inr e ↦ elim (Bool-cases (is_allowed r.client_ip now (limiter_of r l)).0) [
          | inl f ↦ elim (Bool-cases (reaches settings r)) [
            | inl g ↦ rw (auth, g, e, f) (refl, refl)
            | inr g ↦ elim (Bool-cases (is_none (authenticate r.headers settings))) [
              | inl h ↦ rw (auth, g, h, e, f) (refl, refl)
              | inr h ↦ rw (auth, g, h, e, f) (refl, refl)
            ]
          ]
          | inr f ↦ rw (e, f) (refl, refl)
        ]
      ]
