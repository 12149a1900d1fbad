-- ===== src/Notifications/Schemas/Urls.antt =====
-- What `validate_webhook_url` lets through.
use server_api.Prelude.{
  ◌≤◌, ◌≡◌, refl, Bool, true, false, not, ◌&&◌, ◌||◌, Option, none, some, String, arith, ltb,
  if◌then◌else◌, str_eq, is_blank, text_length, mem_text,
}
use server_api.Notifications.Schemas.{
  Flags, Ip, Reason, UrlHost, Url, mapped_or_own, is_truthy, flags_reason, blocked_ip_reason,
  hostname_of, blocked, is_allowed_scheme, is_none, check_parsed, validate_webhook_url,
}

-- An address that no webhook may have.
abbrev is_forbidden : Bool → Flags → Bool
is_forbidden block_private ip =
    ip.is_loopback
    || ip.is_unspecified
    || ip.is_link_local
    || ip.is_multicast
    || ip.is_reserved
    || block_private && ip.is_private

flags_reason-is_forbidden :
    (b : Bool) (ip : Flags) → is_none (flags_reason b ip) ≡ not (is_forbidden b ip)
flags_reason-is_forbidden b ip = ground arith

-- The name or the address of the host is one that a webhook may have.
abbrev IsReachableHost : UrlHost → String → Type 0
IsReachableHost host hostname =
    (str_eq hostname "localhost" ≡ false)
    × (mem_text hostname (blocked host) ≡ false)
    × elim (host.ip_address hostname) as (λ o. Type 0) [
      | none ↦ Unit
      | some ip ↦ is_forbidden (is_truthy host.block_private_ips) (mapped_or_own ip) ≡ false
    ]

abbrev pub IsGood : UrlHost → Option Url → Type 0
IsGood host o =
    (parsed : Url) × (o ≡ some parsed)
    × (is_allowed_scheme parsed.scheme ≡ true)
    × (is_blank parsed.netloc ≡ false)
    × IsReachableHost host (hostname_of host parsed)

pub guard_passed {ℓ} :
    {A : Type ℓ} (b : Bool) (r : Option A) (x : A)
    → (if b then none else r) ≡ some x
    → (b ≡ false) × (r ≡ some x)
guard_passed true r x h = ground arith
guard_passed false r x h = (refl, h)

ip_allowed :
    (b : Bool) (o : Option Ip)
    → not (
        is_none (elim o as (λ z. Option Reason) [
          | none ↦ none
          | some ip ↦ flags_reason b (mapped_or_own ip)
        ]))
      ≡ false
    → elim o as (λ z. Type 0) [ none ↦ Unit | some ip ↦ is_forbidden b (mapped_or_own ip) ≡ false ]
ip_allowed b none h = tt
ip_allowed b (some ip) h = ground (arith, flags_reason-is_forbidden b (mapped_or_own ip))

check_parsed-some :
    (host : UrlHost) (url accepted : String) (o : Option Url)
    → check_parsed host url o ≡ some accepted
    → (accepted ≡ url) × IsGood host o
unfolding blocked_ip_reason
check_parsed-some host url accepted none h = ground arith
check_parsed-some host url accepted (some parsed) h =
    let name = hostname_of host parsed in
    let scheme = guard_passed (not (is_allowed_scheme parsed.scheme)) _ accepted h in
    let netloc = guard_passed (is_blank parsed.netloc) _ accepted scheme.1 in
    let local = guard_passed (str_eq name "localhost") _ accepted netloc.1 in
    let ip = guard_passed (not (is_none (blocked_ip_reason host name))) _ accepted local.1 in
    let named = guard_passed (mem_text name (blocked host)) _ accepted ip.1 in
    (
      cc,
      (
        parsed,
        refl,
        ground (arith, scheme.0),
        netloc.0,
        (
          local.0,
          named.0,
          ip_allowed (is_truthy host.block_private_ips) (host.ip_address name) ip.0,
        ),
      ),
    )

-- A URL that is accepted is the one given, not empty, of at most 2048 characters; it parses, with
-- the scheme http or https and a network location that is not blank; its host name, which may be
-- empty, is not `localhost`, not among the blocked names,
-- and no literal of a loopback, unspecified, link-local, multicast or reserved address, nor of a
-- private one if those are blocked. An IPv4 address that an IPv6 one maps counts in its place.
pub validate_webhook_url_lem :
    (host : UrlHost) (url accepted : String)
    → validate_webhook_url host url ≡ some accepted
    → (is_blank url ≡ false)
      × (text_length url ≤ 2048)
      × (accepted ≡ url)
      × IsGood host (host.urlparse url)
unfolding validate_webhook_url
validate_webhook_url_lem host url accepted h =
    let full = guard_passed (is_blank url) _ accepted h in
    let short = guard_passed (ltb 2048 (text_length url)) _ accepted full.1 in
    let parsed = check_parsed-some host url accepted (host.urlparse url) short.1 in
    (full.0, ground (arith, short.0), parsed.0, parsed.1)
