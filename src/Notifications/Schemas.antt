-- ===== src/Notifications/Schemas.antt =====
-- The validators of api/notifications/schemas.py; `none` is `ValueError`.
--
-- `urlparse`, `ip_address`, `str.lower` and the two environment variables are those of the host.
pub mod Urls
pub mod EventTypes
use server_api.Prelude.{
  ℕ, Bool, true, false, not, ◌&&◌, ◌||◌, Option, none, some, List, [], ◌∷◌, ◌++◌, String, ltb, ◌==◌,
  str_eq, if◌then◌else◌, length, codes, codes_eq, strip, rstrip, lower, text_length, is_blank,
  mem_text, split_on,
}

pub record Flags : Type 0 where
  pub is_loopback : Bool
  pub is_unspecified : Bool
  pub is_link_local : Bool
  pub is_multicast : Bool
  pub is_reserved : Bool
  pub is_private : Bool

-- An address, and the IPv4 address that an IPv6 one maps.
pub record Ip : Type 0 where
  pub flags : Flags
  pub ipv4_mapped : Option Flags

pub record Url : Type 0 where
  pub scheme : String
  pub netloc : String
  pub hostname : Option String

pub record UrlHost : Type 0 where
  pub urlparse : String → Option Url
  pub ip_address : String → Option Ip
  pub to_lower : String → String
  pub block_private_ips : String
  pub blocked_hosts : String

pub data Reason : Type 0 where
  loopback_or_unspecified link_local multicast_or_reserved private_range : Reason

abbrev pub mapped_or_own : Ip → Flags
mapped_or_own ip = elim ip.ipv4_mapped [ none ↦ ip.flags | some m ↦ m ]

-- `raw.strip().lower() in _TRUTHY`.
abbrev pub is_truthy : String → Bool
is_truthy raw =
    let word = lower (codes (strip raw)) in
    codes_eq word (codes "1")
    || codes_eq word (codes "true")
    || codes_eq word (codes "yes")
    || codes_eq word (codes "on")

abbrev pub flags_reason : Bool → Flags → Option Reason
flags_reason block_private ip =
    if ip.is_loopback || ip.is_unspecified
    then some loopback_or_unspecified
    else if ip.is_link_local
    then some link_local
    else if ip.is_multicast || ip.is_reserved
    then some multicast_or_reserved
    else if block_private && ip.is_private
    then some private_range
    else none

unfoldable pub blocked_ip_reason : UrlHost → String → Option Reason
blocked_ip_reason host hostname = elim (host.ip_address hostname) [
  | none ↦ none
  | some ip ↦ flags_reason (is_truthy host.block_private_ips) (mapped_or_own ip)
]

abbrev pub is_dot : ℕ → Bool
is_dot c = c == 46

abbrev pub text_or_empty : Option String → String
text_or_empty none = ""
text_or_empty (some s) = s

-- `(parsed.hostname or "").rstrip(".").lower()`.
abbrev pub hostname_of : UrlHost → Url → String
hostname_of host parsed = host.to_lower (rstrip is_dot (text_or_empty parsed.hostname))

abbrev pub blocked_names : UrlHost → List String → List String
blocked_names host [] = []
blocked_names host (h ∷ hs) =
    let rest = blocked_names host hs in
    if is_blank (strip h) then rest else host.to_lower (strip h) ∷ rest

abbrev pub blocked : UrlHost → List String
blocked host = blocked_names host (split_on 44 host.blocked_hosts)

abbrev pub is_allowed_scheme : String → Bool
is_allowed_scheme s = str_eq s "http" || str_eq s "https"

abbrev pub is_none {ℓ} : {A : Type ℓ} → Option A → Bool
is_none none = true
is_none (some a) = false

-- The checks on the parsed address.
abbrev pub check_parsed : UrlHost → String → Option Url → Option String
check_parsed host url none = none
check_parsed host url (some parsed) =
    let hostname = hostname_of host parsed in
    if not (is_allowed_scheme parsed.scheme)
    then none
    else if is_blank parsed.netloc
    then none
    else if str_eq hostname "localhost"
    then none
    else if not (is_none (blocked_ip_reason host hostname))
    then none
    else if mem_text hostname (blocked host)
    then none
    else some url

unfoldable pub validate_webhook_url : UrlHost → String → Option String
validate_webhook_url host url =
    if is_blank url
    then none
    else if ltb 2048 (text_length url)
    then none
    else check_parsed host url (host.urlparse url)

-- One entry: a blank one and one that is there already are left out.
abbrev pub keep_type : String → List String → List String
keep_type t out = if is_blank t || mem_text t out then out else out ++ t ∷ []

abbrev pub dedup_types : List String → List String → Option (List String)
dedup_types out [] = some out
dedup_types out (t ∷ ts) =
    let rest = dedup_types (keep_type (strip t) out) ts in
    if ltb 128 (text_length (strip t)) then none else rest

unfoldable pub validate_event_types : List String → Option (List String)
validate_event_types types = if ltb 64 (length types) then none else dedup_types [] types
