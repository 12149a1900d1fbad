-- ===== src/Notifications/Dispatcher.antt =====
-- api/notifications/dispatcher.py: how one HTTP exchange becomes a `DispatchResult`.
--
-- The HTTP client is not modelled: an exchange is what it hands back, a response with the chunks of
-- its body and the decoder of its encoding, or an exception of some class.
use server_api.Prelude.{
  ℕ, zero, suc, ◌<◌, ◌↔◌, sym, inl, inr, Bool-cases, leb→le, ltb→lt, ◌≡◌, ◌≤◌, ap, ◌∙◌, Bool, true,
  false, ◌&&◌, Option, none, some, String, List, [], ◌∷◌, ◌++◌, ltb, leb, if◌then◌else◌, length,
  take, arith, refl,
}
use mathlib.Core.List.{flatten, append_assoc, append-nil}
use server_api.Notifications.Model.{success, failure, DispatchResult}

-- The `Retry-After` header, as `float(raw)` reads it; a number is in microseconds.
pub data Header : Type 0 where
  absent malformed negative : Header
  number : ℕ → Header

unfoldable pub parse_retry_after_header : Header → Option ℕ
parse_retry_after_header (number v) = if ltb 0 v then some v else none
parse_retry_after_header _ = none

-- The class of an exception, as far as a handler can tell; `ValueError` has its subclasses.
pub data ExceptionClass : Type 0 where
  http_error os_error value_error runtime_error type_error other_error : ExceptionClass

-- `except (httpx.HTTPError, OSError, ValueError)`.
abbrev pub is_handled : ExceptionClass → Bool
is_handled http_error = true
is_handled os_error = true
is_handled value_error = true
is_handled _ = false

pub data Exchange : Type 0 where
  response :
      (status_code : ℕ) (chunks : List (List ℕ)) (decode : List ℕ → String) (retry_after : Header)
      (duration_ms : ℕ)
      → Exchange
  -- with its text, `type: message`
  thrown : (exception : ExceptionClass) (message : String) (duration_ms : ℕ) → Exchange

-- `s[:n]`.
abbrev pub first_chars : ℕ → String → String
first_chars zero s = String.[]
first_chars (suc n) String.[] = String.[]
first_chars (suc n) (String.◌∷◌ c s) = String.◌∷◌ c (first_chars n s)

abbrev pub failed_result : String → ℕ → DispatchResult
failed_result message duration_ms = record {
  status = failure;
  response_status = none;
  response_body = none;
  error = some message;
  duration_ms = duration_ms;
  retry_after = none;
}

abbrev pub is_success_code : ℕ → Bool
is_success_code code = leb 200 code && ltb code 300

pub data Sent : Type 0 where
  returned : DispatchResult → Sent
  raised : String → Sent

abbrev pub max_body_read_bytes : ℕ
max_body_read_bytes = 16384

-- The loop over `iter_bytes()`, which stops once the buffer is long enough.
unfoldable pub read_chunks : ℕ → List ℕ → List (List ℕ) → List ℕ
read_chunks most raw [] = raw
read_chunks most raw (chunk ∷ chunks) =
    let more = read_chunks most (raw ++ chunk) chunks in
    if leb most (length (raw ++ chunk)) then raw ++ chunk else more

-- `bytes(raw[:MAX_BODY_READ_BYTES])`.
unfoldable pub read_body : List (List ℕ) → List ℕ
unfolding read_chunks
read_body chunks = take max_body_read_bytes (read_chunks max_body_read_bytes [] chunks)

abbrev pub max_body_capture : ℕ
max_body_capture = 1024

unfoldable pub send : Exchange → Sent
unfolding parse_retry_after_header
send (response code chunks decode header duration_ms) = returned (record {
  status = if is_success_code code then success else failure;
  response_status = some code;
  response_body = some (first_chars max_body_capture (decode (read_body chunks)));
  error = none;
  duration_ms = duration_ms;
  retry_after = parse_retry_after_header header;
})
send (thrown exception message duration_ms) =
    if is_handled exception
    then returned (failed_result (first_chars max_body_capture message) duration_ms)
    else raised message

take-append : (n : ℕ) (xs ys : List ℕ) → n ≤ length xs → take n (xs ++ ys) ≡ take n xs
take-append zero xs ys h = refl
take-append (suc n) [] ys h = absurd (omega arith)
take-append (suc n) (x ∷ xs) ys h = ap (◌∷◌ x) (take-append n xs ys (omega arith))

abbrev pub IsPositive : Option ℕ → Type 0
IsPositive none = Unit
IsPositive (some v) = 0 < v

read_chunks_lem :
    (most : ℕ) (raw : List ℕ) (chunks : List (List ℕ))
    → take most (read_chunks most raw chunks) ≡ take most (raw ++ flatten chunks)
unfolding read_chunks flatten
read_chunks_lem most raw [] = ap (take most) (sym (append-nil raw))
read_chunks_lem most raw (chunk ∷ chunks) = elim (Bool-cases (leb most (length (raw ++ chunk)))) [
  | inl e ↦ rw e (
      sym (take-append most (raw ++ chunk) (flatten chunks) (leb→le _ _ e))
      ∙ ap (take most) (append_assoc raw chunk (flatten chunks)))
  | inr e ↦ rw e (
      read_chunks_lem most (raw ++ chunk) chunks
      ∙ ap (take most) (append_assoc raw chunk (flatten chunks)))
]

-- Stopping early loses nothing that is kept: the bytes kept of a body are the first
-- `max_body_read_bytes` of the whole body, however it comes in chunks.
pub read_body-take :
    (chunks : List (List ℕ)) → read_body chunks ≡ take max_body_read_bytes (flatten chunks)
unfolding read_body
read_body-take chunks = read_chunks_lem max_body_read_bytes [] chunks

parse_retry_after_header_lem : (header : Header) → IsPositive (parse_retry_after_header header)
unfolding parse_retry_after_header
parse_retry_after_header_lem (number v) = elim (Bool-cases (ltb 0 v)) [
  | inl e ↦ rw e (ltb→lt 0 v e)
  | inr e ↦ rw e tt
]
parse_retry_after_header_lem _ = tt

-- A failure without a response, with its reason.
abbrev IsFailure : String → Sent → Type 0
IsFailure message (returned result) =
    (result.status ≡ failure)
    × (result.response_status ≡ none)
    × (result.retry_after ≡ none)
    × (result.error ≡ some (first_chars 1024 message))
IsFailure message (raised text) = ⊥

abbrev IsAnswer : ℕ → List ℕ → (List ℕ → String) → Sent → Type 0
IsAnswer code body decode (returned result) =
    ((result.status ≡ success) ↔ ((200 ≤ code) × (code < 300)))
    × (result.response_status ≡ some code)
    × (result.response_body ≡ some (first_chars 1024 (decode (take 16384 body))))
    × (result.error ≡ none)
    × IsPositive result.retry_after
IsAnswer code body decode (raised text) = ⊥

abbrev pub HasOutcome : Exchange → Sent → Type 0
HasOutcome (response code chunks decode header duration_ms) sent =
    IsAnswer code (flatten chunks) decode sent
HasOutcome (thrown http_error message duration_ms) sent = IsFailure message sent
HasOutcome (thrown os_error message duration_ms) sent = IsFailure message sent
HasOutcome (thrown value_error message duration_ms) sent = IsFailure message sent
HasOutcome (thrown runtime_error message duration_ms) sent = sent ≡ raised message
HasOutcome (thrown type_error message duration_ms) sent = sent ≡ raised message
HasOutcome (thrown other_error message duration_ms) sent = sent ≡ raised message

-- A response is returned with its code, as a success exactly for a 2xx one, with the first 1024
-- characters of what the first 16384 bytes of the whole body decode to, however the body comes in
-- chunks, and with a positive wait if with any; an HTTP, system or value error is returned as a
-- failure with the first 1024 characters of its text, and any other exception is raised.
pub send_outcome : (exchange : Exchange) → HasOutcome exchange (send exchange)
unfolding send
send_outcome (response code chunks decode header duration_ms) = (
  (λ p. ground arith, λ p. ground arith),
  refl,
  ap (λ z. some (first_chars 1024 (decode z))) (read_body-take chunks),
  refl,
  parse_retry_after_header_lem header,
)
send_outcome (thrown http_error message duration_ms) = (refl, refl, refl, refl)
send_outcome (thrown os_error message duration_ms) = (refl, refl, refl, refl)
send_outcome (thrown value_error message duration_ms) = (refl, refl, refl, refl)
send_outcome (thrown runtime_error message duration_ms) = refl
send_outcome (thrown type_error message duration_ms) = refl
send_outcome (thrown other_error message duration_ms) = refl
