-- ===== src/Prelude/Responses.antt =====
-- What a route answers with.
use Prim.Native.Nat.{ℕ}

-- A value, or the status code of an error.
pub data Response {ℓ} (A : Type ℓ) : Type ℓ where
  ok : A → Response A
  http_error : ℕ → Response A
