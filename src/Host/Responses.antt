-- ===== src/Host/Responses.antt =====
-- The answers to failures of crates/boardproof-host/src/api.rs: the status and the body's two fields.
use uniclaw.Prelude.{ℕ, Text, text}
use uniclaw.Host.{ApiError, bad_request, not_found, conflict, internal}

pub record ErrorBody : Type 0 where
  pub error : Text
  pub detail : Text

-- `ApiError::into_response`
unfoldable pub into_response : ApiError → ℕ × ErrorBody
into_response (bad_request d) = (400, record { error = text "bad_request"; detail = d })
into_response (not_found d) = (404, record { error = text "not_found"; detail = d })
into_response (conflict d) = (409, record { error = text "conflict"; detail = d })
into_response (internal d) = (500, record { error = text "internal"; detail = d })

-- The answer where the bearer token is missing or wrong.
unfoldable pub unauthorized : Text → ℕ × ErrorBody
unauthorized detail = (401, record { error = text "unauthorized"; detail = detail })
