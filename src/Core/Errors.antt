-- ===== src/Core/Errors.antt =====
-- app/core/exceptions.py and the messages of app/core/messages.py that the services raise.
use prompt_studio_backend.Prelude.{ℕ, String, List, []}

-- The structured half of a stale save's conflict.
pub record ErrorDetail : Type 0 where
  pub field : String
  pub message : String
  pub current_version : ℕ
  pub sent_version : ℕ

-- `class AppError`: a message, a status code, and structured details.
pub record AppError : Type 0 where
  pub message : String
  pub status_code : ℕ
  pub errors : List ErrorDetail

abbrev pub not_found_error : String → AppError
not_found_error m = record { message = m; status_code = 404; errors = [] }

abbrev pub authentication_error : String → AppError
authentication_error m = record { message = m; status_code = 401; errors = [] }

abbrev pub authorization_error : String → AppError
authorization_error m = record { message = m; status_code = 403; errors = [] }

abbrev pub conflict_error : String → List ErrorDetail → AppError
conflict_error m details = record { message = m; status_code = 409; errors = details }

abbrev pub validation_error : String → AppError
validation_error m = record { message = m; status_code = 422; errors = [] }

abbrev pub rate_limit_error : String → AppError
rate_limit_error m = record { message = m; status_code = 429; errors = [] }
