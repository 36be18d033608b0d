-- ===== src/Go/Errors.antt =====
-- Go errors: sentinels, errors that wrap another with `%w`, and errors of other packages.
use storemesh_user_service.Base.{◌++◌, Bool, true, false}
use storemesh_user_service.Go.Text.{Text, text}

-- The error values that the source compares with `errors.Is`: those of internal/domain, and those
-- of go-redis and gorm.
pub data Sentinel : Type 0 where
  err_not_found err_already_exists err_invalid_password err_invalid_token : Sentinel
  err_invalid_input err_unauthorized err_forbidden : Sentinel
  redis_nil tx_failed duplicated_key record_not_found : Sentinel

-- `wrap p e q` is `fmt.Errorf("p%wq", e)`; `other` is an error with a text of its own.
pub data Error : Type 0 where
  is : Sentinel → Error
  wrap : Text → Error → Text → Error
  other : Text → Error

abbrev pub same_sentinel : Sentinel → Sentinel → Bool
same_sentinel err_not_found err_not_found = true
same_sentinel err_already_exists err_already_exists = true
same_sentinel err_invalid_password err_invalid_password = true
same_sentinel err_invalid_token err_invalid_token = true
same_sentinel err_invalid_input err_invalid_input = true
same_sentinel err_unauthorized err_unauthorized = true
same_sentinel err_forbidden err_forbidden = true
same_sentinel redis_nil redis_nil = true
same_sentinel tx_failed tx_failed = true
same_sentinel duplicated_key duplicated_key = true
same_sentinel record_not_found record_not_found = true
same_sentinel _ _ = false

-- `errors.Is`.
abbrev pub errors_is : Error → Sentinel → Bool
errors_is (is s) t = same_sentinel s t
errors_is (wrap p e q) t = errors_is e t
errors_is (other m) t = false

abbrev sentinel_message : Sentinel → Text
sentinel_message err_not_found = text "not found"
sentinel_message err_already_exists = text "already exists"
sentinel_message err_invalid_password = text "invalid credentials"
sentinel_message err_invalid_token = text "invalid or expired token"
sentinel_message err_invalid_input = text "invalid input"
sentinel_message err_unauthorized = text "unauthorized"
sentinel_message err_forbidden = text "forbidden"
sentinel_message redis_nil = text "redis: nil"
sentinel_message tx_failed = text "redis: transaction failed"
sentinel_message duplicated_key = text "duplicated key not allowed"
sentinel_message record_not_found = text "record not found"

-- `err.Error()`.
unfoldable pub message : Error → Text
message (is s) = sentinel_message s
message (wrap p e q) = p ++ (message e ++ q)
message (other m) = m
