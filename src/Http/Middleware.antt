-- ===== src/Http/Middleware.antt =====
-- internal/server/http/middleware/middleware.go: `RequestID`, `Recovery`, `Logger` and `CORS`, and
-- their chain in cmd/server/main.go (there with two more, for traces and metrics). The logger, the
-- uuid package and the rest of the chain are parameters.
pub mod Answers
mod Tests
use storemesh_user_service.Base.{
  ℕ, List, [], ◌∷◌, ◌++◌, Bool, not, ◌&&◌, ◌||◌, ltb, leb, if◌then◌else◌,
}
use storemesh_user_service.Go.Text.{Text, text, ◌==◌, len, trim_space}
use storemesh_user_service.Http.{Request, Response, value, error}

-- What the middleware reads of gin's context: the method, the request and the value that is set
-- under `request_id`.
pub record Exchange : Type 0 where
  pub method : Text
  pub request : Request
  pub request_id : Text

-- How a request ends: with a response, a bare status or a panic.
pub data Answer (A : Type 0) : Type 0 where
  response : Response A → Answer A
  bare : ℕ → Answer A
  panicked : Text → Answer A

-- The headers of the response that are set, in order.
abbrev pub Headers : Type 0
Headers = List (Text × Text)

abbrev pub Next : Type 0 → Type 0 → Type 0
Next S A = Exchange → S → (Headers × Answer A) × S

abbrev pub with_headers :
    {S A : Type 0} → Headers → (Headers × Answer A) × S → (Headers × Answer A) × S
with_headers hs ((headers, answer), s) = ((hs ++ headers, answer), s)

abbrev pub request_id_header : Text
request_id_header = text "X-Request-ID"

abbrev pub maximum_request_id_length : ℕ
maximum_request_id_length = 128

unfoldable pub is_allowed_origin : Text → Bool
is_allowed_origin origin =
    origin == text ""
    || origin == text "http://localhost:3000"
    || origin == text "http://127.0.0.1:3000"

abbrev pub cors_headers : Text → Headers
cors_headers origin =
    (text "Access-Control-Allow-Origin", origin)
    ∷ (text "Vary", text "Origin")
    ∷ (text "Access-Control-Allow-Methods", text "GET, POST, PUT, PATCH, DELETE, OPTIONS")
    ∷ (text "Access-Control-Allow-Headers", text "Authorization, Content-Type, X-Request-ID")
    ∷ (text "Access-Control-Expose-Headers", text "X-Request-ID")
    ∷ (text "Access-Control-Max-Age", text "43200")
    ∷ []

-- The levels of the entry that `Logger` writes.
pub data Level : Type 0 where
  error_level warn_level info_level : Level

abbrev pub level_of : ℕ → Level
level_of status =
    if leb 500 status then error_level else if leb 400 status then warn_level else info_level

abbrev pub status : {A : Type 0} → Response A → ℕ
status (value n a) = n
status (error n m) = n

-- The identifier that the client sent, if it is given and not too long, or else a new one.
unfoldable pub choose_id : {S : Type 0} → (S → Text × S) → Exchange → S → Text × S
choose_id new_uuid c s =
    let given = trim_space (c.request.header request_id_header) in
    if given == text "" || ltb maximum_request_id_length (len given) then new_uuid s else (given, s)

abbrev pub origin_of : Exchange → Text
origin_of c = trim_space (c.request.header (text "Origin"))

module _ {S A : Type 0} where
  unfoldable pub request_id : (S → Text × S) → Next S A → Next S A
  request_id new_uuid next c s =
      with_headers ((request_id_header, (choose_id new_uuid c s).0) ∷ [])
        (next (record c { request_id = (choose_id new_uuid c s).0 }) (choose_id new_uuid c s).1)

  -- The origin of a request, and `CORS` with it.
  abbrev pub cors_for : Text → Next S A → Next S A
  cors_for origin next c s =
      let headers = if is_allowed_origin origin then cors_headers origin else [] in
      if c.method == text "OPTIONS"
      then (
        (
          headers,
          bare (if not (origin == text "") && not (is_allowed_origin origin) then 403 else 204),
        ),
        s,
      )
      else with_headers headers (next c s)

  unfoldable pub cors : Next S A → Next S A
  cors next c s = cors_for (origin_of c) next c s

  abbrev pub recovered : (Text → S → S) → (Headers × Answer A) × S → (Headers × Answer A) × S
  recovered record_panic ((headers, response r), s) = ((headers, response r), s)
  recovered record_panic ((headers, bare n), s) = ((headers, bare n), s)
  recovered record_panic ((headers, panicked m), s) =
      ((headers, response (error 500 (text "internal server error"))), record_panic m s)

  unfoldable pub recovery : (Text → S → S) → Next S A → Next S A
  recovery record_panic next c s = recovered record_panic (next c s)

  -- A panic runs past `Logger`, which then writes no entry.
  abbrev pub logged : (Level → S → S) → (Headers × Answer A) × S → (Headers × Answer A) × S
  logged record_entry ((headers, response r), s) =
      ((headers, response r), record_entry (level_of (status r)) s)
  logged record_entry ((headers, bare n), s) = ((headers, bare n), record_entry (level_of n) s)
  logged record_entry ((headers, panicked m), s) = ((headers, panicked m), s)

  unfoldable pub logger : (Level → S → S) → Next S A → Next S A
  logger record_entry next c s = logged record_entry (next c s)

  -- The chain of `router.Use`, the outermost first.
  unfoldable pub http_chain :
      (S → Text × S) → (Text → S → S) → (Level → S → S) → Next S A → Next S A
  http_chain new_uuid record_panic record_entry next =
      request_id new_uuid (recovery record_panic (logger record_entry (cors next)))
