-- ===== src/Http/Middleware/Tests.antt =====
-- The chain on requests of a browser, with a counter for the identifiers.
use storemesh_user_service.Base.{
  ℕ, suc, ◌≡◌, ◌≢◌, ◌≤◌, ◌⊎◌, refl, [], ◌∷◌, true, false, none, if◌then◌else◌, arith,
}
use storemesh_user_service.Go.Text.{Text, text, ◌==◌, len, trim_space}
use storemesh_user_service.Http.Middleware.{
  Exchange, bare, panicked, Headers, Next, with_headers, request_id_header,
  maximum_request_id_length, is_allowed_origin, cors_headers, cors, origin_of, http_chain,
}
use storemesh_user_service.Http.Middleware.Answers.{http_chain_answers, cors_cases}

abbrev new_id : ℕ → Text × ℕ
new_id n = (text "new", suc n)

abbrev preflight : Text → Exchange
preflight origin = record {
  method = text "OPTIONS";
  request = record {
    context = record { claims = none; incoming = none };
    header = λ name. if name == text "Origin" then origin else text "";
    param = λ name. text "";
  };
  request_id = text "";
}

abbrev failing : Next ℕ Text
failing c s = (([], panicked (text "nil map")), s)

abbrev evil : Exchange
evil = preflight (text "http://evil.example")

abbrev request : Exchange
request = record evil { method = text "GET" }

new_id-given : (s : ℕ) → (new_id s).0 ≢ text ""
new_id-given s h = cc h

new_id-short : (s : ℕ) → len (new_id s).0 ≤ maximum_request_id_length
unfolding len
new_id-short s = omega arith

http_chain_answers_example :
    let m = http_chain new_id (λ m s. s) (λ level s. s) failing request 0 in
    (id : Text) × (rest : Headers) × (m.0.0 ≡ (request_id_header, id) ∷ rest)
    × (id ≢ text "")
    × (len id ≤ maximum_request_id_length)
    × ((message : Text) → m.0.1 ≢ panicked message)
http_chain_answers_example =
    http_chain_answers new_id (λ m s. s) (λ level s. s) failing new_id-given new_id-short request 0

cors_cases_example :
    (headers : Headers) × (((is_allowed_origin (origin_of evil) ≡ true)
        × (headers ≡ cors_headers (origin_of evil)))
      ⊎ ((is_allowed_origin (origin_of evil) ≡ false) × (headers ≡ [])))
    × (((evil.method ≢ text "OPTIONS")
          × (cors failing evil 0 ≡ with_headers headers (failing evil 0)))
        ⊎ ((evil.method ≡ text "OPTIONS")
            × (((is_allowed_origin (origin_of evil) ≡ false)
                  × (cors failing evil 0 ≡ ((headers, bare 403), 0)))
                ⊎ ((is_allowed_origin (origin_of evil) ≡ true)
                    × (cors failing evil 0 ≡ ((headers, bare 204), 0))))))
cors_cases_example = cors_cases failing evil 0

refused : cors failing evil 0 ≡ (([], bare 403), 0)
unfolding cors is_allowed_origin trim_space ◌==◌
refused = refl
