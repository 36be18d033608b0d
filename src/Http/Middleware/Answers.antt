-- ===== src/Http/Middleware/Answers.antt =====
-- What the chain of middleware answers.
use storemesh_user_service.Base.{
  ◌≡◌, ◌≢◌, ◌≤◌, ◌⊎◌, inl, inr, refl, [], ◌∷◌, ◌||◌, true, false, ltb, arith, Bool-cases,
}
use storemesh_user_service.Go.Text.{Text, text, ◌==◌, len, trim_space}
use storemesh_user_service.Go.Text.Laws.{eq_iff}
use storemesh_user_service.Http.Middleware.{
  Exchange, Answer, response, bare, panicked, Headers, Next, with_headers, request_id_header,
  maximum_request_id_length, is_allowed_origin, cors_headers, choose_id, request_id, cors,
  origin_of, recovered, recovery, http_chain,
}

module _ {S : Type 0} where
  choose_id_ok :
      (new_uuid : S → Text × S)
      → ((s : S) → (new_uuid s).0 ≢ text "")
      → ((s : S) → len (new_uuid s).0 ≤ maximum_request_id_length)
      → (c : Exchange) (s : S)
      → ((choose_id new_uuid c s).0 ≢ text "")
        × (len (choose_id new_uuid c s).0 ≤ maximum_request_id_length)
  unfolding choose_id
  choose_id_ok new_uuid given short c s =
      let sent = trim_space (c.request.header request_id_header) in
      elim (Bool-cases (sent == text "" || ltb maximum_request_id_length (len sent))) [
        | inl drawn ↦ rw drawn (given s, short s)
        | inr kept ↦ rw kept (ground (arith, eq_iff sent (text "")), ground arith)
      ]

module _ {S A : Type 0} where
  recovered-answers :
      (record_panic : Text → S → S) (m : (Headers × Answer A) × S) (message : Text)
      → (recovered record_panic m).0.1 ≢ panicked message
  recovered-answers record_panic ((hs, response r), s) message = λ h. cc h
  recovered-answers record_panic ((hs, bare n), s) message = λ h. cc h
  recovered-answers record_panic ((hs, panicked m), s) message = λ h. cc h

  -- Whatever the handler does, the chain answers without a panic, and the response first sets the
  -- header `X-Request-ID`, to an identifier that is not blank and has at most 128 bytes, provided
  -- that the identifiers of the uuid package are so.
  pub http_chain_answers :
      (new_uuid : S → Text × S) (record_panic : Text → S → S) (record_entry : _ → S → S)
      (next : Next S A)
      → ((s : S) → (new_uuid s).0 ≢ text "")
      → ((s : S) → len (new_uuid s).0 ≤ maximum_request_id_length)
      → (c : Exchange) (s : S)
      → let m = http_chain new_uuid record_panic record_entry next c s in
        (id : Text) × (rest : Headers) × (m.0.0 ≡ (request_id_header, id) ∷ rest)
        × (id ≢ text "")
        × (len id ≤ maximum_request_id_length)
        × ((message : Text) → m.0.1 ≢ panicked message)
  unfolding http_chain request_id recovery
  http_chain_answers new_uuid record_panic record_entry next given short c s =
      let (not_blank, not_long) = choose_id_ok new_uuid given short c s in
      (_, _, refl, not_blank, not_long, λ message. recovered-answers record_panic _ message)

  -- A request with the method `OPTIONS` never reaches the handler and changes no state: it is
  -- answered with 403 if it has an origin that is not allowed, and with 204 otherwise. Any other
  -- request runs the handler, whatever its origin. The headers that `CORS` adds are those for the
  -- origin of the request where this is allowed, and none otherwise.
  pub cors_cases :
      (next : Next S A) (c : Exchange) (s : S)
      → (headers : Headers) × (((is_allowed_origin (origin_of c) ≡ true)
            × (headers ≡ cors_headers (origin_of c)))
          ⊎ ((is_allowed_origin (origin_of c) ≡ false) × (headers ≡ [])))
        × (((c.method ≢ text "OPTIONS") × (cors next c s ≡ with_headers headers (next c s)))
            ⊎ ((c.method ≡ text "OPTIONS")
                × (((is_allowed_origin (origin_of c) ≡ false)
                      × (cors next c s ≡ ((headers, bare 403), s)))
                    ⊎ ((is_allowed_origin (origin_of c) ≡ true)
                        × (cors next c s ≡ ((headers, bare 204), s))))))
  unfolding cors is_allowed_origin
  cors_cases next c s =
      let origin = origin_of c in
      let is_options = eq_iff c.method (text "OPTIONS") in
      elim (Bool-cases (is_allowed_origin origin)) [
        | inl allowed ↦ (
          cors_headers origin,
          inl (allowed, refl),
          elim (Bool-cases (c.method == text "OPTIONS")) [
            | inl options ↦ inr (is_options.0 options, inr (allowed, ground arith))
            | inr others ↦ inl (ground (arith, is_options), rw (others, allowed))
          ],
        )
        | inr foreign ↦ (
          [],
          inr (foreign, refl),
          elim (Bool-cases (c.method == text "OPTIONS")) [
            | inl options ↦ inr (is_options.0 options, inl (foreign, ground arith))
            | inr others ↦ inl (ground (arith, is_options), rw (others, foreign))
          ],
        )
      ]
