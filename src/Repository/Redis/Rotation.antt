-- ===== src/Repository/Redis/Rotation.antt =====
-- `Rotate`: its attempts under `Watch` replace the session that holds the refresh token, or leave
-- the keys as they were.
use storemesh_user_service.Base.{
  ℕ, zero, suc, ◌≡◌, refl, sym, ap, subst, ◌∙◌, ◌⊎◌, inl, inr, List, [], ◌∷◌, false, ◌||◌, Option,
  none, some, arith, Bool-cases,
}
use storemesh_user_service.Base.Int.{pos, leb_ℤ}
use storemesh_user_service.Go.Text.{Text, text, ◌==◌}
use storemesh_user_service.Go.Text.Laws.{eq_iff}
use storemesh_user_service.Go.Errors.{Error, is, errors_is, err_invalid_token, tx_failed}
use storemesh_user_service.Go.Action.{Result, ok, err, Action}
use storemesh_user_service.Go.Action.Laws.{Result-cases}
use storemesh_user_service.Go.Time.{Duration}
use storemesh_user_service.Domain.{AuthSession}
use storemesh_user_service.Service.{context, invalid_input}
use storemesh_user_service.Repository.Redis.{
  SessionCache, Command, set_key, s_add, expire, unmarshal_session, auth_session_key,
  user_sessions_key, store_commands, rotate, rotate_once, rotate_loop, missing_as_invalid,
  validate_session, maximum_rotation_attempts,
}
use storemesh_user_service.Repository.Redis.Keyspace.{Keyspace, run_commands, CacheLaws}
use storemesh_user_service.Repository.Redis.Consistency.{session_at}
use storemesh_user_service.Repository.Redis.Calls.{
  keys, Stored, unmarshal_marshal, validate_session_ok, found-session_at,
}

module _ {S : Type 0} (c : SessionCache S) (laws : CacheLaws c) where
  -- The session under `id` held the refresh token and belonged to the user of `next`, which now
  -- stands in its place.
  pub record Rotated (id refresh_id : Text) (next : AuthSession) (ttl : Duration)
      (before end : Keyspace) : Type 0 where
    pub current : AuthSession
    pub stored : session_at c before id ≡ some current
    pub holds : current.refresh_token_id ≡ refresh_id
    pub same_user : current.user_id ≡ next.user_id
    pub replaced : Stored c laws next ttl before end

  -- One attempt: it returned an error and changed nothing, or it rotated the session, and then its
  -- error, if any, is not that of a transaction that was given up.
  abbrev Attempted :
      Text → Text → AuthSession → Duration → Keyspace → Keyspace → Result (Unit {0}) → Type 0
  Attempted id refresh_id next ttl before end r =
      ((e : Error) × (r ≡ err e) × (end ≡ before))
      ⊎ (Rotated id refresh_id next ttl before end
          × ((e : Error) → r ≡ err e → errors_is e tx_failed ≡ false))

  module _ (id refresh_id : Text) (next : AuthSession) (ttl : Duration) (payload : Text)
      (same_id : next.id ≡ id) (reads_back : unmarshal_session c payload ≡ ok next)
      (positive : leb_ℤ ttl (pos 0) ≡ false) where
    abbrev body : Action S (Unit {0})
    body = rotate_once c (auth_session_key id) refresh_id next payload ttl

    abbrev queued : List Command
    queued =
        set_key (auth_session_key id) payload ttl
        ∷ s_add (user_sessions_key next.user_id) next.id
        ∷ expire (user_sessions_key next.user_id) ttl
        ∷ []

    queued-eq : queued ≡ store_commands next payload ttl
    queued-eq =
        ap
          (λ j.
            set_key (auth_session_key j) payload ttl
            ∷ s_add (user_sessions_key next.user_id) next.id
            ∷ expire (user_sessions_key next.user_id) ttl
            ∷ [])
          (sym same_id)

    -- The transaction has run behind a read that changed nothing.
    executed :
        (x : AuthSession) (s s1 : S) (end : Keyspace)
        → keys c laws s1 ≡ keys c laws s
        → session_at c (keys c laws s) id ≡ some x
        → x.refresh_token_id ≡ refresh_id
        → x.user_id ≡ next.user_id
        → end ≡ run_commands queued (keys c laws s1)
        → Rotated id refresh_id next ttl (keys c laws s) end
    executed x s s1 end same stored holds user done = record {
      current = x;
      stored = stored;
      holds = holds;
      same_user = user;
      replaced = record {
        payload = payload;
        reads_back = reads_back;
        positive = positive;
        keys = done ∙ (λ i. run_commands (queued-eq i) (same i));
      };
    }

    once-Attempted :
        (s : S)
        → Attempted id refresh_id next ttl (keys c laws s) (keys c laws (body s).1) (body s).0
    unfolding rotate_once
    once-Attempted s =
        let k = auth_session_key id in
        let s1 = (c.rdb.tx_get k s).1 in
        let read = laws.client.tx_get_law k s in
        elim (Result-cases (c.rdb.tx_get k s).0) [
          | inr (e, p) ↦ inl (missing_as_invalid c e, rw p, rw p read.same)
          | inl (p0, p) ↦ elim (Result-cases (unmarshal_session c p0)) [
            | inr (e, q) ↦ inl (e, rw (p, q), rw (p, q) read.same)
            | inl (x, q) ↦ elim (Bool-cases (x.refresh_token_id == refresh_id)) [
              | inr other ↦ inl (is err_invalid_token, rw (p, q, other), rw (p, q, other) read.same)
              | inl holds ↦ elim (Bool-cases (x.user_id == next.user_id)) [
                | inr other ↦ inl (
                  is err_invalid_token,
                  rw (p, q, holds, other),
                  rw (p, q, holds, other) read.same,
                )
                | inl user ↦
                    let stored =
                      found-session_at c laws id p0 x (keys c laws s) (read.found p0 p) q in
                    let x_holds = (eq_iff _ _).0 holds in
                    let x_user = (eq_iff _ _).0 user in
                    let effect = laws.client.exec_law queued s1 in
                    elim (Result-cases (c.rdb.tx_exec queued s1).0) [
                      | inl (v, r) ↦ inr (
                        executed x s s1 _ read.same stored x_holds x_user
                            (rw (p, q, holds, user) (effect.done v r)),
                        λ e h. ground arith,
                      )
                      | inr (e, r) ↦
                          let unchanged =
                            λ (same : keys c laws (c.rdb.tx_exec queued s1).1 ≡ keys c laws s1).
                              same ∙ read.same in
                          elim (Bool-cases (errors_is e tx_failed)) [
                            | inl aborted ↦ inl (
                              e,
                              rw (p, q, holds, user) r,
                              rw (p, q, holds, user) (unchanged (effect.aborted e r aborted)),
                            )
                            | inr lost ↦ elim (effect.failed e r) [
                              | inl same ↦ inl (
                                e,
                                rw (p, q, holds, user) r,
                                rw (p, q, holds, user) (unchanged same),
                              )
                              | inr done ↦ inr (
                                executed x s s1 _ read.same stored x_holds x_user
                                    (rw (p, q, holds, user) done),
                                λ e' h. ground arith,
                              )
                            ]
                          ]
                    ]
              ]
            ]
          ]
        ]

    watch-Attempted :
        (s : S)
        → let m = c.rdb.watch body (auth_session_key id) s in
          Attempted id refresh_id next ttl (keys c laws s) (keys c laws m.1) m.0
    watch-Attempted s = elim (laws.client.watch_law body (auth_session_key id) s) [
      | inl failed ↦ inl failed
      | inr (s1, same, result, end) ↦
          subst
            (λ r.
              Attempted id refresh_id next ttl (keys c laws s)
                (keys c laws (c.rdb.watch body (auth_session_key id) s).1) r)
            result
            (subst (λ ks. Attempted id refresh_id next ttl (keys c laws s) ks (body s1).0) (sym end)
              (subst
                (λ ks. Attempted id refresh_id next ttl ks (keys c laws (body s1).1) (body s1).0)
                same (once-Attempted s1)))
    ]

    -- The loop ends with an error and the keys as they were, or it has rotated the session.
    abbrev Ended : Keyspace → Keyspace → Result (Unit {0}) → Type 0
    Ended before end r =
        ((e : Error) × (r ≡ err e) × (end ≡ before)) ⊎ Rotated id refresh_id next ttl before end

    loop-Ended :
        (n : ℕ) (last : Option Error) (s : S)
        → let m = rotate_loop c body (auth_session_key id) n last s in
          Ended (keys c laws s) (keys c laws m.1) m.0
    unfolding rotate_loop
    loop-Ended zero none s = inl (_, refl, refl)
    loop-Ended zero (some e) s = inl (_, refl, refl)
    loop-Ended (suc n) last s =
        let m = c.rdb.watch body (auth_session_key id) s in
        elim (watch-Attempted s) [
          | inl (e, p, same) ↦ elim (Bool-cases (errors_is e err_invalid_token)) [
            | inl invalid ↦ inl (is err_invalid_token, rw (p, invalid), rw (p, invalid) same)
            | inr valid ↦ elim (Bool-cases (errors_is e tx_failed)) [
              | inr final ↦ inl (
                context (text "rotate auth session: ") e,
                rw (p, valid, final),
                rw (p, valid, final) same,
              )
              | inl again ↦
                  rw (p, valid, again)
                    (subst
                      (λ ks.
                        Ended ks
                          (keys c laws (rotate_loop c body (auth_session_key id) n (some e) m.1).1)
                          (rotate_loop c body (auth_session_key id) n (some e) m.1).0)
                      same (loop-Ended n (some e) m.1))
            ]
          ]
          | inr (rotated, final) ↦ elim (Result-cases m.0) [
            | inl (u, p) ↦ inr (rw p rotated)
            | inr (e, p) ↦ elim (Bool-cases (errors_is e err_invalid_token)) [
              | inl invalid ↦ inr (rw (p, invalid) rotated)
              | inr valid ↦ inr (rw (p, valid, final e p) rotated)
            ]
          ]
        ]

  -- Whatever `Rotate` returns, it has rotated the session, or it returned an error and changed
  -- nothing; a rotated session keeps its id.
  pub rotate_cases :
      (id refresh_id : Text) (next : AuthSession) (ttl : Duration) (s : S)
      → let m = rotate c id refresh_id next ttl s in
        ((e : Error) × (m.0 ≡ err e) × (keys c laws m.1 ≡ keys c laws s))
        ⊎ ((next.id ≡ id) × Rotated id refresh_id next ttl (keys c laws s) (keys c laws m.1))
  unfolding rotate
  rotate_cases id refresh_id next ttl s =
      elim (Bool-cases (id == text "" || refresh_id == text "")) [
        | inl blank ↦ inl (is err_invalid_token, rw blank, rw blank)
        | inr given ↦ elim (Result-cases (validate_session next ttl)) [
          | inr (e, p) ↦ inl (e, rw (given, p), rw (given, p))
          | inl (u, p) ↦ elim (Bool-cases (next.id == id)) [
            | inr other ↦ inl (
              invalid_input (text ": session id cannot change during rotation"),
              rw (given, p, other),
              rw (given, p, other),
            )
            | inl same ↦ elim (Result-cases (c.json.marshal_session next)) [
              | inr (e, q) ↦ inl (
                context (text "marshal rotated auth session: ") e,
                rw (given, p, same, q),
                rw (given, p, same, q),
              )
              | inl (payload, q) ↦
                  let same_id = (eq_iff _ _).0 same in
                  elim (loop-Ended id refresh_id next ttl payload same_id
                    (unmarshal_marshal c laws next payload q)
                    (validate_session_ok c laws next ttl p) maximum_rotation_attempts none s) [
                      | inl (e, r, unchanged) ↦
                          inl (e, rw (given, p, same, q) r, rw (given, p, same, q) unchanged)
                      | inr rotated ↦ inr (same_id, rw (given, p, same, q) rotated)
                    ]
            ]
          ]
        ]
      ]
