-- ===== src/Repository/Redis/Calls.antt =====
-- How each method of the session store acts on the keys.
use storemesh_user_service.Base.{
  ◌≡◌, ◌≢◌, sym, ap, subst, ◌∙◌, ◌⊎◌, inl, inr, false, none, some, arith, Bool-cases,
}
use storemesh_user_service.Base.Int.{pos, leb_ℤ}
use storemesh_user_service.Go.Text.{Text, text, ◌==◌}
use storemesh_user_service.Go.Text.Laws.{eq_ne}
use storemesh_user_service.Go.Errors.{errors_is, redis_nil}
use storemesh_user_service.Go.Action.{ok}
use storemesh_user_service.Go.Action.Laws.{Result-cases}
use storemesh_user_service.Go.Time.{Duration}
use storemesh_user_service.Domain.{AuthSession}
use storemesh_user_service.Repository.Redis.{
  SessionCache, unmarshal_session, auth_session_key, store_commands, delete_commands, create,
  delete, validate_session,
}
use storemesh_user_service.Repository.Redis.Keyspace.{Keyspace, string, run_commands, CacheLaws}
use storemesh_user_service.Repository.Redis.Consistency.{session_at, IsConsistent}
use storemesh_user_service.Repository.Redis.Removal.{delete-IsConsistent}

module _ {S : Type 0} (c : SessionCache S) (laws : CacheLaws c) where
  abbrev pub keys : S → Keyspace
  keys = laws.client.keys

  pub validate_session_ok :
      (x : AuthSession) (ttl : Duration)
      → validate_session x ttl ≡ ok tt
      → leb_ℤ ttl (pos 0) ≡ false
  unfolding validate_session
  validate_session_ok x ttl h = ground arith

  pub unmarshal_marshal :
      (x : AuthSession) (p : Text) → c.json.marshal_session x ≡ ok p → unmarshal_session c p ≡ ok x
  unfolding unmarshal_session
  unmarshal_marshal x p h = ground (arith, laws.session_roundtrip x p)

  -- The session is stored under its id and listed for its user.
  pub record Stored (x : AuthSession) (ttl : Duration) (before end : Keyspace) : Type 0 where
    pub payload : Text
    pub reads_back : unmarshal_session c payload ≡ ok x
    pub positive : leb_ℤ ttl (pos 0) ≡ false
    pub keys : end ≡ run_commands (store_commands x payload ttl) before

  pub create-Stored :
      (x : AuthSession) (ttl : Duration) (s : S)
      → (create c x ttl s).0 ≡ ok tt
      → Stored x ttl (keys s) (keys (create c x ttl s).1)
  unfolding create
  create-Stored x ttl s h = elim (Result-cases (validate_session x ttl)) [
    | inr (e, p) ↦ ground arith
    | inl (u, p) ↦ elim (Result-cases (c.json.marshal_session x)) [
      | inr (e, q) ↦ ground arith
      | inl (payload, q) ↦ record {
        payload = payload;
        reads_back = unmarshal_marshal x payload q;
        positive = validate_session_ok x ttl p;
        keys =
            rw (p, q)
              ((laws.client.pipelined_law (store_commands x payload ttl) s).done tt (ground arith));
      }
    ]
  ]

  -- After an error the session is stored or nothing has changed.
  pub create_cases :
      (x : AuthSession) (ttl : Duration) (s : S)
      → (keys (create c x ttl s).1 ≡ keys s) ⊎ Stored x ttl (keys s) (keys (create c x ttl s).1)
  unfolding create
  create_cases x ttl s = elim (Result-cases (validate_session x ttl)) [
    | inr (e, p) ↦ inl (rw p)
    | inl (u, p) ↦ elim (Result-cases (c.json.marshal_session x)) [
      | inr (e, q) ↦ inl (rw (p, q))
      | inl (payload, q) ↦
          elim (Result-cases (c.rdb.tx_pipelined (store_commands x payload ttl) s).0) [
            | inl (v, r) ↦ inr (create-Stored x ttl s (rw (p, q, r)))
            | inr (e, r) ↦
                elim ((laws.client.pipelined_law (store_commands x payload ttl) s).failed e r) [
                  | inl same ↦ inl (rw (p, q) same)
                  | inr stored ↦ inr (record {
                    payload = payload;
                    reads_back = unmarshal_marshal x payload q;
                    positive = validate_session_ok x ttl p;
                    keys = rw (p, q) stored;
                  })
                ]
          ]
    ]
  ]

  -- The session stored under `id` has been read, deleted and taken off the list of its user.
  pub record Removed (id : Text) (before end : Keyspace) : Type 0 where
    pub session : AuthSession
    pub stored : session_at c before id ≡ some session
    pub keys : end ≡ run_commands (delete_commands (auth_session_key id) session) before

  pub found-session_at :
      (id p : Text) (x : AuthSession) (ks : Keyspace)
      → ks (auth_session_key id) ≡ some (string p)
      → unmarshal_session c p ≡ ok x
      → session_at c ks id ≡ some x
  unfolding session_at
  found-session_at id p x ks h k = rw (h, k)

  missing-session_at :
      (id : Text) (ks : Keyspace) → ks (auth_session_key id) ≡ none → session_at c ks id ≡ none
  unfolding session_at
  missing-session_at id ks h = rw h

  after_read :
      (id : Text) (x : AuthSession) (s s1 : S) (end : Keyspace)
      → keys s1 ≡ keys s
      → end ≡ run_commands (delete_commands (auth_session_key id) x) (keys s1)
      → end ≡ run_commands (delete_commands (auth_session_key id) x) (keys s)
  after_read id x s s1 end same h =
      h ∙ ap (run_commands (delete_commands (auth_session_key id) x)) same

  pub delete-Removed :
      (id : Text) (s : S)
      → id ≢ text ""
      → (delete c id s).0 ≡ ok tt
      → ((session_at c (keys s) id ≡ none) × (keys (delete c id s).1 ≡ keys s))
        ⊎ Removed id (keys s) (keys (delete c id s).1)
  unfolding delete
  delete-Removed id s given h =
      let k = auth_session_key id in
      let s1 = (c.rdb.get k s).1 in
      let read = laws.client.get_law k s in
      let test = eq_ne id (text "") given in
      elim (Result-cases (c.rdb.get k s).0) [
        | inr (e, p) ↦ elim (Bool-cases (errors_is e redis_nil)) [
          | inl missing ↦ inl (
            missing-session_at id (keys s) (read.missing e p missing),
            rw (test, p, missing) read.same,
          )
          | inr no_such ↦ ground arith
        ]
        | inl (payload, p) ↦ elim (Result-cases (unmarshal_session c payload)) [
          | inr (e, q) ↦ ground arith
          | inl (x, q) ↦ inr (record {
            session = x;
            stored = found-session_at id payload x (keys s) (read.found payload p) q;
            keys =
                rw (test, p, q)
                  (after_read id x s s1 _ read.same
                    ((laws.client.pipelined_law (delete_commands k x) s1).done tt (ground arith)));
          })
        ]
      ]

  -- Whatever `Delete` returns, it has removed the session or changed nothing.
  pub delete_cases :
      (id : Text) (s : S)
      → (keys (delete c id s).1 ≡ keys s) ⊎ Removed id (keys s) (keys (delete c id s).1)
  unfolding delete
  delete_cases id s =
      let k = auth_session_key id in
      let s1 = (c.rdb.get k s).1 in
      let read = laws.client.get_law k s in
      elim (Bool-cases (id == text "")) [
        | inl blank ↦ inl (rw blank)
        | inr test ↦ elim (Result-cases (c.rdb.get k s).0) [
          | inr (e, p) ↦ elim (Bool-cases (errors_is e redis_nil)) [
            | inl missing ↦ inl (rw (test, p, missing) read.same)
            | inr no_such ↦ inl (rw (test, p, no_such) read.same)
          ]
          | inl (payload, p) ↦ elim (Result-cases (unmarshal_session c payload)) [
            | inr (e, q) ↦ inl (rw (test, p, q) read.same)
            | inl (x, q) ↦
                let stored = found-session_at id payload x (keys s) (read.found payload p) q in
                let effect = laws.client.pipelined_law (delete_commands k x) s1 in
                elim (Result-cases (c.rdb.tx_pipelined (delete_commands k x) s1).0) [
                  | inl (v, r) ↦ inr (record {
                    session = x;
                    stored = stored;
                    keys = rw (test, p, q) (after_read id x s s1 _ read.same (effect.done v r));
                  })
                  | inr (e, r) ↦ elim (effect.failed e r) [
                    | inl same ↦ inl (rw (test, p, q) (same ∙ read.same))
                    | inr done ↦ inr (record {
                      session = x;
                      stored = stored;
                      keys = rw (test, p, q) (after_read id x s s1 _ read.same done);
                    })
                  ]
                ]
          ]
        ]
      ]

  pub delete-keeps :
      (id : Text) (s : S) → IsConsistent c (keys s) → IsConsistent c (keys (delete c id s).1)
  delete-keeps id s i = elim (delete_cases id s) [
    | inl same ↦ subst (IsConsistent c) (sym same) i
    | inr r ↦
        subst (IsConsistent c) (sym r.keys) (delete-IsConsistent c id r.session (keys s) r.stored i)
  ]
