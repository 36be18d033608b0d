-- ===== src/Repository/Redis/Contract.antt =====
-- The contract of a session store, for the one on Redis.
use storemesh_user_service.Base.{
  ◌≡◌, ◌≢◌, sym, ap, subst, ◌∙◌, ◌⊎◌, inl, inr, List, true, none, some, arith, Bool-cases,
}
use storemesh_user_service.Go.Text.{Text, text, ◌==◌}
use storemesh_user_service.Go.Text.Laws.{eq_refl}
use storemesh_user_service.Go.Errors.{Error}
use storemesh_user_service.Go.Action.{ok, err}
use storemesh_user_service.Go.Action.Laws.{Result-cases}
use storemesh_user_service.Go.Time.{Duration}
use storemesh_user_service.Domain.{AuthSession}
use storemesh_user_service.Service.{context, invalid_input}
use storemesh_user_service.Domain.Contract.{SessionLaws, Sessions, put}
use storemesh_user_service.Repository.Redis.{
  SessionCache, user_sessions_key, create, rotate, delete, delete_all_for_user, session_store,
}
use storemesh_user_service.Repository.Redis.Keyspace.{
  Keyspace, is_member, Effect, CacheLaws, delete_keys,
}
use storemesh_user_service.Repository.Redis.Keys.{all_keys}
use storemesh_user_service.Repository.Redis.Consistency.{
  session_at, IsConsistent, store-session_at, store-IsConsistent,
}
use storemesh_user_service.Repository.Redis.Removal.{
  delete-session_at, delete_all-session_at, delete_all-others, delete_all-IsConsistent,
}
use storemesh_user_service.Repository.Redis.Calls.{
  keys, Stored, create-Stored, create_cases, delete-Removed, delete-keeps,
}
use storemesh_user_service.Repository.Redis.Reads.{get_reads, get-keeps}
use storemesh_user_service.Repository.Redis.Rotation.{rotate_cases}

module _ {S : Type 0} (c : SessionCache S) (laws : CacheLaws c) where
  abbrev pub stored_sessions : S → Sessions
  stored_sessions s = session_at c (keys c laws s)

  abbrev pub IsConsistentAt : S → Type 0
  IsConsistentAt s = IsConsistent c (keys c laws s)

  Stored-live :
      (x : AuthSession) (ttl : Duration) (before end : Keyspace)
      → Stored c laws x ttl before end
      → session_at c end ≡ put x.id x (session_at c before)
  Stored-live x ttl before end st =
      ap (session_at c) st.keys
      ∙ store-session_at c x st.payload ttl before st.reads_back st.positive

  Stored-IsConsistent :
      (x : AuthSession) (ttl : Duration) (before end : Keyspace)
      → Stored c laws x ttl before end
      → IsConsistent c before
      → IsConsistent c end
  Stored-IsConsistent x ttl before end st i =
      subst (IsConsistent c) (sym st.keys)
        (store-IsConsistent c x st.payload ttl before st.reads_back st.positive i)

  pub create-keeps :
      (x : AuthSession) (ttl : Duration) (s : S)
      → IsConsistentAt s
      → IsConsistentAt (create c x ttl s).1
  create-keeps x ttl s i = elim (create_cases c laws x ttl s) [
    | inl same ↦ subst (IsConsistent c) (sym same) i
    | inr st ↦ Stored-IsConsistent x ttl _ _ st i
  ]

  rotate-keeps :
      (id refresh_id : Text) (next : AuthSession) (ttl : Duration) (s : S)
      → IsConsistentAt s
      → IsConsistentAt (rotate c id refresh_id next ttl s).1
  rotate-keeps id refresh_id next ttl s i = elim (rotate_cases c laws id refresh_id next ttl s) [
    | inl (e, p, same) ↦ subst (IsConsistent c) (sym same) i
    | inr (same_id, r) ↦ Stored-IsConsistent next ttl _ _ r.replaced i
  ]

  -- `Rotate` that succeeds has found, under the session's id, a session that holds the refresh
  -- token and belongs to the user of the next one, which it has put in its place; no other session
  -- has changed.
  pub rotate_replaces :
      (id refresh_id : Text) (next : AuthSession) (ttl : Duration) (s : S)
      → (rotate c id refresh_id next ttl s).0 ≡ ok tt
      → (current : AuthSession) × (stored_sessions s id ≡ some current)
        × (current.refresh_token_id ≡ refresh_id)
        × (current.user_id ≡ next.user_id)
        × (next.id ≡ id)
        × (stored_sessions (rotate c id refresh_id next ttl s).1 ≡ put id next (stored_sessions s))
  rotate_replaces id refresh_id next ttl s h = elim (rotate_cases c laws id refresh_id next ttl s) [
    | inl (e, p, same) ↦ ground arith
    | inr (same_id, r) ↦ (
      r.current,
      r.stored,
      r.holds,
      r.same_user,
      same_id,
      Stored-live next ttl _ _ r.replaced ∙ ap (λ j. put j next (stored_sessions s)) same_id,
    )
  ]

  delete_removes :
      (id : Text) (s : S)
      → id ≢ text ""
      → (delete c id s).0 ≡ ok tt
      → stored_sessions (delete c id s).1 id ≡ none
  delete_removes id s given h = elim (delete-Removed c laws id s given h) [
    | inl (gone, same) ↦ subst (λ ks. session_at c ks id ≡ none) (sym same) gone
    | inr r ↦
        subst (λ ks. session_at c ks id ≡ none) (sym r.keys)
          (ap (λ (m : Sessions). m id) (delete-session_at c id r.session (keys c laws s))
            ∙ rw (eq_refl id))
  ]

  -- What `DeleteAllForUser` has done to the keys: nothing, or it has deleted the set of the user's
  -- sessions and every session that it lists; the latter if it succeeded.
  record Cleared (user_id : Text) (before end : Keyspace) : Type 0 where
    ids : List Text
    listed :
        (m : Text)
        → storemesh_user_service.Repository.Redis.Keyspace.contains m ids
          ≡ storemesh_user_service.Repository.Redis.Keyspace.is_member m
              (before (user_sessions_key user_id))
    keys : end ≡ delete_keys (all_keys user_id ids) before

  delete_all_cases :
      (user_id : Text) (s : S)
      → let m = delete_all_for_user c user_id s in
        ((e : Error) × (m.0 ≡ err e) × (keys c laws m.1 ≡ keys c laws s))
        ⊎ Cleared user_id (keys c laws s) (keys c laws m.1)
  unfolding delete_all_for_user
  delete_all_cases user_id s =
      let k = user_sessions_key user_id in
      let s1 = (c.rdb.s_members k s).1 in
      let same = laws.client.s_members_keys k s in
      elim (Bool-cases (user_id == text "")) [
        | inl blank ↦ inl (invalid_input (text ": user id is required"), rw blank, rw blank)
        | inr given ↦ elim (Result-cases (c.rdb.s_members k s).0) [
          | inr (e, p) ↦
              inl (context (text "list user auth sessions: ") e, rw (given, p), rw (given, p) same)
          | inl (ids, p) ↦
              let effect = laws.client.del_law (all_keys user_id ids) s1 in
              let done =
                λ (h : keys c laws (c.rdb.del (all_keys user_id ids) s1).1
                    ≡ delete_keys (all_keys user_id ids) (keys c laws s1)).
                  h ∙ ap (delete_keys (all_keys user_id ids)) same in
              let listed = laws.client.s_members_law k s ids p in
              elim (Result-cases (c.rdb.del (all_keys user_id ids) s1).0) [
                | inl (v, r) ↦ inr (record {
                  ids = ids;
                  listed = listed;
                  keys = rw (given, p) (done (effect.done v r));
                })
                | inr (e, r) ↦ elim (effect.failed e r) [
                  | inl unchanged ↦ inl (
                    context (text "delete user auth sessions: ") e,
                    rw (given, p, r),
                    rw (given, p) (unchanged ∙ same),
                  )
                  | inr lost ↦
                      inr (record { ids = ids; listed = listed; keys = rw (given, p) (done lost) })
                ]
              ]
        ]
      ]

  delete_all-keeps :
      (user_id : Text) (s : S)
      → IsConsistentAt s
      → IsConsistentAt (delete_all_for_user c user_id s).1
  delete_all-keeps user_id s i = elim (delete_all_cases user_id s) [
    | inl (e, p, same) ↦ subst (IsConsistent c) (sym same) i
    | inr cl ↦
        subst (IsConsistent c) (sym cl.keys)
          (delete_all-IsConsistent c user_id cl.ids (keys c laws s) cl.listed i)
  ]

  -- After `DeleteAllForUser` succeeded on consistent keys, every session that is left belongs to
  -- another user.
  pub delete_all_removes :
      (user_id : Text) (s : S)
      → IsConsistentAt s
      → (delete_all_for_user c user_id s).0 ≡ ok tt
      → (id : Text) (x : AuthSession)
      → stored_sessions (delete_all_for_user c user_id s).1 id ≡ some x
      → x.user_id ≢ user_id
  delete_all_removes user_id s i h id x found = elim (delete_all_cases user_id s) [
    | inl (e, p, same) ↦ absurd (ground arith)
    | inr cl ↦
        delete_all-others c user_id cl.ids (keys c laws s) cl.listed i id x
          (ap (λ ks. session_at c ks id) (sym cl.keys) ∙ found)
  ]

  -- A session whose owner is another user stays, where the set of the user lists only sessions of
  -- that user.
  pub delete_all_spares :
      (user_id : Text) (s : S)
      → ((j : Text) (x : AuthSession)
          → is_member j (keys c laws s (user_sessions_key user_id)) ≡ true
          → stored_sessions s j ≡ some x
          → x.user_id ≡ user_id)
      → (j : Text) (x : AuthSession) → stored_sessions s j ≡ some x
      → x.user_id ≢ user_id
      → stored_sessions (delete_all_for_user c user_id s).1 j ≡ some x
  delete_all_spares user_id s own j x stored other = elim (delete_all_cases user_id s) [
    | inl (e, p, same) ↦ subst (λ ks. session_at c ks j ≡ some x) (sym same) stored
    | inr cl ↦
        subst (λ ks. session_at c ks j ≡ some x) (sym cl.keys)
          (ground (
            arith,
            delete_all-session_at c user_id cl.ids (keys c laws s) j,
            cl.listed j,
            own j x,
            stored,
            other,
          ))
  ]

  pub session_store_laws : SessionLaws (session_store c)
  unfolding session_store
  session_store_laws = record {
    live = stored_sessions;
    Inv = IsConsistentAt;
    live-id = λ s i. i.own_id;
    get_reads = λ id s x h.
        (let (found, same) = get_reads c laws id s x h in (found, ap (session_at c) same));
    get-Inv = get-keeps c laws;
    create_puts = λ x ttl s h. Stored-live x ttl _ _ (create-Stored c laws x ttl s h);
    create-Inv = create-keeps;
    rotate_replaces = rotate_replaces;
    rotate-Inv = rotate-keeps;
    delete_removes = delete_removes;
    delete-Inv = delete-keeps c laws;
    delete_all_removes = delete_all_removes;
    delete_all-Inv = delete_all-keeps;
  }
