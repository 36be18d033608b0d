-- ===== src/Repository/Redis/Reads.antt =====
-- `Get` of the session store: what it reads, and the keys that it leaves.
use storemesh_user_service.Base.{◌≡◌, sym, subst, ◌∙◌, inl, inr, some, arith, Bool-cases}
use storemesh_user_service.Go.Text.{Text, text, ◌==◌}
use storemesh_user_service.Go.Action.{ok}
use storemesh_user_service.Go.Action.Laws.{Result-cases}
use storemesh_user_service.Go.Time.{after}
use storemesh_user_service.Domain.{AuthSession}
use storemesh_user_service.Repository.Redis.{SessionCache, unmarshal_session, auth_session_key, get}
use storemesh_user_service.Repository.Redis.Keyspace.{CacheLaws}
use storemesh_user_service.Repository.Redis.Consistency.{session_at, IsConsistent}
use storemesh_user_service.Repository.Redis.Calls.{keys, found-session_at, delete-keeps}

module _ {S : Type 0} (c : SessionCache S) (laws : CacheLaws c) where
  -- `Get` that returns a session has read the one stored and changed nothing.
  pub get_reads :
      (id : Text) (s : S) (x : AuthSession)
      → (get c id s).0 ≡ ok x
      → (session_at c (keys c laws s) id ≡ some x) × (keys c laws (get c id s).1 ≡ keys c laws s)
  unfolding get
  get_reads id s x h =
      let k = auth_session_key id in
      let s1 = (c.rdb.get k s).1 in
      let read = laws.client.get_law k s in
      elim (Bool-cases (id == text "")) [
        | inl blank ↦ ground arith
        | inr test ↦ elim (Result-cases (c.rdb.get k s).0) [
          | inr (e, p) ↦ ground arith
          | inl (payload, p) ↦ elim (Result-cases (unmarshal_session c payload)) [
            | inr (e, q) ↦ ground arith
            | inl (y, q) ↦ elim (Bool-cases (after (c.now s1).0 y.expires_at)) [
              | inl expired ↦ ground arith
              | inr valid ↦
                  let same : y ≡ x = ground arith in
                  (
                    subst (λ z. session_at c (keys c laws s) id ≡ some z) same
                        (found-session_at c laws id payload y (keys c laws s) (read.found payload p)
                          q),
                    rw (test, p, q, valid) (laws.now_keys s1 ∙ read.same),
                  )
            ]
          ]
        ]
      ]

  pub get-keeps :
      (id : Text) (s : S)
      → IsConsistent c (keys c laws s)
      → IsConsistent c (keys c laws (get c id s).1)
  unfolding get
  get-keeps id s i =
      let k = auth_session_key id in
      let s1 = (c.rdb.get k s).1 in
      let read = laws.client.get_law k s in
      let i1 = subst (IsConsistent c) (sym read.same) i in
      elim (Bool-cases (id == text "")) [
        | inl blank ↦ rw blank i
        | inr test ↦ elim (Result-cases (c.rdb.get k s).0) [
          | inr (e, p) ↦ rw (test, p) i1
          | inl (payload, p) ↦ elim (Result-cases (unmarshal_session c payload)) [
            | inr (e, q) ↦ rw (test, p, q) i1
            | inl (y, q) ↦
                let i2 = subst (IsConsistent c) (sym (laws.now_keys s1)) i1 in
                elim (Bool-cases (after (c.now s1).0 y.expires_at)) [
                  | inl expired ↦
                      rw (test, p, q, expired) (delete-keeps c laws y.id (c.now s1).1 i2)
                  | inr valid ↦ rw (test, p, q, valid) i2
                ]
          ]
        ]
      ]
