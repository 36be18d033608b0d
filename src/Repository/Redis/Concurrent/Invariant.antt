-- ===== src/Repository/Redis/Concurrent/Invariant.antt =====
-- What holds in every world that interleaved calls of `Rotate` reach.
use storemesh_user_service.Base.{
  ◌≡◌, ◌≢◌, refl, sym, ap, subst, ◌∙◌, List, [], ◌∷◌, Bool, true, false, ◌||◌, ◌&&◌, Option, none,
  some, arith, if◌then◌else◌, inl, inr, Bool-cases,
}
use storemesh_user_service.Go.Text.{Text, ◌==◌}
use storemesh_user_service.Go.Text.Laws.{eq_iff, eq_refl}
use storemesh_user_service.Go.Action.{ok}
use storemesh_user_service.Domain.{AuthSession}
use storemesh_user_service.Domain.Contract.{Sessions, put}
use storemesh_user_service.Repository.Redis.{
  Command, set_key, s_add, expire, del_key, s_rem, SessionCache, store_commands,
}
use storemesh_user_service.Repository.Redis.Keyspace.{Keyspace, string, run_command, run_commands}
use storemesh_user_service.Repository.Redis.Consistency.{session_at}
use storemesh_user_service.Repository.Redis.Concurrent.{
  Attempt, watched_key, Phase, idle, started, watching, queued, command_key, touches, touch, World,
  enter, draw, run, move, rotation_checks, IsAttempt, IsInitial,
}

run_command_untouched :
    (k : Text) (d : Command) (ks : Keyspace)
    → (k == command_key d) ≡ false
    → run_command d ks k ≡ ks k
run_command_untouched k (set_key j v ttl) ks h = rw h
run_command_untouched k (s_add j m) ks h = rw h
run_command_untouched k (expire j ttl) ks h = ground arith
run_command_untouched k (del_key j) ks h = rw h
run_command_untouched k (s_rem j m) ks h = rw h

-- A key that no command touches keeps its value.
run_commands_untouched :
    (k : Text) (cs : List Command) (ks : Keyspace)
    → touches k cs ≡ false
    → run_commands cs ks k ≡ ks k
unfolding touches
run_commands_untouched k [] ks h = refl
run_commands_untouched k (d ∷ cs) ks h =
    let (one, rest) : ((k == command_key d) ≡ false) × (touches k cs ≡ false) = ground arith in
    run_commands_untouched k cs (run_command d ks) rest ∙ run_command_untouched k d ks one

-- The next refresh token of the call of `Rotate` that a caller is in.
abbrev pub token : Phase → Option Text
token idle = none
token (started a) = some a.next.refresh_token_id
token (watching a u) = some a.next.refresh_token_id
token (queued a v u) = some a.next.refresh_token_id

pub token-touch : (cs : List Command) (ph : Phase) → token (touch cs ph) ≡ token ph
token-touch cs idle = refl
token-touch cs (started a) = refl
token-touch cs (watching a u) = refl
token-touch cs (queued a v u) = refl

-- One of the logged calls rotated the refresh token `r` of the session `id`.
unfoldable pub logged : Text → Text → List Attempt → Bool
logged id r [] = false
logged id r (a ∷ l) = (id == a.id && r == a.refresh_id) || logged id r l

module _ {S : Type 0} (c : SessionCache S) where
  -- A call has passed the checks it has passed, and a payload that it has read is still stored
  -- while the watched key is untouched.
  abbrev pub Sound : Keyspace → Phase → Type 0
  Sound ks idle = Unit
  Sound ks (started a) = IsAttempt c a
  Sound ks (watching a u) = IsAttempt c a
  Sound ks (queued a v u) =
      IsAttempt c a
      × (rotation_checks c a.refresh_id a.next v ≡ ok tt)
      × (u ≡ true → ks (watched_key a) ≡ some (string v))

  pub Sound-touch :
      (cs : List Command) (ks : Keyspace) (ph : Phase)
      → Sound ks ph
      → Sound (run_commands cs ks) (touch cs ph)
  Sound-touch cs ks idle h = h
  Sound-touch cs ks (started a) h = h
  Sound-touch cs ks (watching a u) h = h
  Sound-touch cs ks (queued a v u) (h, k, same) = (
    h,
    k,
    λ clean.
        let (was, untouched) : (u ≡ true) × (touches (watched_key a) cs ≡ false) = ground arith in
        run_commands_untouched (watched_key a) cs ks untouched ∙ same was,
  )

  pub record Inv (w : World) : Type 0 where
    pub sound : (p : Text) → Sound w.keys (w.phase p)
    pub token_used : (p t : Text) → token (w.phase p) ≡ some t → w.used t ≡ true
    pub stored_used :
        (id : Text) (x : AuthSession)
        → session_at c w.keys id ≡ some x
        → w.used x.refresh_token_id ≡ true
    pub token_new :
        (p t id : Text) (x : AuthSession)
        → token (w.phase p) ≡ some t
        → session_at c w.keys id ≡ some x
        → x.refresh_token_id ≢ t
    pub token_own : (p q t : Text) → token (w.phase p) ≡ some t → token (w.phase q) ≡ some t → p ≡ q
    pub retired_used : (id r : Text) → logged id r w.log ≡ true → w.used r ≡ true
    pub retired_stored :
        (id r : Text) (x : AuthSession)
        → logged id r w.log ≡ true
        → session_at c w.keys id ≡ some x
        → x.refresh_token_id ≢ r
    pub retired_token : (id r p : Text) → logged id r w.log ≡ true → token (w.phase p) ≢ some r

  pub initial-Inv : (w : World) → IsInitial c w → Inv w
  unfolding logged
  initial-Inv w i =
      let phases = i.no_calls in
      record {
        sound = λ p. rw (i.no_calls p) tt;
        token_used = λ p t h. ground (arith, i.no_calls p);
        stored_used = i.stored_used;
        token_new = λ p t id x h. ground (arith, i.no_calls p);
        token_own = λ p q t h. ground (arith, i.no_calls p);
        retired_used = λ id r h. ground (arith, i.no_log);
        retired_stored = λ id r x h. ground (arith, i.no_log);
        retired_token = λ id r p h. ground (arith, i.no_log);
      }

  pub Sound-enter :
      (p q : Text) (ph : Phase) (w : World)
      → Sound w.keys ph
      → Sound w.keys (w.phase q)
      → Sound w.keys (enter p ph w.phase q)
  Sound-enter p q ph w h k = elim (Bool-cases (q == p)) [
    | inl own ↦ rw own h
    | inr foreign ↦ rw foreign k
  ]

  pub enter_token :
      (p : Text) (ph : Phase) (w : World)
      → ((t : Text) → token ph ≡ some t → token (w.phase p) ≡ some t)
      → (q t : Text) → token (enter p ph w.phase q) ≡ some t
      → token (w.phase q) ≡ some t
  enter_token p ph w same q t k = elim (Bool-cases (q == p)) [
    | inl own ↦
        let entered = subst (λ b. token (if b then ph else w.phase q) ≡ some t) own k in
        subst (λ r. token (w.phase r) ≡ some t) (sym ((eq_iff q p).0 own)) (same t entered)
    | inr foreign ↦ subst (λ b. token (if b then ph else w.phase q) ≡ some t) foreign k
  ]

  -- A caller goes on in the call that it is in, or leaves it.
  pub move-Inv :
      (p : Text) (ph : Phase) (w : World)
      → Sound w.keys ph
      → ((t : Text) → token ph ≡ some t → token (w.phase p) ≡ some t)
      → Inv w
      → Inv (move p ph w)
  move-Inv p ph w h same i =
      let back = enter_token p ph w same in
      record {
        sound = λ q. Sound-enter p q ph w h (i.sound q);
        token_used = λ q t k. i.token_used q t (back q t k);
        stored_used = i.stored_used;
        token_new = λ q t id x k. i.token_new q t id x (back q t k);
        token_own = λ q r t k l. i.token_own q r t (back q t k) (back r t l);
        retired_used = i.retired_used;
        retired_stored = i.retired_stored;
        retired_token = λ id r q k l. i.retired_token id r q k (back q r l);
      }

  pub run-Inv :
      (cs : List Command) (w : World)
      → ((id : Text) (x : AuthSession)
          → session_at c (run_commands cs w.keys) id ≡ some x
          → session_at c w.keys id ≡ some x)
      → Inv w
      → Inv (run cs w)
  run-Inv cs w old i =
      let back = λ (q t : Text) (k : token (touch cs (w.phase q)) ≡ some t).
        sym (token-touch cs (w.phase q)) ∙ k in
      record {
        sound = λ q. Sound-touch cs w.keys (w.phase q) (i.sound q);
        token_used = λ q t k. i.token_used q t (back q t k);
        stored_used = λ id x k. i.stored_used id x (old id x k);
        token_new = λ q t id x k l. i.token_new q t id x (back q t k) (old id x l);
        token_own = λ q r t k l. i.token_own q r t (back q t k) (back r t l);
        retired_used = i.retired_used;
        retired_stored = λ id r x k l. i.retired_stored id r x k (old id x l);
        retired_token = λ id r q k l. i.retired_token id r q k (back q r l);
      }

  pub start-Inv :
      (p : Text) (a : Attempt) (w : World)
      → IsAttempt c a
      → w.used a.next.refresh_token_id ≡ false
      → Inv w
      → Inv (record (move p (started a) w) { used = draw a.next.refresh_token_id w.used })
  start-Inv p a w h new i =
      let t0 = a.next.refresh_token_id in
      record {
        sound = λ q. Sound-enter p q (started a) w h (i.sound q);
        token_used = λ q t k. ground (arith, eq_refl t0, i.token_used q t);
        stored_used = λ id x k. ground (arith, i.stored_used id x);
        token_new = λ q t id x k l. ground (arith, i.stored_used id x, i.token_new q t id x);
        token_own = λ q r t k l.
            ground (
              arith,
              eq_iff q p,
              eq_iff r p,
              i.token_used q t,
              i.token_used r t,
              i.token_own q r t,
            );
        retired_used = λ id r k. ground (arith, i.retired_used id r);
        retired_stored = λ id r x k l. i.retired_stored id r x k l;
        retired_token = λ id r q k l. ground (arith, i.retired_used id r, i.retired_token id r q);
      }

  pub create-Inv :
      (x : AuthSession) (payload : Text) (ttl : _) (w : World)
      → session_at c (run_commands (store_commands x payload ttl) w.keys)
        ≡ put x.id x (session_at c w.keys)
      → w.used x.refresh_token_id ≡ false
      → Inv w
      → Inv
          (record (run (store_commands x payload ttl) w) { used = draw x.refresh_token_id w.used })
  create-Inv x payload ttl w puts new i =
      let cs = store_commands x payload ttl in
      let t0 = x.refresh_token_id in
      let at = λ (j : Text). ap (λ (m : Sessions). m j) puts in
      let back = λ (q t : Text) (k : token (touch cs (w.phase q)) ≡ some t).
        sym (token-touch cs (w.phase q)) ∙ k in
      record {
        sound = λ q. Sound-touch cs w.keys (w.phase q) (i.sound q);
        token_used = λ q t k. ground (arith, i.token_used q t (back q t k));
        stored_used = λ id y k. ground (arith, at id, eq_refl t0, i.stored_used id y);
        token_new = λ q t id y k l.
            ground (arith, at id, i.token_used q t (back q t k), i.token_new q t id y (back q t k));
        token_own = λ q r t k l. i.token_own q r t (back q t k) (back r t l);
        retired_used = λ id r k. ground (arith, i.retired_used id r);
        retired_stored =
            λ id r y k l. ground (arith, at id, i.retired_used id r k, i.retired_stored id r y k);
        retired_token = λ id r q k l. i.retired_token id r q k (back q r l);
      }
