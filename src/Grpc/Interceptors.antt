-- ===== src/Grpc/Interceptors.antt =====
-- The chain of interceptors: panics, and the log entries of refused calls.
use storemesh_user_service.Base.{◌≡◌, ◌≢◌, List, ap, inl, inr, Option, false, arith, Bool-cases}
use storemesh_user_service.Go.Text.{Text, ◌==◌, Unicode}
use storemesh_user_service.Go.Text.Laws.{eq_iff}
use storemesh_user_service.Go.Action.Laws.{Result-cases}
use storemesh_user_service.Domain.{TokenClaims, token_type_access}
use storemesh_user_service.Auth.{Context, TokenValidator, parse_bearer_token}
use storemesh_user_service.Grpc.{
  Reply, reply, fail, panicked, Status, Handler, recovered, recovery, authentication, logging,
  chain, is_public, public_methods, authorization_of,
}
use storemesh_user_service.Grpc.Access.{Admission}

recovered_no_panic :
    {S A : Type 0} (log : Text → S → S) (r : Reply A × S) (m : Text)
    → (recovered log r).0 ≢ panicked m
recovered_no_panic log (reply a, s) m h = cc h
recovered_no_panic log (fail e, s) m h = cc h
recovered_no_panic log (panicked n, s) m h = cc h

module _ {S A : Type 0} (u : Unicode) (v : TokenValidator S) where
  refused_alike :
      (h k : Handler S A) (methods : List Text) (method : Text) (ctx : Context) (s : S)
      → is_public methods method ≡ false
      → ((claims : TokenClaims) (s' : S) → Admission u v ctx s claims s' → ⊥)
      → authentication u v h methods method ctx s ≡ authentication u v k methods method ctx s
  unfolding authentication
  refused_alike h k methods method ctx s private never =
      elim (Result-cases (authorization_of ctx.incoming)) [
        | inr (e, p) ↦ ground arith
        | inl (value, p) ↦ elim (Result-cases (parse_bearer_token u value)) [
          | inr (e, q) ↦ ground arith
          | inl (token, q) ↦ elim (Result-cases (v.validate_token token s).0) [
            | inr (e, r) ↦ ground arith
            | inl (claims, r) ↦ elim (Bool-cases (claims.token_type == token_type_access)) [
              | inr other ↦ ground arith
              | inl access ↦ absurd (
                  never claims (v.validate_token token s).1 (record {
                    authorization = value;
                    value = p;
                    token = token;
                    parsed = q;
                    validated = ground arith;
                    access = ground (arith, eq_iff claims.token_type token_type_access);
                  }))
            ]
          ]
        ]
      ]

  module _ (method : Text) (handler : Handler S A) (ctx : Context) (s : S)
      (log_panic : Text → S → S) where
    -- Whatever the handler does, the chain answers with a response or a status, never with a panic.
    pub chain_no_panic :
        (log : Option Status → S → S) (m : Text)
        → (chain u v log_panic log method handler ctx s).0 ≢ panicked m
    unfolding chain recovery
    chain_no_panic log m =
        recovered_no_panic log_panic
          (authentication u v (logging log handler) public_methods method ctx s) m

    -- A call of a method that is not public and without a token that is accepted gets no entry by
    -- `Logging`: its reply and its end state are the same whatever `Logging` writes.
    pub chain_refused_unlogged :
        (log log' : Option Status → S → S)
        → is_public public_methods method ≡ false
        → ((claims : TokenClaims) (s' : S) → Admission u v ctx s claims s' → ⊥)
        → chain u v log_panic log method handler ctx s
          ≡ chain u v log_panic log' method handler ctx s
    unfolding chain recovery
    chain_refused_unlogged log log' private never = ap (recovered log_panic) (
        refused_alike (logging log handler) (logging log' handler) public_methods method ctx s
          private never)
