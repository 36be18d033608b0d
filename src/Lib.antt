-- ===== src/Lib.antt =====
-- The user service: accounts, roles, logins and the life of tokens and sessions.
--
-- The program keeps users in a relational database and one authentication session per login in
-- Redis. `Authenticate` issues an access and a refresh token that carry the identifier of the
-- session; the session names the two tokens. Each validation parses the token, reads the session
-- and compares the two. `RefreshToken` rotates the session to the identifiers of a new pair,
-- `Logout` and `LogoutAll` delete sessions, and every change of roles and every deletion of an
-- account deletes the sessions of the user first. Several processes may call `Rotate` on one session
-- at a time; `WATCH` tells their transactions apart. A gRPC and an HTTP server offer the service.
--
-- Files and the code they are about:
--   Go, Go/*                what the code uses of the language and the standard library: strings as
--                           lists of code points, errors with `errors.Is`, times in nanoseconds, and
--                           `Action S A`, a call that reads and changes a state `S` and may fail
--   Domain                  internal/domain/user.go, the data types
--   Domain/Ports            its interfaces `UserRepository` and `AuthSessionStore`, as records of
--                           operations
--   Domain/Contract         the contract of a session store: it behaves as a map from identifiers to
--                           sessions
--   Service                 internal/service/user_service.go: the struct, its packages, the claims
--   Service/Tokens          `Authenticate`, `ValidateToken`, `RefreshToken`, `Logout`, `LogoutAll`,
--                           `validateToken`, `parseToken`, `issueTokenPair`, `signJWT`, `roleNames`
--   Service/Users           `CreateUser` ... `RevokeRole`, `normalizeRoleOperation`
--   Service/Contract        the hypotheses on the packages that the service is given
--   Repository/Redis        internal/repository/redis/redis.go: `SessionCache` with its methods, the
--                           pipelines as lists of commands; Repository/Redis/Profiles: its cache of
--                           user profiles
--   Repository/Redis/Keyspace
--                           what Redis documents of these commands: the hypotheses on the client
--   Repository/Redis/Concurrent
--                           calls of `Rotate` that interleave: a step relation on the keys of the
--                           server and the phase of each caller
--   Repository/Models       internal/models (users, roles, assignments) and
--                           internal/repository/user_mapper.go
--   Repository/Users        internal/repository/user_repository.go: the nine methods, on a record
--                           `Database` of the statements that they run through gorm
--   Repository/Users/Tables what gorm and SQL document of these statements: the hypotheses on the
--                           database
--   Config                  internal/config/config.go: `Load`, cut at its groups of checks
--   Auth                    internal/auth/context.go: claims in the context, bearer tokens, roles
--   Grpc                    internal/middleware/interceptors.go and the chain of cmd/server/main.go:
--                           replies, handlers, `Recovery`, `Authentication`, `Logging`
--   Grpc/Errors, Grpc/Server
--                           internal/server/grpc/user_server.go: `toGRPCError` and the methods of
--                           `UserGRPCServer` (`logout_call` is its `Logout`, and so on)
--   Http                    internal/server/http/middleware/auth.go and
--                           internal/server/http/handler/error_handler.go
--   Http/Messages           internal/server/http/handler/user_dto.go and auth_dto.go
--   Http/Handlers           internal/server/http/handler: the methods of `UserHandler`, and the routes
--                           of user_handler.go as handlers behind their middleware
--   Http/Middleware         internal/server/http/middleware/middleware.go, and the order of this
--                           middleware in cmd/server/main.go
--   Health                  internal/health/checker.go: `Check`, by the order of the answers
-- The other files of a folder hold the proofs about its parent; Sample and Tests hold concrete
-- inputs.
--
-- How they interact: the service takes a `UserRepository` and an `AuthSessionStore` as records;
-- Repository/Redis fills the second, and its theorems are those that the service's proofs take;
-- Repository/Users fills the first, and Repository/Users/Identity and Repository/Users/Revocation join
-- it to the service. Grpc/Requests puts the interceptor, the methods, the service and the repository
-- together. The interceptor and the middleware `Authentication` take a validator, which the service fills, and put
-- its claims into the context that the methods check.
--
-- Parameters: the JWT package (signing and parsing), bcrypt, the uuid package, the clock, the case
-- tables of Unicode, `float64`, the Redis client, the JSON package, gorm, and of the configuration
-- `os.Getenv`, `time.ParseDuration` and `strconv.Atoi`. Their hypotheses are the records JwtLaws,
-- SignedLaws, Separate, UnicodeLaws, FloatLaws, ClientLaws, CacheLaws, UuidLaws and UsersLaws.
-- ClientLaws lets every call fail; after an error a call has had its whole effect or none (a lost
-- reply), and a transaction whose watched key has changed has had none. UsersLaws lets every
-- statement fail, without effect, and a transaction that fails leaves the tables as they were. The
-- steps of Repository/Redis/Concurrent take from Redis that one transaction runs at a time, and not
-- at all if a command has touched its watched key; they let any caller give up at any time, and keys
-- expire at any time.
--
-- Bounds: the loop of `Rotate` has three attempts, a constant of the source, and recurses on the
-- attempts left; in the step relation a call may try again without bound, which allows every run of
-- the source. No other definition runs on fuel. Page offsets wrap at 64 bits, as `int` does.
--
-- Not modelled: tracing, metrics, and the text of log entries (what `Logging` and `Recovery`
-- write is a parameter; the service's own entries are left out); contexts and their cancellation;
-- time as seen by Redis (a key that expires is a key that is removed); durations beyond 64 bits;
-- strings that are not valid UTF-8; nil pointers to sessions, which the service never passes. The
-- paths and verbs of the HTTP routes, the wiring of the process in cmd/server, the opening of databases
-- and the generated protobuf code have no file here. Of the relational database, the order of rows
-- and the cut into pages are left to the parameter.
pub mod Auth
pub mod Base
pub mod Config
pub mod Domain
pub mod Go
pub mod Grpc
pub mod Health
pub mod Http
pub mod Repository
pub mod Service
