-- ===== src/Lib.antt =====
-- The vocabulary API (a Go service with accounts, sessions and a dictionary), from its configuration and
-- its error values up to the use cases on accounts and on words.
--
-- How the parts interact. A handler calls a use case of app/services; a use case calls the
-- repositories of app/repository, which run SQL statements (app/repository/db) and turn database
-- errors into application errors (app/lib/errors.go), and the session store, the token manager and
-- the password hasher of app/lib/auth. An error travels up as a value and is translated once, in
-- app/middleware/error.go.
--
-- Prelude: tests, lists, results, and actions that change a state and can fail (Prelude/Exec), in
--   which a state that was written before an error stays written; integers that wrap (Prelude/Int);
--   quotients of float64 (Prelude/Float).
-- Text: Go strings as lists of bytes, and what the program calls of package strings and strconv;
--   Text/Utf8 says which are of UTF-8.
-- Errors: app/lib/errors.go, the tests of app/lib/wordotronDb.go, translate of
--   app/middleware/error.go. An error is its chain of Unwrap.
-- Config: the values and the validation of app/config/config.go; Config/Load reads them.
-- Models, Models/Pagination, Models/Words, Models/UserWords: app/models/user.go, token.go,
--   pagination.go, word.go and user_word.go. Models/Pagination/Request: ParsePageParams of
--   app/lib/utils.go.
-- Db: the tables and one SQL statement at a time. Db/Users and Db/Tokens are
--   app/repository/db/users.sql.go and the two files of token statements; Db/Tx is InTx of
--   app/lib/wordotronDb.go and WithTx of app/repository/store.go. The driver may fail at any
--   statement, at begin and at commit: the fault of each step is a function of the state. A statement
--   that fails has no effect; a commit that fails may have had its own.
--   Db/Query holds what list statements share: filters, ILIKE, orders, LIMIT and OFFSET. Db/Words,
--   Db/WordSenses, Db/UserWords and Db/OauthAccounts are words.sql.go, word_senses.sql.go,
--   user_words.sql.go and oauth_accounts.sql.go of app/repository/db, with the constraints that the
--   migrations put on their tables.
-- Repository/Users, Repository/Tokens: app/repository/user_repository.go,
--   password_reset_repository.go and email_verification_repository.go. Repository/Words and
--   Repository/WordSenses: word_repository.go and word_sense_repository.go.
-- Redis: the interface of the key store, with keys that expire; durations as the client sends them.
-- Auth/Session, Auth/Token, Auth/Password: app/lib/auth/session.go, jwt.go and password.go.
-- Auth/OauthState, Auth/Google: app/lib/auth/oauth_state.go and google.go.
-- Storage: the keys and paths of app/lib/storage.
-- Services/World: what the use cases act on, with the readings of the clock and of the random sources
--   as sequences. Services/Auth and its children: app/services/auth.go. Services/User:
--   app/services/user.go, with Delete and UploadAvatar in Services/User/Files. Services/Words:
--   app/services/word.go.
-- Handlers and its children, Serializers: the endpoints of app/handlers and app/serializers.
-- Middleware: app/middleware/auth.go; Middleware/RateLimit and Middleware/RequestId:
--   app/middleware/ratelimit.go and requestid.go.
-- Tests: concrete packages, a small world, and the theorems at them.
--
-- Packages outside the repository (Redis, golang-jwt, bcrypt, uuid, sha256, base64, net/url, net/http,
-- encoding/json, path, the parsers of strconv, the collation of the database) are functions, or records
-- of them, that the definitions take; a record also holds what the documentation says of them, such as
-- that a signed token names its claims and verifies under its secret.
--
-- Bounds and fuel. An int is of 64 bits and the offset of a query of 32, both written with their
-- wrap-around. Times are nanoseconds since 1970 without an upper bound; a theorem that depends on the
-- 63 bits of a Unix time says so. The printing of a number runs on fuel of its value plus one, which
-- its round trip shows to be enough; a quotient of float64 is brought to 53 bits by at most 116
-- doublings, which ceil_quotient-eq shows to be enough below 2 ^ 53. Nothing else needs fuel.
--
-- Not modelled. Log lines, except those that hand out a link; the CPU time that DummyVerify spends;
-- panics; the cancellation of contexts otherwise than as a driver fault. Case and space of strings are
-- those of ASCII. A statement outside a transaction whose answer is lost, so that it took effect and
-- yet ends in an error, is left out, and so are the operations on stored files, the table of routes,
-- the rules of the validator, the clients of the remote services and the start of the server.
pub mod Prelude
pub mod Text
pub mod Errors
pub mod Models
pub mod Config
pub mod Db
pub mod Repository
pub mod Redis
pub mod Storage
pub mod Auth
pub mod Services
pub mod Handlers
pub mod Serializers
pub mod Middleware
pub mod Tests
