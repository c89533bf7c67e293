-- ===== src/Lib.antt =====
-- The OIDC authentication module of busbar: a model of the code and proofs about it.
--
-- The program verifies a bearer token against the keys of an OpenID Connect provider. A token is split
-- and decoded; a cache of the provider's key set, refreshed under a rate limit, supplies the keys that
-- the token's `kid` selects, and each is tried on the signature; the claims are checked against the
-- configuration; and a principal with its roles and a cache lifetime is made. The same path identifies
-- the user of a browser login from the provider's token response. When the plugin opens, the addresses
-- of the key set and of the login endpoints are configured or discovered.
--
-- Files, and the code that each models:
--   Error, Json, Config     error messages as values, `serde_json::Value`, and `OidcConfig` with its
--                           defaults (auth-oidc/src/lib.rs)
--   External                what other crates supply: base64, the deserialisers, JSON numbers and floats,
--                           ring's two verifications, the URL parser
--   Jwt                     auth-oidc/src/jwt.rs: split, verify_signature, claims
--   Jwks                    auth-oidc/src/jwks.rs: KeyMaterial, Jwk, JwkSet
--   Cache                   auth-oidc/src/cache.rs: JwksCache, as one caller at a time runs it
--   Threads                 auth-oidc/src/cache.rs: refresh, as any number of threads run it
--   Callers                 auth-oidc/src/cache.rs: with_key, as any number of callers run it
--   Claims                  auth-oidc/src/lib.rs: OidcVerifier::validate_claims and its readers of
--                           claims, and the reading of the clock
--   Oidc                    auth-oidc/src/lib.rs: OidcModule, verify_with, verify, authenticate; one
--                           request at a time, and any number over one cache
--   Login                   auth-oidc/src/lib.rs: LoginModule, the authorize URL and the token form
--   Discovery               auth-oidc/src/lib.rs: resolve_jwks_url, resolve_login_endpoints; and
--                           auth-oidc-plugin/src/lib.rs: open_with, open
--   Fetcher                 auth-oidc/src/reqwest_fetcher.rs: ReqwestFetcher and read_capped
--   Issuer                  auth-oidc/src/testkit.rs: the local issuer for tests
--   LiveCheck               auth-oidc/examples/entra_live_check.rs
--   Tests                   runs of the definitions on a concrete provider
-- Each directory beside a file holds proofs about it. Prelude has what all of them share.
--
-- State and effects. The cache is a value of type `JwksCache`; what its data lock guards is `Inner`.
-- A call takes a `Store`, the inner data with the number of requests made so far, and returns a
-- result and the next store. The provider is any function from the number of a request and its URL
-- to an answer. In Threads and Callers each block under the data lock is one step, and so is each
-- operation on the gate: the sequential functions `snapshot`, `admit`, `recheck`, `settle` and
-- `serve_within_ceiling` are those blocks, used in both. A fetch may panic there: the guard of the gate
-- is dropped, which frees the gate and poisons it, and the next thread takes the guard out of the error. A method that writes a key's memo returns
-- the key too; the store keeps the key with an empty memo, since the memo holds what the key decodes
-- to anyway.
--
-- Descriptions beside the code. Cache/Reference says in a few lines what a lookup comes to: one lookup
-- in the keys at hand, or one in those of a refresh. Cache/Abstract says it again for keys in no order,
-- a quotient of the lists, and for a check that says only yes or no. Callers/Answers and Threads/Genuine
-- say which answers the provider gives in a run, and when they are good: Oidc/Genuine and Issuer/Crowd
-- are about requests in such runs.
--
-- Numbers. Times of the monotonic clock and durations are nanoseconds in ℕ, where subtraction stops at
-- 0 as `saturating_duration_since` does; `Duration::saturating_mul` stops at `duration_max`. UNIX times
-- are integers, added and subtracted with the saturation of `i64`; a hypothesis `IsI64` says that a
-- reading fits, and `IsTyped` says so of the numbers that serde_json and the cast from `f64` return.
-- Texts are lists of bytes. No definition has fuel: every function is by structural recursion.
--
-- The issuer and the live check run against the models of the other parts. A panic there, of an `expect`
-- or of arithmetic out of range, is the error `panicked`. What the network, the environment, the clock
-- and the random generator return is an argument.
--
-- Not modelled: the text of messages, for which an error has a constructor with what it reports; log
-- lines; a panic of the check that `with_key` is given, or of the system; reqwest's client and TLS, whose responses are an argument; the
-- key generation, certificate and sockets of auth-oidc/src/testkit.rs; the C ABI that a macro of
-- another crate exports; and the tests.
pub mod Prelude
pub mod Error
pub mod Json
pub mod Config
pub mod External
pub mod Jwks
pub mod Jwt
pub mod Cache
pub mod Claims
pub mod Threads
pub mod Callers
pub mod Oidc
pub mod Fetcher
pub mod Issuer
pub mod LiveCheck
pub mod Discovery
pub mod Login
pub mod Tests
