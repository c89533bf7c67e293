-- ===== src/LiveCheck.antt =====
-- auth-oidc/examples/entra_live_check.rs: the check of the module against a live tenant. What the
-- environment, the network and the clock return are arguments; a panic is the error `panicked`.
pub mod Skips
pub mod Sound
pub mod Granted
pub mod Verdict
use auth_oidc.Prelude.{
  ℕ, suc, ◌*◌, ◌++◌, List, [], ◌∷◌, Option, none, some, Text, codes, if◌then◌else◌, Bool, true,
  false, not, ◌&&◌, eqb, leb, ltb, and_then,
}
use auth_oidc.Prelude.Int.{ℤ}
use auth_oidc.Error.{Result, ok, err, ◌>>=◌, ◌>>◌, ok_or, Reply, refuse_if, panicked}
use auth_oidc.External.{External}
use auth_oidc.Json.{Value, string, object, get, as_str, end, field}
use auth_oidc.Config.{OidcConfig}
use auth_oidc.Jwt.{dot, split_on}
use auth_oidc.Cache.{nanos_per_sec, fresh_store}
use auth_oidc.Fetcher.Client.{Reqwest, new_client, fetch_with}
use auth_oidc.Oidc.{AuthVerdict, identify, reject, pass, new, authenticate}
use auth_oidc.Discovery.{resolve_jwks_url}
use auth_oidc.Issuer.{expect}

-- The status of a response, and what `text` makes of its body.
pub record Answer : Type 0 where
  pub status : ℕ
  pub text : Reply Text

-- What the check reads of its surroundings.
pub record Surroundings (ext : External) : Type 1 where
  -- `env::var(key).ok()`, and whether `env::var_os(key)` is there
  pub var : Text → Option Text
  pub is_set : Text → Bool
  pub post : (url : Text) → List (Text × Text) → Reply Answer
  -- reqwest and the network, at the time of the first module and of the second
  pub web : Reqwest
  pub web2 : Reqwest
  -- `serde_json::from_value::<OidcConfig>`, and the check of `String::from_utf8`
  pub config_from_value : Value ext.Number → Reply OidcConfig
  pub is_utf8 : List ℕ → Bool
  -- the clocks at the two calls of `authenticate`: seconds since 1970, and monotonic
  pub clock : Option ℕ
  pub clock2 : Option ℕ
  pub mono : ℕ
  pub mono2 : ℕ

-- How the program ends.
pub data Outcome : Type 0 where
  passed skipped failed : Outcome

abbrev keep_non_empty : Text → Option Text
keep_non_empty [] = none
keep_non_empty (c ∷ s) = some (c ∷ s)

abbrev is_identify : AuthVerdict → Bool
is_identify (identify p) = true
is_identify reject = false
is_identify pass = false

abbrev is_reject : AuthVerdict → Bool
is_reject (identify p) = false
is_reject reject = true
is_reject pass = false

-- The first three segments of the token; any that follow are not looked at.
unfoldable pub first_three : List Text → Result (Text × Text × Text)
first_three [] = err panicked
first_three (h ∷ []) = err panicked
first_three (h ∷ p ∷ []) = err panicked
first_three (h ∷ p ∷ s ∷ rest) = ok (h, p, s)

-- Another first byte.
unfoldable pub tamper : Text → Result Text
tamper [] = err panicked
tamper (c ∷ s) = ok ((if not (eqb c b'A') then b'A' else b'B') ∷ s)

-- A failed call that is unwrapped.
abbrev unwrap : {A : Type 0} → Result A → Result A
unwrap (ok a) = ok a
unwrap (err e) = err panicked

-- The time limit of the two fetchers.
abbrev pub live_timeout : ℕ
live_timeout = 10 * nanos_per_sec

abbrev pub login_host : Text
login_host = codes "https://login.microsoftonline.com/"

module _ (ext : External) (at : Surroundings ext) where
  open ext use {Number, value_from_str}
  open at use {var, is_set, post, web, web2, config_from_value, is_utf8, clock, clock2, mono, mono2}

  unfoldable pub env_or_skip : Text → Option Text
  env_or_skip key = and_then (var key) keep_non_empty

  -- The password grant: the identity token of the response.
  unfoldable pub request_token : (tenant client_id username password : Text) → Result Text
  request_token tenant client_id username password = do
    let token_endpoint = login_host ++ tenant ++ codes "/oauth2/v2.0/token"
    resp ← expect (
        post token_endpoint (
          (codes "grant_type", codes "password")
          ∷ (codes "client_id", client_id)
          ∷ (codes "username", username)
          ∷ (codes "password", password)
          ∷ (codes "scope", codes "openid profile email")
          ∷ []))
    text ← expect resp.text
    body ← expect (value_from_str text)
    refuse_if (not (leb 200 resp.status && ltb resp.status 300)) panicked
    ok_or (and_then (get (codes "id_token") body) as_str) panicked

  unfoldable pub tampered_token : Text → Result Text
  unfolding split_on first_three tamper
  tampered_token id_token = do
    (header, payload, sig) ← first_three (split_on dot id_token)
    tampered_sig ← tamper sig
    refuse_if (not (is_utf8 tampered_sig)) panicked
    ok (header ++ dot ∷ payload ++ dot ∷ tampered_sig)

  -- The real token is identified; a tampered copy is rejected.
  unfoldable pub check_token : OidcConfig → Text → Result (Unit {0})
  check_token cfg id_token = do
    client ← unwrap (new_client web live_timeout none)
    let fetcher = fetch_with web client
    jwks_url ← unwrap (resolve_jwks_url ext cfg (fetcher 0))
    let oidc = new cfg jwks_url (λ n. fetcher (suc n))
    let outcome = (authenticate ext oidc (some id_token) clock mono fresh_store).0
    refuse_if (not (is_identify outcome)) panicked
    tampered ← tampered_token id_token
    client2 ← unwrap (new_client web2 live_timeout none)
    let oidc2 = new cfg jwks_url (fetch_with web2 client2)
    let tampered_outcome = (authenticate ext oidc2 (some tampered) clock2 mono2 fresh_store).0
    refuse_if (not (is_reject tampered_outcome)) panicked

  -- The settings, in the order of their keys.
  unfoldable pub live_doc : (tenant client_id : Text) → Value Number
  live_doc tenant client_id = object (
      field (codes "audience") (string client_id)
        (field (codes "issuer") (string (login_host ++ tenant ++ codes "/v2.0")) end))

  unfoldable pub live_check : (tenant client_id username password : Text) → Result (Unit {0})
  unfolding live_doc
  live_check tenant client_id username password = do
    id_token ← request_token tenant client_id username password
    cfg ← expect (config_from_value (live_doc tenant client_id))
    check_token cfg id_token

  abbrev end_of : Result (Unit {0}) → Outcome
  end_of (ok u) = passed
  end_of (err e) = failed

  -- The four variables, if each is set and not empty.
  unfoldable pub credentials : Option (Text × Text × Text × Text)
  unfolding env_or_skip
  credentials = and_then (env_or_skip (codes "ENTRA_TENANT_ID")) (λ tenant.
      and_then (env_or_skip (codes "ENTRA_CLIENT_ID")) (λ client_id.
        and_then (env_or_skip (codes "ENTRA_TEST_USERNAME")) (λ username.
          and_then (env_or_skip (codes "ENTRA_TEST_PASSWORD"))
            (λ password. some (tenant, client_id, username, password)))))

  unfoldable pub main : Outcome
  main = elim credentials [
    | none ↦ if is_set (codes "CI") then failed else skipped
    | some (tenant, client_id, username, password) ↦
        end_of (live_check tenant client_id username password)
  ]
