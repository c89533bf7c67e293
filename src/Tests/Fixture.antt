-- ===== src/Tests/Fixture.antt =====
-- A provider, a token and a cache with concrete content, and a stand-in for each library function.
use auth_oidc.Prelude.{
  zero, suc, [], ◌∷◌, Option, none, some, Text, codes, ◌==◌, if◌then◌else◌, Bool, true, false, ◌&&◌,
  arith,
}
use auth_oidc.Prelude.Int.{ℤ, pos, leb_ℤ, i64_min, i64_max}
use auth_oidc.Error.{ok, err, Reply, value, failure, request_failed}
use auth_oidc.Json.{Value, null, bool, number, string, array, object, nil, cons, end, field}
use auth_oidc.Config.{OidcConfig}
use auth_oidc.External.{External}
use auth_oidc.Jwks.Key.{Jwk, JwkSet}
use auth_oidc.Jwt.Token.{Header, Parts}
use auth_oidc.Cache.{JwksCache, Store, Fetcher}
use auth_oidc.Claims.{OidcVerifier, Principal}
use auth_oidc.Claims.Times.{IsTyped}
use auth_oidc.Oidc.{OidcModule}
use auth_oidc.Oidc.Sound.{SkipsMemo}

abbrev pub rs_header : Header
rs_header = record { alg = codes "RS256"; kid = some (codes "k1"); crit = none }

abbrev pub rsa_key : Jwk
rsa_key = record {
  kty = codes "RSA";
  kid = some (codes "k1");
  n = some (codes "nn");
  e = some (codes "e");
  crv = none;
  x = none;
  y = none;
  key_use = some (codes "sig");
  decoded = none;
}

abbrev pub key_set : JwkSet
key_set = record { keys = rsa_key ∷ [] }

abbrev pub claims_doc : Value ℤ
claims_doc = object (
    field (codes "iss") (string (codes "https://idp/")) (
      field (codes "aud") (array (cons (string (codes "app")) nil)) (
        field (codes "exp") (number (pos 2_000_000_000)) (
          field (codes "sub") (string (codes "alice"))
            (field (codes "groups") (array (cons (string (codes "g1")) (cons null nil))) end)))))

abbrev pub discovery_doc : Value ℤ
discovery_doc = object (
    field (codes "issuer") (string (codes "https://idp/")) (
      field (codes "jwks_uri") (string (codes "https://idp/keys"))
        (field (codes "token_endpoint") (string (codes "https://idp/token")) end)))

abbrev pub token_doc : Value ℤ
token_doc = object (field (codes "id_token") (string (codes "h.p.s")) end)

abbrev pub config : OidcConfig
config = record {
  issuer = codes "https://idp/";
  audience = codes "app";
  jwks_url = none;
  role_claim = codes "groups";
  jwks_min_refetch_secs = 60;
  jwks_ttl_secs = 3600;
  ca_cert_pem = none;
  client_id = none;
  scopes = codes "email" ∷ [];
  authorization_endpoint = none;
  token_endpoint = none;
}

abbrev pub only {ℓ} : {A : Type ℓ} → Bool → A → Reply A
only true a = value a
only false a = failure (codes "unexpected")

abbrev in_range : ℤ → Bool
in_range z = leb_ℤ i64_min z && leb_ℤ z i64_max

abbrev pub narrow : ℤ → Option ℤ
narrow z = if in_range z then some z else none

abbrev pub cast : ℤ → ℤ
cast z = if in_range z then z else pos 0

abbrev entry : Value ℤ → Option Jwk
entry (string s) = if s == codes "rsa" then some rsa_key else none
entry null = none
entry (bool b) = none
entry (number n) = none
entry (array vs) = none
entry (object fs) = none

abbrev json_text : Text → Reply (Value ℤ)
json_text s =
    if s == codes "discovery" then value discovery_doc else only (s == codes "token") token_doc

abbrev pub ext : External
ext = record {
  Number = ℤ;
  Float = ℤ;
  as_i64 = narrow;
  as_f64 = some;
  floor = λ z. z;
  ceil = λ z. z;
  to_i64 = cast;
  b64_decode = λ s. some s;
  header_from_slice = λ bytes. only (bytes == codes "h") rs_header;
  value_from_slice = λ bytes. only (bytes == codes "p") claims_doc;
  value_from_str = json_text;
  config_from_str = λ s. only (s == codes "config") config;
  keys_from_str = λ s. only (s == codes "keys") (string (codes "rsa") ∷ null ∷ []);
  jwk_from_value = entry;
  rsa_verify = λ n e message signature. message == codes "h.p" && signature == codes "s";
  ecdsa_verify = λ point message signature. false;
  url_scheme = λ url. value (codes "https");
}

pub typed : IsTyped ext
typed = record { as_i64_range = λ n z h. ground arith; to_i64_range = λ f. ground arith }

pub skips : SkipsMemo ext
unfolding ◌==◌
skips (string s) k h = ground arith
skips null k h = cc
skips (bool b) k h = cc
skips (number n) k h = cc
skips (array vs) k h = cc
skips (object fs) k h = cc

-- The first request is answered, and no other.
abbrev pub answers_once : Fetcher
answers_once zero url = ok (codes "keys")
answers_once (suc n) url = err (request_failed (codes "down"))

abbrev pub cache : JwksCache
cache = record {
  url = codes "https://idp/keys";
  fetcher = answers_once;
  min_refetch_interval = 60;
  ttl = 3600;
  max_stale = 86400;
}

abbrev pub verifier : OidcVerifier
verifier = record {
  issuer = codes "https://idp/";
  audience = codes "app";
  role_claim = codes "groups";
}

abbrev pub oidc : OidcModule
oidc = record { verifier = verifier; login_verifier = verifier; jwks = cache; cfg = config }

-- 2026-06-01, which the token of the fixture outlives.
abbrev pub today : ℤ
today = pos 1_780_000_000

abbrev pub alice : Principal
alice = record {
  id = codes "oidc:alice";
  name = none;
  roles = codes "g1" ∷ [];
  ttl_secs = some 300;
}

abbrev pub token : Text
token = codes "h.p.s"

abbrev pub parts : Parts
parts = record {
  header = rs_header;
  payload = codes "p";
  signature = codes "s";
  signing_input = codes "h.p";
}

-- The cache after the first request, at time 100.
abbrev pub warm : Store
warm = record {
  inner = record { keys = some key_set; fetched_at = some 100; last_attempt = some 100 };
  fetches = 1;
}
