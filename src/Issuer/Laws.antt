-- ===== src/Issuer/Laws.antt =====
-- What the test kit relies on of ring, base64 and serde_json.
use auth_oidc.Prelude.{ℕ, ◌<◌, ◌^◌, ◌≡◌, ◌++◌, List, [], ◌∷◌, none, some, Text, codes, true, length}
use auth_oidc.Prelude.Int.{pos}
use auth_oidc.Error.{Reply, value}
use auth_oidc.External.{External}
use auth_oidc.Config.{OidcConfig, default_min_refetch_secs, default_ttl_secs}
use auth_oidc.Json.{Value}
use auth_oidc.Jwks.Key.{Jwk}
use auth_oidc.Jwks.{ec_kty}
use auth_oidc.Jwt.Token.{Header}
use auth_oidc.Jwt.{dot, alg_es256, curve_p256}
use auth_oidc.Jwt.Segments.{Free}
use auth_oidc.Issuer.{Kit, Issuer, key_doc, key_set_doc}

-- An uncompressed point of P-256: the byte 4, and two coordinates of 32 bytes.
pub record IsPoint (point x y : List ℕ) : Type 0 where
  pub layout : point ≡ 4 ∷ (x ++ y)
  pub left : length x ≡ 32
  pub right : length y ≡ 32

-- The key that an entry of the served set is read to.
abbrev pub served_key : (kid x y : Text) → Jwk
served_key kid x y = record {
  kty = ec_kty;
  kid = some kid;
  n = none;
  e = none;
  crv = some curve_p256;
  x = some x;
  y = some y;
  key_use = some (codes "sig");
  decoded = none;
}

abbrev pub signed_header : (kid : Text) → Header
signed_header kid = record { alg = alg_es256; kid = some kid; crit = none }

module _ (ext : External) (kit : Kit ext) where
  open ext use {
    Number, as_i64, b64_decode, header_from_slice, value_from_slice, config_from_str, keys_from_str,
    jwk_from_value, ecdsa_verify, url_scheme,
  }
  open kit use {KeyPair, public_key, b64_encode, to_vec, to_string, from_u64}

  pub record IsLawful : Type 0 where
    -- base64url is read back, and its alphabet has no dot
    pub read_back : (bytes : List ℕ) → b64_decode (b64_encode bytes) ≡ some bytes
    pub no_dot : (bytes : List ℕ) → Free dot (b64_encode bytes)
    -- a number that an `i64` holds is read back
    pub small : (n : ℕ) → n < 2 ^ 63 → as_i64 (from_u64 n) ≡ some (pos n)
    -- the public key verifies what its pair signs
    pub signs :
        (key : KeyPair) (seed : ℕ) (message : Text)
        → (signature : List ℕ) × (kit.sign key seed message ≡ value signature)
          × (ecdsa_verify (public_key key) message signature ≡ true)

  -- A document is written to bytes that are read as `a`.
  abbrev pub ReadsAs : {A : Type 0} → (List ℕ → Reply A) → Value Number → A → Type 0
  ReadsAs read doc a = (bytes : List ℕ) × (to_vec doc ≡ value bytes) × (read bytes ≡ value a)

  -- The entry of the key set, under the field names of `Jwk`.
  pub record ReadsKey (kid x y : Text) : Type 0 where
    pub array : keys_from_str (to_string (key_set_doc kid x y)) ≡ value (key_doc kid x y ∷ [])
    pub entry : jwk_from_value (key_doc kid x y) ≡ some (served_key kid x y)

  -- The configuration that the settings are read to: the fields that they have, and the defaults.
  abbrev pub served_config : Issuer ext kit → Text → OidcConfig
  served_config i audience = record {
    issuer = i.issuer;
    audience = audience;
    jwks_url = some i.jwks_url;
    role_claim = codes "roles";
    jwks_min_refetch_secs = default_min_refetch_secs;
    jwks_ttl_secs = default_ttl_secs;
    ca_cert_pem = some i.cert_pem;
    client_id = none;
    scopes = [];
    authorization_endpoint = some (i.issuer ++ codes "/authorize");
    token_endpoint = some (i.issuer ++ codes "/token");
  }
