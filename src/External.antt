-- ===== src/External.antt =====
-- What the source calls and does not implement: the crates base64, serde_json (with the derived
-- deserialisers), ring and reqwest's URL parser, and the floating-point operations of Rust.
use auth_oidc.Prelude.{ℕ, Bool, Option, List, Text}
use auth_oidc.Prelude.Int.{ℤ}
use auth_oidc.Error.{Reply}
use auth_oidc.Json.{Value}
use auth_oidc.Config.{OidcConfig}
use auth_oidc.Jwks.Key.{Jwk}
use auth_oidc.Jwt.Token.{Header}

pub record External : Type 1 where
  -- `serde_json::Number` and its accessors; `f64`, its rounding, and the cast `as i64`.
  pub Number : Type 0
  pub Float : Type 0
  pub as_i64 : Number → Option ℤ
  pub as_f64 : Number → Option Float
  pub floor : Float → Float
  pub ceil : Float → Float
  pub to_i64 : Float → ℤ
  -- `URL_SAFE_NO_PAD.decode`
  pub b64_decode : Text → Option (List ℕ)
  -- `serde_json::from_slice::<Header>` and `::<Value>`, `from_str::<Value>` and `::<OidcConfig>`
  pub header_from_slice : List ℕ → Reply Header
  pub value_from_slice : List ℕ → Reply (Value Number)
  pub value_from_str : Text → Reply (Value Number)
  pub config_from_str : Text → Reply OidcConfig
  -- the raw `keys` array of a JWKS document, and `from_value::<Jwk>` on an entry
  pub keys_from_str : Text → Reply (List (Value Number))
  pub jwk_from_value : Value Number → Option Jwk
  -- `RSA_PKCS1_2048_8192_SHA256` and `ECDSA_P256_SHA256_FIXED`: key, message, signature
  pub rsa_verify : (n e : List ℕ) → Text → List ℕ → Bool
  pub ecdsa_verify : (point : List ℕ) → Text → List ℕ → Bool
  -- the scheme of `reqwest::Url::parse`
  pub url_scheme : Text → Reply Text
