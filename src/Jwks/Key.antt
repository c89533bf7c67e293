-- ===== src/Jwks/Key.antt =====
-- The data of auth-oidc/src/jwks.rs.
use auth_oidc.Prelude.{ℕ, Option, List, Text}
use auth_oidc.Error.{Error}

pub data KeyMaterial : Type 0 where
  rsa : (n e : List ℕ) → KeyMaterial
  ec : (point : List ℕ) → KeyMaterial
  unusable : Error → KeyMaterial

-- `decoded` is the memo of the key material, empty until the first use of the key.
pub record Jwk : Type 0 where
  pub kty : Text
  pub kid : Option Text
  pub n : Option Text
  pub e : Option Text
  pub crv : Option Text
  pub x : Option Text
  pub y : Option Text
  pub key_use : Option Text
  pub decoded : Option KeyMaterial

pub record JwkSet : Type 0 where
  pub keys : List Jwk
