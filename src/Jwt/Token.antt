-- ===== src/Jwt/Token.antt =====
-- The data of auth-oidc/src/jwt.rs.
use auth_oidc.Prelude.{ℕ, Option, List, Text}

pub record Header : Type 0 where
  pub alg : Text
  pub kid : Option Text
  pub crit : Option (List Text)

pub record Parts : Type 0 where
  pub header : Header
  pub payload : List ℕ
  pub signature : List ℕ
  pub signing_input : Text
