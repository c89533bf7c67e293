-- ===== src/Login/Url.antt =====
-- The query of the authorize URL, read back.
use auth_oidc.Prelude.{
  ℕ, ◌<◌, ◌≡◌, ◌++◌, List, [], ◌∷◌, map, Option, none, some, Text, codes, Bool, true, if◌then◌else◌,
  not, ◌&&◌, eqb, any, unwrap_or, All,
}
use auth_oidc.Config.{OidcConfig}
use auth_oidc.Oidc.{resolved_client_id}
use auth_oidc.Jwt.{split_on}
use auth_oidc.Login.{pct, scope_value}
use auth_oidc.Login.Percent.{unpct}

abbrev amp : ℕ
amp = b'&'

abbrev equals : ℕ
equals = b'='

-- A parameter before the first `=`, and what follows it.
unfoldable pub cut : Text → Text × Text
cut [] = ([], [])
cut (c ∷ s) = let (name, rest) = cut s in if eqb c equals then ([], s) else (c ∷ name, rest)

-- The parameters of a query, as the receiver reads them.
unfoldable pub read_param : Text → Text × Text
unfolding cut
read_param s = let (name, rest) = cut s in (name, unpct rest)

unfoldable pub read_query : Text → List (Text × Text)
read_query s = map read_param (split_on amp s)

abbrev encoded : Text × Text → Text
encoded (name, raw) = name ++ equals ∷ pct raw

abbrev IsBytes : Text → Type 0
IsBytes s = All (λ b. b < 256) s

abbrev is_plain : Text → Bool
is_plain [] = true
is_plain (c ∷ s) = not (eqb c amp) && (not (eqb c equals) && is_plain s)

-- The name is plain, and the value is made of bytes.
abbrev IsParam : Text × Text → Type 0
IsParam (name, raw) = (is_plain name ≡ true) × IsBytes raw

abbrev nonce_params : Option Text → List (Text × Text)
nonce_params none = []
nonce_params (some nonce) = (codes "nonce", nonce) ∷ []

abbrev nonce_values : Option Text → List Text
nonce_values none = []
nonce_values (some nonce) = nonce ∷ []

module _ (cfg : OidcConfig) (redirect_uri state code_challenge : Text) where
  -- What the URL asks for.
  abbrev pub params : Option Text → List (Text × Text)
  params nonce =
      (codes "response_type", codes "code")
      ∷ (codes "client_id", resolved_client_id cfg)
      ∷ (codes "redirect_uri", redirect_uri)
      ∷ (codes "scope", scope_value cfg)
      ∷ (codes "state", state)
      ∷ (codes "code_challenge", code_challenge)
      ∷ (codes "code_challenge_method", codes "S256")
      ∷ nonce_params nonce

  abbrev pub separator : ℕ
  separator = if any (eqb b'?') (unwrap_or cfg.authorization_endpoint []) then amp else b'?'

  -- The values that the caller and the configuration give are made of bytes.
  pub record HasBytes (nonce : Option Text) : Type 0 where
    pub client : IsBytes (resolved_client_id cfg)
    pub redirect : IsBytes redirect_uri
    pub scope : IsBytes (scope_value cfg)
    pub st : IsBytes state
    pub challenge : IsBytes code_challenge
    pub nonces : All IsBytes (nonce_values nonce)
