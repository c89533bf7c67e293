-- ===== src/Issuer.antt =====
-- auth-oidc/src/testkit.rs: the local issuer for tests. Sockets and TLS are left out: what they and
-- the generation of the key and the certificate return are arguments. An operation that panics
-- returns `panicked`; `u64` sums are checked, as in a debug build.
pub mod Laws
pub mod Keys
pub mod Signing
pub mod Window
pub mod Opened
pub mod Minted
pub mod Crowd
pub mod LoggedIn
use auth_oidc.Prelude.{
  ℕ, ◌+◌, ◌-◌, ◌^◌, ◌++◌, List, [], ◌∷◌, none, Text, codes, not, leb, ltb, length, take, drop,
}
use auth_oidc.Error.{Result, ok, ◌>>=◌, ◌>>◌, Reply, or_error, refuse_if, panicked}
use auth_oidc.External.{External}
use auth_oidc.Json.{Value, number, string, array, object, Items, nil, cons, end, field}
use auth_oidc.Jwt.{dot, alg_es256, curve_p256}
use auth_oidc.Jwks.{ec_kty}
use auth_oidc.Fetcher.{Response}

-- `expect` and `unwrap` on a library's result.
abbrev pub expect {ℓ} : {A : Type ℓ} → Reply A → Result A
expect r = or_error r (λ reason. panicked)

-- `&s[from..to]`
unfoldable pub slice : ℕ → ℕ → List ℕ → Result (List ℕ)
slice from to bytes = do
  refuse_if (not (leb to (length bytes))) panicked
  ok (take (to - from) (drop from bytes))

-- A sum of `u64`s.
unfoldable pub checked_add : ℕ → ℕ → Result ℕ
checked_add a b = do refuse_if (not (ltb (a + b) (2 ^ 64))) panicked; ok (a + b)

unfoldable pub checked_sub : ℕ → ℕ → Result ℕ
checked_sub a b = do refuse_if (ltb a b) panicked; ok (a - b)

-- What the server writes to every request: the status 200 and the document, whose length it states.
abbrev pub respond : Text → Response
respond jwks = record { status = 200; body = record { bytes = jwks; fault = none } }

module _ {N : Type 0} where
  abbrev pub strings : List Text → Items N
  strings [] = nil
  strings (s ∷ ss) = cons (string s) (strings ss)

  -- The documents that the issuer writes. The fields of an object are in the order of its keys, as
  -- `serde_json::Map` keeps them.
  unfoldable pub key_doc : (kid x y : Text) → Value N
  key_doc kid x y = object (
      field (codes "alg") (string alg_es256) (
        field (codes "crv") (string curve_p256) (
          field (codes "kid") (string kid) (
            field (codes "kty") (string ec_kty) (
              field (codes "use") (string (codes "sig"))
                (field (codes "x") (string x) (field (codes "y") (string y) end)))))))

  unfoldable pub key_set_doc : (kid x y : Text) → Value N
  unfolding key_doc
  key_set_doc kid x y = object (field (codes "keys") (array (cons (key_doc kid x y) nil)) end)

  unfoldable pub head_doc : (kid : Text) → Value N
  head_doc kid = object (
      field (codes "alg") (string alg_es256)
        (field (codes "kid") (string kid) (field (codes "typ") (string (codes "JWT")) end)))

  unfoldable pub claims_doc :
      (iss sub : Text) (roles : List Text) (aud : Text) (exp nbf : N) → Value N
  claims_doc iss sub roles aud exp nbf = object (
      field (codes "aud") (string aud) (
        field (codes "exp") (number exp) (
          field (codes "iss") (string iss) (
            field (codes "nbf") (number nbf) (
              field (codes "roles") (array (strings roles))
                (field (codes "sub") (string sub) end))))))

-- What the kit calls and does not implement: ring's key pair, base64, and serde_json.
pub record Kit (ext : External) : Type 1 where
  pub KeyPair : Type 0
  pub public_key : KeyPair → List ℕ
  -- `EcdsaKeyPair::sign`, at one state of the random generator
  pub sign : KeyPair → (seed : ℕ) → Text → Reply (List ℕ)
  -- `URL_SAFE_NO_PAD.encode`
  pub b64_encode : List ℕ → Text
  -- `serde_json::to_vec`, and `to_string` of a value
  pub to_vec : Value ext.Number → Reply (List ℕ)
  pub to_string : Value ext.Number → Text
  -- `Number::from`
  pub from_u64 : ℕ → ext.Number

module _ (ext : External) (kit : Kit ext) where
  open ext use {Number}
  open kit use {KeyPair, public_key, b64_encode, to_vec, to_string, from_u64}

  pub record Issuer : Type 0 where
    pub issuer : Text
    pub kid : Text
    pub key : KeyPair
    pub jwks_url : Text
    pub cert_pem : Text

  -- The issuer, and the key set that its server writes to every request. The key, the certificate
  -- and the address of the listener are those that the system returned.
  unfoldable pub start :
      (issuer kid : Text)
      → (generated : Reply KeyPair) (cert addr : Reply Text) → Result (Issuer × Text)
  unfolding slice key_set_doc
  start issuer kid generated cert addr = do
    key ← expect generated
    let point = public_key key
    x ← slice 1 33 point
    y ← slice 33 65 point
    let jwks = to_string (key_set_doc kid (b64_encode x) (b64_encode y))
    cert_pem ← expect cert
    local_addr ← expect addr
    let jwks_url = codes "https://" ++ local_addr ++ codes "/jwks"
    ok (
      record { issuer = issuer; kid = kid; key = key; jwks_url = jwks_url; cert_pem = cert_pem },
      jwks,
    )

  module _ (i : Issuer) where
    unfoldable pub settings : (audience : Text) → Value Number
    settings audience = object (
        field (codes "audience") (string audience) (
          field (codes "authorization_endpoint") (string (i.issuer ++ codes "/authorize")) (
            field (codes "ca_cert_pem") (string i.cert_pem) (
              field (codes "issuer") (string i.issuer) (
                field (codes "jwks_url") (string i.jwks_url) (
                  field (codes "role_claim") (string (codes "roles"))
                    (field (codes "token_endpoint") (string (i.issuer ++ codes "/token")) end)))))))

    unfoldable pub sign : (seed : ℕ) → Value Number → Result Text
    unfolding head_doc
    sign seed claims = do
      head ← expect (to_vec (head_doc i.kid))
      body ← expect (to_vec claims)
      let input = b64_encode head ++ dot ∷ b64_encode body
      signature ← expect (kit.sign i.key seed input)
      ok (input ++ dot ∷ b64_encode signature)

    -- `now` is the reading of the clock, in seconds.
    unfoldable pub mint : (seed now : ℕ) (sub : Text) (roles : List Text) (aud : Text) → Result Text
    unfolding checked_add checked_sub claims_doc
    mint seed now sub roles aud = do
      exp ← checked_add now 3600
      nbf ← checked_sub now 10
      sign seed (claims_doc i.issuer sub roles aud (from_u64 exp) (from_u64 nbf))
