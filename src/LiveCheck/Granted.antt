-- ===== src/LiveCheck/Granted.antt =====
-- The credentials of the live check, and the token that the tenant grants for them.
use auth_oidc.Prelude.{
  ℕ, ◌≤◌, ◌<◌, ◌≡◌, ◌≢◌, ◌↔◌, ◌++◌, refl, ap, ◌∙◌, inl, inr, [], ◌∷◌, Option, none, some, Text,
  codes, arith, not, ◌&&◌, leb, ltb, Option-cases, and_then,
}
use auth_oidc.Error.{ok, value, >>=-eq-ok, refuse_if, ok_or, panicked}
use auth_oidc.External.{External}
use auth_oidc.Json.{Value, string, get, as_str, as_str-eq-some}
use auth_oidc.Issuer.{expect}
use auth_oidc.LiveCheck.{
  Surroundings, Answer, keep_non_empty, env_or_skip, credentials, request_token,
}
use auth_oidc.LiveCheck.Sound.{expect-eq-ok}

abbrev together : (a b c d : Option Text) → Option (Text × Text × Text × Text)
together a b c d =
    and_then a (λ t. and_then b (λ u. and_then c (λ v. and_then d (λ w. some (t, u, v, w)))))

all_four :
    (a b c d : Option Text) (t u v w : Text)
    → (together a b c d ≡ some (t, u, v, w))
      ↔ ((a ≡ some t) × (b ≡ some u) × (c ≡ some v) × (d ≡ some w))
all_four none b c d t u v w = (λ h. cc, λ h. cc (h.0))
all_four (some a) none c d t u v w = (λ h. cc, λ h. cc (h.1))
all_four (some a) (some b) none d t u v w = (λ h. cc, λ h. cc (h.2))
all_four (some a) (some b) (some c) none t u v w = (λ h. cc, λ h. cc (h.3))
all_four (some a) (some b) (some c) (some d) t u v w = ground arith

module _ (ext : External) (at : Surroundings ext) where
  open ext use {Number, value_from_str}
  open at use {var, post}

  -- The variable is set, and not to an empty text.
  abbrev pub IsGiven : Text → Text → Type 0
  IsGiven key v = (var key ≡ some v) × (v ≢ [])

  abbrev pub AreGiven : (tenant client_id username password : Text) → Type 0
  AreGiven tenant client_id username password =
      IsGiven (codes "ENTRA_TENANT_ID") tenant
      × IsGiven (codes "ENTRA_CLIENT_ID") client_id
      × IsGiven (codes "ENTRA_TEST_USERNAME") username
      × IsGiven (codes "ENTRA_TEST_PASSWORD") password

  kept_iff :
      (o : Option Text) (v : Text)
      → (and_then o keep_non_empty ≡ some v) ↔ ((o ≡ some v) × (v ≢ []))
  kept_iff none v = (λ h. cc, λ h. cc (h.0))
  kept_iff (some []) v = (λ h. cc, λ h. absurd (ground (arith, h.0, h.1)))
  kept_iff (some (c ∷ s)) v = (λ h. (h, λ e. ground arith), λ h. h.0)

  env_iff : (key v : Text) → (env_or_skip ext at key ≡ some v) ↔ IsGiven key v
  unfolding env_or_skip
  env_iff key v = kept_iff (var key) v

  pub credentials_iff :
      (tenant client_id username password : Text)
      → (credentials ext at ≡ some (tenant, client_id, username, password))
        ↔ AreGiven tenant client_id username password
  unfolding credentials
  credentials_iff tenant client_id username password =
      let four =
        all_four (env_or_skip ext at (codes "ENTRA_TENANT_ID"))
          (env_or_skip ext at (codes "ENTRA_CLIENT_ID"))
          (env_or_skip ext at (codes "ENTRA_TEST_USERNAME"))
          (env_or_skip ext at (codes "ENTRA_TEST_PASSWORD")) tenant client_id username password in
      let first = env_iff (codes "ENTRA_TENANT_ID") tenant in
      let second = env_iff (codes "ENTRA_CLIENT_ID") client_id in
      let third = env_iff (codes "ENTRA_TEST_USERNAME") username in
      let fourth = env_iff (codes "ENTRA_TEST_PASSWORD") password in
      (
        λ h. let (a, b, c, d) = four.0 h in (first.0 a, second.0 b, third.0 c, fourth.0 d),
        λ (a, b, c, d). four.1 (first.1 a, second.1 b, third.1 c, fourth.1 d),
      )

  -- The response to the password grant is a success, and its body a document with the token.
  pub record Grants (tenant client_id username password token : Text) : Type 0 where
    pub answer : Answer
    pub posted :
        post (codes "https://login.microsoftonline.com/" ++ tenant ++ codes "/oauth2/v2.0/token") (
          (codes "grant_type", codes "password")
          ∷ (codes "client_id", client_id)
          ∷ (codes "username", username)
          ∷ (codes "password", password)
          ∷ (codes "scope", codes "openid profile email")
          ∷ [])
        ≡ value answer
    pub success : (200 ≤ answer.status) × (answer.status < 300)
    pub text : Text
    pub received : answer.text ≡ value text
    pub document : Value Number
    pub read : value_from_str text ≡ value document
    pub carried : get (codes "id_token") document ≡ some (string token)

  string_iff :
      (o : Option (Value Number)) (s : Text)
      → (ok_or (and_then o as_str) panicked ≡ ok s) ↔ (o ≡ some (string s))
  string_iff none s = ground arith
  string_iff (some v) s = elim (Option-cases (as_str v)) [
    | inl other ↦ (λ h. absurd (ground arith), λ h. absurd (ground (arith, ap read_str h)))
    | inr (t, e) ↦ (
      λ h. let same : t ≡ s = ground arith in ap some (as_str-eq-some v s (e ∙ ap some same)),
      λ h. let found : as_str v ≡ some s = ap read_str h in rw found refl,
    )
  ]
    where
      read_str : Option (Value Number) → Option Text
      read_str o = and_then o as_str

  success_iff :
      (n : ℕ)
      → (refuse_if (not (leb 200 n && ltb n 300)) panicked ≡ ok tt) ↔ ((200 ≤ n) × (n < 300))
  success_iff n = (λ h. (ground arith, ground arith), λ h. ground (arith, h.0, h.1))

  pub granted :
      (tenant client_id username password token : Text)
      → request_token ext at tenant client_id username password ≡ ok token
      → Grants tenant client_id username password token
  unfolding request_token
  granted tenant client_id username password token h =
      let (answer, posted, h) = >>=-eq-ok (expect (post _ _)) _ h in
      let (text, received, h) = >>=-eq-ok (expect answer.text) _ h in
      let (document, read, h) = >>=-eq-ok (expect (value_from_str text)) _ h in
      let (_, success, h) =
        >>=-eq-ok (refuse_if (not (leb 200 answer.status && ltb answer.status 300)) panicked) _ h in
      record {
        answer = answer;
        posted = expect-eq-ok _ posted;
        success = (success_iff answer.status).0 success;
        text = text;
        received = expect-eq-ok _ received;
        document = document;
        read = expect-eq-ok _ read;
        carried = (string_iff (get (codes "id_token") document) token).0 h;
      }

  pub Grants-request_token :
      (tenant client_id username password token : Text)
      → Grants tenant client_id username password token
      → request_token ext at tenant client_id username password ≡ ok token
  unfolding request_token
  Grants-request_token tenant client_id username password token g =
      rw (g.posted, g.received, g.read)
        (rw ((success_iff g.answer.status).1 g.success) (rw g.carried refl))
