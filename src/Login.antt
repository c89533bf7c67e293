-- ===== src/Login.antt =====
-- The browser login of auth-oidc/src/lib.rs: `LoginModule` for `OidcModule`, and the URL and the
-- form that it builds.
pub mod Percent
pub mod Scopes
pub mod Callback
pub mod Exchange
pub mod Url
use Prim.Native.Nat.{◌/◌, ◌%◌}
use auth_oidc.Prelude.{
  ℕ, ◌+◌, ◌++◌, List, [], ◌∷◌, Option, none, some, Text, codes, ◌==◌, if◌then◌else◌, Bool, true,
  false, not, ◌&&◌, ◌||◌, eqb, leb, ltb, and_then, unwrap_or, is_none, any,
}
use auth_oidc.Prelude.Int.{ℤ}
use auth_oidc.Error.{Reply, value, failure}
use auth_oidc.External.{External}
use auth_oidc.Json.{Value, get, as_str}
use auth_oidc.Config.{OidcConfig}
use auth_oidc.Cache.{Store}
use auth_oidc.Claims.{Principal, now_unix}
use auth_oidc.Oidc.{
  AuthVerdict, identify, reject, pass, OidcModule, resolved_client_id, verify_with,
}

-- The fields of busbar's login types that this module reads or sets.
pub record LoginHttpResponse : Type 0 where
  pub status : ℕ
  pub body : Text

pub record BeginLogin : Type 0 where
  pub redirect_uri : Text
  pub state : Text
  pub code_challenge : Text
  pub nonce : Option Text
  pub scopes : List Text

pub record CompleteLogin : Type 0 where
  pub code : Option Text
  pub redirect_uri : Option Text
  pub code_verifier : Option Text
  pub token_response : Option LoginHttpResponse

pub record LoginHop : Type 0 where
  pub method : Text
  pub url : Text
  pub form : List (Text × Text)
  pub secret_form_field : Option Text
  pub headers : List (Text × Text)

pub data LoginOutcome : Type 0 where
  authorize : (url : Text) → LoginOutcome
  exchange : LoginHop → LoginOutcome
  identified : Principal → LoginOutcome
  rejected : LoginOutcome

-- RFC 3986's unreserved bytes.
abbrev pub between : ℕ → ℕ → ℕ → Bool
between low high b = leb low b && leb b high

unfoldable pub is_unreserved : ℕ → Bool
is_unreserved b =
    between b'A' b'Z' b
    || between b'a' b'z' b
    || between b'0' b'9' b
    || eqb b b'-'
    || eqb b b'.'
    || eqb b b'_'
    || eqb b b'~'

-- `{:02X}` of a byte.
unfoldable pub hex_digit : ℕ → ℕ
hex_digit n = if ltb n 10 then b'0' + n else 55 + n

abbrev pub percent : ℕ
percent = b'%'

unfoldable pub pct : Text → Text
unfolding is_unreserved hex_digit
pct [] = []
pct (b ∷ s) =
    if is_unreserved b then b ∷ pct s else percent ∷ hex_digit (b / 16) ∷ hex_digit (b % 16) ∷ pct s

abbrev pub openid : Text
openid = codes "openid"

-- Each scope is pushed unless the scopes so far have it.
unfoldable pub push_scopes : List Text → List Text → List Text
unfolding ◌==◌
push_scopes scopes [] = scopes
push_scopes scopes (s ∷ more) =
    push_scopes (if any (λ x. x == s) scopes then scopes else scopes ++ s ∷ []) more

unfoldable pub join_spaces : List Text → Text
join_spaces [] = []
join_spaces (s ∷ []) = s
join_spaces (s ∷ t ∷ ts) = s ++ b' ' ∷ join_spaces (t ∷ ts)

unfoldable pub scope_value : OidcConfig → Text
unfolding push_scopes join_spaces
scope_value cfg = join_spaces (push_scopes (openid ∷ []) cfg.scopes)

-- The pieces of a text, one after the other.
abbrev concat : List Text → Text
concat [] = []
concat (s ∷ []) = s
concat (s ∷ t ∷ ts) = s ++ concat (t ∷ ts)

abbrev nonce_param : Option Text → Text
nonce_param none = []
nonce_param (some nonce) = codes "&nonce=" ++ pct nonce

unfoldable pub build_authorize_url :
    OidcConfig → (redirect_uri state code_challenge : Text) → Option Text → Text
unfolding pct scope_value
build_authorize_url cfg redirect_uri state code_challenge nonce =
    let endpoint = unwrap_or cfg.authorization_endpoint [] in
    let sep = if any (eqb b'?') endpoint then b'&' else b'?' in
    endpoint
    ++ sep
      ∷ concat (
          codes "response_type=code&client_id="
          ∷ pct (resolved_client_id cfg)
          ∷ codes "&redirect_uri="
          ∷ pct redirect_uri
          ∷ codes "&scope="
          ∷ pct (scope_value cfg)
          ∷ codes "&state="
          ∷ pct state
          ∷ codes "&code_challenge="
          ∷ pct code_challenge
          ∷ codes "&code_challenge_method=S256"
          ∷ nonce_param nonce
          ∷ [])

unfoldable pub build_token_exchange :
    OidcConfig → (code redirect_uri code_verifier : Text) → LoginHop
build_token_exchange cfg code redirect_uri code_verifier = record {
  method = codes "POST";
  url = unwrap_or cfg.token_endpoint [];
  form =
      (codes "grant_type", codes "authorization_code")
      ∷ (codes "code", code)
      ∷ (codes "redirect_uri", redirect_uri)
      ∷ (codes "code_verifier", code_verifier)
      ∷ (codes "client_id", resolved_client_id cfg)
      ∷ (codes "client_secret", [])
      ∷ [];
  secret_form_field = some (codes "client_secret");
  headers = [];
}

unfoldable pub begin_login : OidcModule → BeginLogin → LoginOutcome
unfolding build_authorize_url
begin_login m req =
    if is_none m.cfg.authorization_endpoint
    then rejected
    else authorize (
        build_authorize_url (record m.cfg { scopes = m.cfg.scopes ++ req.scopes }) req.redirect_uri
          req.state req.code_challenge req.nonce)

module _ (ext : External) (m : OidcModule) where
  open ext use {Number, value_from_str}

  abbrev pub login_outcome : AuthVerdict → LoginOutcome
  login_outcome (identify p) = identified p
  login_outcome reject = rejected
  login_outcome pass = rejected

  -- The `id_token` of a body.
  abbrev pub id_token : Reply (Value Number) → Option Text
  id_token (failure reason) = none
  id_token (value body) = and_then (get (codes "id_token") body) as_str

  abbrev pub on_id_token : ℤ → ℕ → Store → Option Text → LoginOutcome × Store
  on_id_token now_unix now_mono s none = (rejected, s)
  on_id_token now_unix now_mono s (some token) =
      let (verdict, s') = verify_with ext m m.login_verifier token now_unix now_mono s in
      (login_outcome verdict, s')

  unfoldable pub identity_from_token_response :
      LoginHttpResponse → ℤ → ℕ → Store → LoginOutcome × Store
  identity_from_token_response resp now_unix now_mono s =
      if leb 200 resp.status && ltb resp.status 300
      then on_id_token now_unix now_mono s (id_token (value_from_str resp.body))
      else (rejected, s)

  abbrev pub request_exchange : Option Text → Option Text → Option Text → LoginOutcome
  request_exchange (some code) (some redirect_uri) (some code_verifier) =
      if is_none m.cfg.token_endpoint
      then rejected
      else exchange (build_token_exchange m.cfg code redirect_uri code_verifier)
  request_exchange none redirect_uri code_verifier = rejected
  request_exchange (some code) none code_verifier = rejected
  request_exchange (some code) (some redirect_uri) none = rejected

  -- `clock` is the reading of the host clock.
  unfoldable pub complete_login : CompleteLogin → Option ℕ → ℕ → Store → LoginOutcome × Store
  unfolding identity_from_token_response build_token_exchange
  complete_login req clock now_mono s = elim req.token_response [
    | some resp ↦ identity_from_token_response resp (now_unix clock) now_mono s
    | none ↦ (request_exchange req.code req.redirect_uri req.code_verifier, s)
  ]
