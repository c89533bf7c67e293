-- ===== src/Tests/Issuing.antt =====
-- The theorems on the local issuer, at one token, with a stand-in for each library function.
use auth_oidc.Prelude.{
  ◌&&◌, ℕ, zero, suc, ◌≡◌, refl, ◌++◌, List, [], ◌∷◌, none, some, Text, codes, ◌==◌, ==_refl,
  if◌then◌else◌, ltb, Bool, true, false, arith, is_some,
}
use auth_oidc.Prelude.Int.{ℤ, pos}
use auth_oidc.Error.{value, failure}
use auth_oidc.External.{External}
use auth_oidc.Config.{OidcConfig}
use auth_oidc.Json.{object, field, end, string, Value, get, lookup}
use auth_oidc.Jwt.{dot}
use auth_oidc.Jwt.Segments.{Free}
use auth_oidc.Claims.{is_blank}
use auth_oidc.Claims.Times.{IsTyped}
use auth_oidc.Issuer.{Kit, Issuer, respond, settings, key_doc, key_set_doc, head_doc, claims_doc}
use auth_oidc.Issuer.Laws.{IsPoint, IsLawful, ReadsAs, served_key, signed_header}
use auth_oidc.Issuer.Minted.{issuer}
use auth_oidc.Issuer.Opened.{IsReachable}
use auth_oidc.Fetcher.Client.{ClientBuilder, Reqwest, https_builder, jwks_fetch_timeout}
use auth_oidc.Tests.Fixture.{only, narrow, cast}

-- An encoding with no dot, in place of base64url.
abbrev encode_byte : ℕ → ℕ
encode_byte b = if ltb b dot then b else suc b

abbrev decode_byte : ℕ → ℕ
decode_byte zero = zero
decode_byte (suc b) = if ltb b dot then suc b else b

abbrev encode : List ℕ → Text
encode [] = []
encode (b ∷ bs) = encode_byte b ∷ encode bs

abbrev decode : Text → List ℕ
decode [] = []
decode (b ∷ bs) = decode_byte b ∷ decode bs

decode-encode_byte : (b : ℕ) → decode_byte (encode_byte b) ≡ b
decode-encode_byte zero = refl
decode-encode_byte (suc b) = ground arith

decode-encode : (bs : List ℕ) → decode (encode bs) ≡ bs
decode-encode [] = refl
decode-encode (b ∷ bs) = rw (decode-encode_byte b, decode-encode bs) refl

encode-Free : (bs : List ℕ) → Free dot (encode bs)
encode-Free [] = tt
encode-Free (b ∷ bs) = (ground arith, encode-Free bs)

abbrev coordinate : ℕ → ℕ → List ℕ
coordinate b zero = []
coordinate b (suc n) = b ∷ coordinate b n

abbrev pub left : List ℕ
left = coordinate 7 32

abbrev pub right : List ℕ
right = coordinate 200 32

abbrev pub idp : Text
idp = codes "https://idp"

abbrev pub kid : Text
kid = codes "k1"

abbrev minted : Value ℤ
minted =
    claims_doc idp (codes "alice") (codes "admin" ∷ []) (codes "app") (pos 1_780_003_600)
      (pos 1_779_999_990)

abbrev pub signed : Text
signed = encode (codes "head") ++ dot ∷ encode (codes "body")

abbrev pub minted_token : Text
minted_token = signed ++ dot ∷ encode signed

abbrev config : OidcConfig
config = record {
  issuer = idp;
  audience = codes "app";
  jwks_url = some (codes "https://127.0.0.1:9/jwks");
  role_claim = codes "roles";
  jwks_min_refetch_secs = 60;
  jwks_ttl_secs = 3600;
  ca_cert_pem = some (codes "cert");
  client_id = none;
  scopes = [];
  authorization_endpoint = some (codes "https://idp/authorize");
  token_endpoint = some (codes "https://idp/token");
}

abbrev pub ext : External
ext = record {
  Number = ℤ;
  Float = ℤ;
  as_i64 = narrow;
  as_f64 = some;
  floor = λ z. z;
  ceil = λ z. z;
  to_i64 = cast;
  b64_decode = λ s. some (decode s);
  header_from_slice = λ bytes. only (bytes == codes "head") (signed_header kid);
  value_from_slice = λ bytes. only (bytes == codes "body") minted;
  value_from_str = λ s.
      only (s == codes "granted") (object (field (codes "id_token") (string minted_token) end));
  config_from_str = λ s. only (s == codes "settings") config;
  keys_from_str = λ s. only (s == codes "set") (key_doc kid (encode left) (encode right) ∷ []);
  jwk_from_value = λ v. some (served_key kid (encode left) (encode right));
  rsa_verify = λ n e message signature. false;
  ecdsa_verify = λ point message signature. message == signature;
  url_scheme = λ url. value (codes "https");
}

abbrev pub kit : Kit ext
kit = record {
  KeyPair = Unit {0};
  public_key = λ key. 4 ∷ (left ++ right);
  sign = λ key seed message. value message;
  b64_encode = encode;
  to_vec = λ doc. value (if is_some (get (codes "alg") doc) then codes "head" else codes "body");
  to_string = λ doc. if is_some (get (codes "keys") doc) then codes "set" else codes "settings";
  from_u64 = pos;
}

pub typed : IsTyped ext
typed = record { as_i64_range = λ n z h. ground arith; to_i64_range = λ f. ground arith }

pub point : IsPoint (4 ∷ (left ++ right)) left right
point = record { layout = refl; left = refl; right = refl }

pub lawful : IsLawful ext kit
lawful = record {
  read_back = λ bytes. rw (decode-encode bytes) refl;
  no_dot = encode-Free;
  small = λ n h. ground arith;
  signs = λ key seed message. (message, refl, ==_refl message);
}

-- A client gets the key set if it trusts the certificate; any other fails.
abbrev trusts : List Text → Bool
trusts [] = false
trusts (cert ∷ certs) = cert == codes "cert"

abbrev pub web : Reqwest
web = record {
  Certificate = Text;
  Client = ClientBuilder Text;
  from_pem = value;
  build = value;
  send = λ client n url.
      if trusts client.extra_roots && url == codes "https://127.0.0.1:9/jwks"
      then value (respond (codes "set"))
      else failure (codes "untrusted");
  is_utf8 = λ bytes. true;
}

abbrev pub served : Issuer ext kit
served = issuer ext kit idp kid tt (codes "cert") (codes "127.0.0.1:9") left right

pub reachable : IsReachable ext kit web served left right (codes "app")
unfolding settings key_set_doc get lookup ◌==◌ is_blank
reachable = record {
  utf8 = refl;
  size = omega arith;
  reads_keys = record { array = refl; entry = refl };
  reads_settings = refl;
  not_blank = refl;
  secure = refl;
  certificate = codes "cert";
  reads_certificate = refl;
  client = record (https_builder web jwks_fetch_timeout) { extra_roots = codes "cert" ∷ [] };
  builds = refl;
  answers = λ n. refl;
}

pub head_read : ReadsAs ext kit ext.header_from_slice (head_doc kid) (signed_header kid)
unfolding head_doc get lookup ◌==◌
head_read = (codes "head", refl, refl)

pub body_read : ReadsAs ext kit ext.value_from_slice minted minted
unfolding claims_doc get lookup ◌==◌
body_read = (codes "body", refl, refl)

pub filled : is_blank (codes "alice") ≡ false
unfolding is_blank
filled = refl
