-- ===== src/Fetcher.antt =====
-- auth-oidc/src/reqwest_fetcher.rs: what the fetcher makes of a response, and its bound on the body.
-- The client, with its timeout and its refusal of plain HTTP, is the argument `send`.
pub mod Client
pub mod Capped
use auth_oidc.Prelude.{
  ℕ, ◌+◌, ◌*◌, List, Option, none, some, Text, if◌then◌else◌, Bool, true, false, not, ◌&&◌, leb,
  ltb, length, take,
}
use auth_oidc.Error.{
  Result, ok, err, ◌>>=◌, ◌>>◌, refuse_if, Reply, value, failure, or_error, request_failed,
  read_failed, http_status, body_over_cap, body_not_utf8,
}

abbrev pub max_jwks_bytes : ℕ
max_jwks_bytes = 1024 * 1024

-- What a reader yields: its bytes, and then its end or an error.
pub record Body : Type 0 where
  pub bytes : List ℕ
  pub fault : Option Text

pub record Response : Type 0 where
  pub status : ℕ
  pub body : Body

abbrev at_end : List ℕ → Option Text → Reply (List ℕ)
at_end bytes none = value bytes
at_end bytes (some reason) = failure reason

-- `take(n).read_to_end`: it stops after `n` bytes, without a look at what follows.
unfoldable pub read_to_end : ℕ → Body → Reply (List ℕ)
read_to_end n body =
    if leb n (length body.bytes) then value (take n body.bytes) else at_end body.bytes body.fault

module _ (is_utf8 : List ℕ → Bool) where
  -- `String::from_utf8`; a text is the list of its bytes.
  unfoldable pub read_capped : Body → ℕ → Result Text
  unfolding read_to_end
  read_capped body cap = do
    buf ← or_error (read_to_end (cap + 1) body) read_failed
    refuse_if (not (leb (length buf) cap)) (body_over_cap cap)
    refuse_if (not (is_utf8 buf)) body_not_utf8
    ok buf

  -- What the fetcher makes of a response, under a bound.
  unfoldable pub take_response : ℕ → Response → Result Text
  unfolding read_capped
  take_response cap resp = do
    refuse_if (not (leb 200 resp.status && ltb resp.status 300)) (http_status resp.status)
    read_capped resp.body cap

  unfoldable pub fetch : (Text → Reply Response) → Text → Result Text
  unfolding take_response
  fetch send url = or_error (send url) request_failed >>= take_response max_jwks_bytes
