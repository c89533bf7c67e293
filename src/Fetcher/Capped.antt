-- ===== src/Fetcher/Capped.antt =====
-- Which responses the fetcher takes, and how much of one it reads.
use auth_oidc.Prelude.{
  ℕ, suc, zero, ◌+◌, ◌≤◌, ◌<◌, ◌≡◌, refl, ap, inl, inr, ◌↔◌, List, [], ◌∷◌, none, Text, Bool, true,
  arith, leb, length, take, leb→le, le→leb, Bool-cases, Option-cases,
}
use auth_oidc.Error.{◌>>=◌, or_error, request_failed, ok, Reply, value, failure}
use auth_oidc.Fetcher.{
  Body, Response, read_to_end, read_capped, take_response, fetch, max_jwks_bytes,
}

length-take-le : (n : ℕ) (xs : List ℕ) → n ≤ length xs → length (take n xs) ≡ n
length-take-le zero xs h = refl
length-take-le (suc n) [] h = absurd (omega arith)
length-take-le (suc n) (x ∷ xs) h = ap suc (length-take-le n xs (omega arith))

module _ (is_utf8 : List ℕ → Bool) where
  -- The body ends without an error, within the bound, and is UTF-8.
  pub record IsWhole (body : Body) (cap : ℕ) (text : Text) : Type 0 where
    pub content : text ≡ body.bytes
    pub ends : body.fault ≡ none
    pub bounded : length body.bytes ≤ cap
    pub utf8 : is_utf8 body.bytes ≡ true

  read_capped-IsWhole :
      (body : Body) (cap : ℕ) (text : Text)
      → read_capped is_utf8 body cap ≡ ok text
      → IsWhole body cap text
  unfolding read_capped read_to_end
  read_capped-IsWhole body cap text h = elim (Bool-cases (leb (cap + 1) (length body.bytes))) [
    | inl over ↦
        let cut = length-take-le (cap + 1) body.bytes (leb→le _ _ over) in absurd (ground arith)
    | inr within ↦ elim (Option-cases body.fault) [
      | inr (reason, e) ↦ absurd (ground arith)
      | inl ends ↦ record {
        content = ground arith;
        ends = ends;
        bounded = ground arith;
        utf8 = ground arith;
      }
    ]
  ]

  IsWhole-read_capped :
      (body : Body) (cap : ℕ) (text : Text)
      → IsWhole body cap text
      → read_capped is_utf8 body cap ≡ ok text
  unfolding read_capped read_to_end
  IsWhole-read_capped body cap text w =
      ground (arith, w.content, w.ends, w.bounded, w.utf8, le→leb (length body.bytes) cap w.bounded)

  abbrev pub IsTaken : ℕ → Response → Text → Type 0
  IsTaken cap resp text = (200 ≤ resp.status) × (resp.status < 300) × IsWhole resp.body cap text

  take_response_iff :
      (cap : ℕ) (resp : Response) (text : Text)
      → (take_response is_utf8 cap resp ≡ ok text) ↔ IsTaken cap resp text
  unfolding take_response
  take_response_iff cap resp text = (
    λ h. (ground arith, ground arith, read_capped-IsWhole resp.body cap text (ground arith)),
    λ (low, high, w). ground (arith, low, high, IsWhole-read_capped resp.body cap text w),
  )

  -- The fetch succeeds exactly on a response with a success status whose body ends without an error
  -- within the bound and is UTF-8, and returns the whole body.
  pub fetch_iff :
      (send : Text → Reply Response) (url text : Text)
      → (fetch is_utf8 send url ≡ ok text)
        ↔ ((resp : Response) × (send url ≡ value resp) × IsTaken max_jwks_bytes resp text)
  unfolding fetch
  fetch_iff send url text = (sound (send url) refl, complete)
    where
      sound :
          (reply : Reply Response)
          → send url ≡ reply
          → (or_error reply request_failed >>= take_response is_utf8 max_jwks_bytes) ≡ ok text
          → (resp : Response) × (send url ≡ value resp) × IsTaken max_jwks_bytes resp text
      sound (failure reason) e h = cc
      sound (value resp) e h = (resp, e, (take_response_iff max_jwks_bytes resp text).0 h)

      complete :
          ((resp : Response) × (send url ≡ value resp) × IsTaken max_jwks_bytes resp text)
          → fetch is_utf8 send url ≡ ok text
      complete (resp, sent, taken) = rw sent ((take_response_iff max_jwks_bytes resp text).1 taken)
