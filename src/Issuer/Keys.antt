-- ===== src/Issuer/Keys.antt =====
-- The issuer that starts, and the key set that it serves.
use auth_oidc.Prelude.{
  ℕ, ◌≡◌, refl, ◌++◌, List, [], ◌∷◌, some, Text, codes, take, drop, length, leb, take-append,
  drop-append, take-all, le→leb, ◌≤◌, length-append, arith, subst, true, ==_refl,
}
use auth_oidc.Error.{Result, ok, value}
use auth_oidc.External.{External}
use auth_oidc.Jwks.Key.{Jwk}
use auth_oidc.Jwks.{parse, selects, find_all, non_empty}
use auth_oidc.Cache.{try_all}
use auth_oidc.Issuer.{Kit, slice, start, key_set_doc}
use auth_oidc.Issuer.Laws.{IsPoint, ReadsKey, served_key}

slice_coordinates :
    (point x y : List ℕ)
    → IsPoint point x y
    → (slice 1 33 point ≡ ok x) × (slice 33 65 point ≡ ok y)
unfolding slice
slice_coordinates point x y p =
    rw p.layout
      (rw (enough 33 (omega arith), first) refl, rw (enough 65 (omega arith), second, all) refl)
  where
    enough : (n : ℕ) → n ≤ 65 → leb n (length (4 ∷ (x ++ y))) ≡ true
    enough n h = le→leb n _ (omega (arith, length-append x y, p.left, p.right))

    first : take 32 (x ++ y) ≡ x
    first = subst (λ n. take n (x ++ y) ≡ x) p.left (take-append x y)

    second : drop 32 (x ++ y) ≡ y
    second = subst (λ n. drop n (x ++ y) ≡ y) p.left (drop-append x y)

    all : take 32 y ≡ y
    all = subst (λ n. take n y ≡ y) p.right (take-all y)

module _ (ext : External) (kit : Kit ext) where
  open kit use {KeyPair, public_key, b64_encode, to_string}

  -- With a key, a certificate and an address, the issuer starts, and serves the two coordinates of its key.
  pub start-IsStarted :
      (issuer kid : Text) (key : KeyPair) (cert addr : Text) (x y : List ℕ)
      → IsPoint (public_key key) x y
      → start ext kit issuer kid (value key) (value cert) (value addr)
        ≡ ok (
          record {
            issuer = issuer;
            kid = kid;
            key = key;
            jwks_url = codes "https://" ++ addr ++ codes "/jwks";
            cert_pem = cert;
          },
          to_string (key_set_doc kid (b64_encode x) (b64_encode y)),
        )
  unfolding start
  start-IsStarted issuer kid key cert addr x y p =
      let (left, right) = slice_coordinates (public_key key) x y p in rw (left, right) refl

  module _ (kid x y : Text) (reads : ReadsKey ext kit kid x y) where
    pub parse-served :
        parse ext (to_string (key_set_doc kid x y)) ≡ ok (record { keys = served_key kid x y ∷ [] })
    unfolding parse non_empty
    parse-served = rw reads.array (ground (arith, reads.entry))

  pub try_all-served :
      {T : Type 0} (kid x y : Text) (f : Jwk → Result T) (v : T)
      → f (served_key kid x y) ≡ ok v
      → try_all (record { keys = served_key kid x y ∷ [] }) kid f ≡ some (ok v)
  unfolding try_all find_all selects
  try_all-served kid x y f v accepts = rw (==_refl kid, accepts) refl
