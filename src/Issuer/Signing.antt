-- ===== src/Issuer/Signing.antt =====
-- The tokens that the local issuer signs.
use auth_oidc.Prelude.{
  is, ◌==◌, is_iff, arith, ℕ, ◌≡◌, ◌≢◌, refl, ◌++◌, inl, inr, List, ◌∷◌, some, Text, codes, subst,
  true,
}
use auth_oidc.Error.{ok}
use auth_oidc.External.{External}
use auth_oidc.Json.{Value}
use auth_oidc.Jwt.Token.{Parts}
use auth_oidc.Jwt.{dot, use_enc, split, verify_signature, claims}
use auth_oidc.Jwt.Split.{split_iff}
use auth_oidc.Jwt.Signature.{verify_signature_iff}
use auth_oidc.Issuer.{Kit, Issuer, head_doc, sign}
use auth_oidc.Issuer.Laws.{IsPoint, IsLawful, ReadsAs, served_key, signed_header}

sig_not_enc : some (codes "sig") ≢ some use_enc
unfolding is ◌==◌
sig_not_enc e = absurd (ground (arith, (is_iff (some (codes "sig")) use_enc).1 e))

module _ (ext : External) (kit : Kit ext) (i : Issuer ext kit) where
  open ext use {Number, ecdsa_verify}
  open kit use {public_key}

  -- A token of this issuer with these claims.
  pub record IsSigned (token : Text) (parts : Parts) (claim_set : Value Number) : Type 0 where
    pub splits : split ext token ≡ ok parts
    pub header : parts.header ≡ signed_header i.kid
    pub payload : claims ext parts ≡ ok claim_set
    pub checks : ecdsa_verify (public_key i.key) parts.signing_input parts.signature ≡ true

module _ (ext : External) (kit : Kit ext) (lawful : IsLawful ext kit) (i : Issuer ext kit) where
  open ext use {Number, b64_decode, header_from_slice, value_from_slice, ecdsa_verify}
  open kit use {public_key, b64_encode, to_vec}

  pub sign-IsSigned :
      (seed : ℕ) (claim_set : Value Number)
      → ReadsAs ext kit header_from_slice (head_doc i.kid) (signed_header i.kid)
      → ReadsAs ext kit value_from_slice claim_set claim_set
      → (token : Text) × (parts : Parts) × (sign ext kit i seed claim_set ≡ ok token)
        × IsSigned ext kit i token parts claim_set
  unfolding sign claims
  sign-IsSigned seed claim_set (head, head_written, head_read) (body, body_written, body_read) =
      let input = b64_encode head ++ dot ∷ b64_encode body in
      let (signature, signed, good) = lawful.signs i.key seed input in
      let parts : Parts = record {
        header = signed_header i.kid;
        payload = body;
        signature = signature;
        signing_input = input;
      } in
      let token = input ++ dot ∷ b64_encode signature in
      (
        token,
        parts,
        rw (head_written, body_written, signed) refl,
        record {
          splits = (split_iff ext token parts).1 (record {
            head = b64_encode head;
            body = b64_encode body;
            tail = b64_encode signature;
            header_bytes = head;
            joined = refl;
            free = (lawful.no_dot head, lawful.no_dot body, lawful.no_dot signature);
            head_decodes = lawful.read_back head;
            header_decodes = head_read;
            body_decodes = lawful.read_back body;
            tail_decodes = lawful.read_back signature;
            signs = refl;
          });
          header = refl;
          payload = rw body_read refl;
          checks = good;
        },
      )

  -- The key that the issuer serves verifies its tokens.
  pub served-verifies :
      (x y : List ℕ) (token : Text) (parts : Parts) (claim_set : Value Number)
      → IsPoint (public_key i.key) x y
      → IsSigned ext kit i token parts claim_set
      → verify_signature ext parts (served_key i.kid (b64_encode x) (b64_encode y)) ≡ ok tt
  served-verifies x y token parts claim_set p signed =
      (verify_signature_iff ext parts (served_key i.kid (b64_encode x) (b64_encode y)) (inl refl)).1
        (record {
          no_critical = rw signed.header (inl refl);
          not_encryption = sig_not_enc;
          signed = inr (record {
            alg = rw signed.header refl;
            x = x;
            y = y;
            curve = refl;
            material = record { kty = refl; left = lawful.read_back x; right = lawful.read_back y };
            checks =
                subst (λ point. ecdsa_verify point parts.signing_input parts.signature ≡ true)
                  p.layout signed.checks;
          });
        })
