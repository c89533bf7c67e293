-- ===== src/Jwt/Split.antt =====
-- What `jwt::split` accepts.
use auth_oidc.Prelude.{
  ℕ, ◌≡◌, All, subst, refl, ◌↔◌, ◌++◌, List, [], ◌∷◌, some, Text, arith, ap, sym, ◌∙◌, take-append,
  length, Option-cases, inl, inr,
}
use auth_oidc.Error.{ok, >>=-eq-ok, value}
use mathlib.Core.List.{append_assoc}
use auth_oidc.External.{External}
use auth_oidc.Jwt.Token.{Parts}
use auth_oidc.Jwt.{dot, split_on, rfind, three, decode, split}
use auth_oidc.Jwt.Segments.{
  Free, join, join-split_on, split_on-Free, split_on_of_Free, split_on-append, rfind-append,
}

module _ (ext : External) where
  open ext use {b64_decode, header_from_slice}

  -- A compact token and what it decodes to: three segments without dots, joined by dots.
  pub record IsCompact (token : Text) (parts : Parts) : Type 0 where
    pub head : Text
    pub body : Text
    pub tail : Text
    pub header_bytes : List ℕ
    pub joined : token ≡ (head ++ dot ∷ body) ++ dot ∷ tail
    pub free : Free dot head × Free dot body × Free dot tail
    pub head_decodes : b64_decode head ≡ some header_bytes
    pub header_decodes : header_from_slice header_bytes ≡ value parts.header
    pub body_decodes : b64_decode body ≡ some parts.payload
    pub tail_decodes : b64_decode tail ≡ some parts.signature
    pub signs : parts.signing_input ≡ head ++ dot ∷ body

three-eq-ok : (segs : List Text) (h p s : Text) → three segs ≡ ok (h, p, s) → segs ≡ h ∷ p ∷ s ∷ []
unfolding three
three-eq-ok [] h p s e = cc
three-eq-ok (a ∷ []) h p s e = cc
three-eq-ok (a ∷ b ∷ []) h p s e = cc
three-eq-ok (a ∷ b ∷ c ∷ []) h p s e = ground arith
three-eq-ok (a ∷ b ∷ c ∷ d ∷ ds) h p s e = cc

pub split_on-compact :
    (h p s : Text)
    → Free dot h × Free dot p × Free dot s
    → split_on dot ((h ++ dot ∷ p) ++ dot ∷ s) ≡ h ∷ p ∷ s ∷ []
split_on-compact h p s (fh, fp, fs) = rw append_assoc (
    split_on-append dot h _ fh
    ∙ ap (◌∷◌ h) (split_on-append dot p s fp ∙ ap (◌∷◌ p) (split_on_of_Free dot s fs)))

compact_join : (h p s : Text) → (h ++ dot ∷ p) ++ dot ∷ s ≡ join dot (h ∷ p ∷ s ∷ [])
unfolding join
compact_join h p s = append_assoc h (dot ∷ p) (dot ∷ s)

module _ (ext : External) where
  open ext use {b64_decode, header_from_slice}

  module _ (head body tail : Text) (free : Free dot head × Free dot body × Free dot tail) where
    abbrev whole : Text
    whole = (head ++ dot ∷ body) ++ dot ∷ tail

    last_dot : rfind dot whole ≡ some (length (head ++ dot ∷ body))
    last_dot = rfind-append dot (head ++ dot ∷ body) tail free.2

    decode-IsCompact :
        (parts : Parts) → decode ext whole (head, body, tail) ≡ ok parts → IsCompact ext whole parts
    unfolding decode
    decode-IsCompact parts e = elim (Option-cases (b64_decode head)) [
      | inl missing ↦ absurd (ground arith)
      | inr (bytes, found) ↦ record {
        head = head;
        body = body;
        tail = tail;
        header_bytes = bytes;
        joined = refl;
        free = free;
        head_decodes = found;
        header_decodes = ground (arith, last_dot);
        body_decodes = ground (arith, last_dot);
        tail_decodes = ground (arith, last_dot);
        signs = ground (arith, last_dot, take-append (head ++ dot ∷ body) (dot ∷ tail));
      }
    ]

    decode_complete :
        (parts : Parts) (header_bytes : List ℕ)
        → b64_decode head ≡ some header_bytes
        → header_from_slice header_bytes ≡ value parts.header
        → b64_decode body ≡ some parts.payload
        → b64_decode tail ≡ some parts.signature
        → parts.signing_input ≡ head ++ dot ∷ body
        → decode ext whole (head, body, tail) ≡ ok parts
    unfolding decode
    decode_complete parts header_bytes dh hd db ds si =
        ground (arith, last_dot, take-append (head ++ dot ∷ body) (dot ∷ tail))

  split-IsCompact :
      (token : Text) (parts : Parts) → split ext token ≡ ok parts → IsCompact ext token parts
  unfolding split
  split-IsCompact token parts e =
      let ((h, p, s), segs, e') = >>=-eq-ok (three (split_on dot token)) (decode ext token) e in
      from_segments h p s (three-eq-ok _ h p s segs) e'
    where
      from_segments :
          (h p s : Text)
          → split_on dot token ≡ h ∷ p ∷ s ∷ []
          → decode ext token (h, p, s) ≡ ok parts
          → IsCompact ext token parts
      from_segments h p s segs e' =
          let free = subst (All (Free dot)) segs (split_on-Free dot token) in
          let whole_eq = compact_join h p s ∙ ap (join dot) (sym segs) ∙ join-split_on dot token in
          subst (λ t. IsCompact ext t parts) whole_eq
            (decode-IsCompact h p s (free.0, free.1.0, free.1.1.0) parts
              (subst (λ t. decode ext t (h, p, s) ≡ ok parts) (sym whole_eq) e'))

  -- `split` succeeds exactly on three base64url segments without dots, joined by dots, the first of
  -- which decodes to a header; the signing input is all that stands before the last dot.
  pub split_iff :
      (token : Text) (parts : Parts) → (split ext token ≡ ok parts) ↔ IsCompact ext token parts
  unfolding split
  split_iff token parts = (split-IsCompact token parts, complete)
    where
      complete : IsCompact ext token parts → split ext token ≡ ok parts
      complete c = rw c.joined (
          cc (
            split_on-compact c.head c.body c.tail c.free,
            decode_complete c.head c.body c.tail c.free parts c.header_bytes c.head_decodes
                c.header_decodes c.body_decodes c.tail_decodes c.signs,
          ))
