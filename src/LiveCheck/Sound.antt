-- ===== src/LiveCheck/Sound.antt =====
-- What the live check shows of a token.
use auth_oidc.Prelude.{
  ℕ, sym, inr, ◌⊎◌, eqb, eqb_iff, if◌then◌else◌, Bool-cases, none, suc, ◌<◌, ◌≡◌, ◌≢◌, refl, ap,
  ◌∙◌, subst, inl, ◌++◌, [], ◌∷◌, some, Text, arith, Bool, true, not,
}
use auth_oidc.Error.{
  Result, ok, err, value, failure, Reply, >>=-eq-ok, refuse_if, panicked, ◌>>=◌, ◌>>◌,
}
use auth_oidc.External.{External}
use auth_oidc.Config.{OidcConfig}
use auth_oidc.Jwt.Token.{Parts}
use auth_oidc.Jwt.{dot}
use auth_oidc.Jwt.Segments.{Free}
use auth_oidc.Jwt.Split.{IsCompact, split_on-compact}
use auth_oidc.Cache.{Fetcher, fresh_store}
use auth_oidc.Claims.{Principal, now_unix}
use auth_oidc.Claims.Times.{IsTyped, now_unix-IsI64}
use auth_oidc.Oidc.{AuthVerdict, identify, reject, pass, OidcModule, new, authenticate, verify}
use auth_oidc.Oidc.Sound.{SkipsMemo, Vouches, verify_with-identify}
use auth_oidc.Discovery.{resolve_jwks_url}
use auth_oidc.Discovery.Trust.{IsTrusted, resolve_jwks_url_iff}
use auth_oidc.Issuer.{expect}
use auth_oidc.Fetcher.Client.{new_client, fetch_with}
use auth_oidc.LiveCheck.{
  live_timeout, Surroundings, first_three, tamper, is_identify, is_reject, unwrap, tampered_token,
  check_token,
}

pub expect-eq-ok : {A : Type 0} (r : Reply A) {a : A} → expect r ≡ ok a → r ≡ value a
expect-eq-ok (value x) h = ground arith
expect-eq-ok (failure reason) h = cc

unwrap-eq-ok : {A : Type 0} (r : Result A) {a : A} → unwrap r ≡ ok a → r ≡ ok a
unwrap-eq-ok (ok x) h = h
unwrap-eq-ok (err e) h = cc

refuse_if-not : (b : Bool) → refuse_if (not b) panicked ≡ ok tt → b ≡ true
refuse_if-not b h = ground arith

identified-cases : (v : AuthVerdict) → is_identify v ≡ true → (p : Principal) × (v ≡ identify p)
identified-cases (identify p) h = (p, refl)
identified-cases reject h = cc
identified-cases pass h = cc

rejected : (v : AuthVerdict) → is_reject v ≡ true → v ≡ reject
rejected (identify p) h = cc
rejected reject h = refl
rejected pass h = cc

new-ceiling : (cfg : OidcConfig) (url : Text) (f : Fetcher) → 0 < (new cfg url f).jwks.max_stale
unfolding new auth_oidc.Cache.new
new-ceiling cfg url f = omega arith

module _ (ext : External) (at : Surroundings ext) where
  open at use {web, web2, config_from_value, is_utf8, clock, clock2, mono, mono2}

  -- A copy of a token of three segments without dots, with the first byte of the signature changed.
  pub record IsTampered (token copy : Text) : Type 0 where
    pub head : Text
    pub body : Text
    pub first : ℕ
    pub other : ℕ
    pub rest : Text
    pub free : Free dot head × Free dot body × Free dot (first ∷ rest)
    pub original : token ≡ (head ++ dot ∷ body) ++ dot ∷ first ∷ rest
    pub swapped : ((first ≢ b'A') × (other ≡ b'A')) ⊎ ((first ≡ b'A') × (other ≡ b'B'))
    pub utf8 : is_utf8 (other ∷ rest) ≡ true
    pub altered : copy ≡ (head ++ dot ∷ body) ++ dot ∷ other ∷ rest

  abbrev live_module : OidcConfig → Text → web.Client → OidcModule
  live_module cfg url client = new cfg url (λ n. fetch_with web client (suc n))

  -- The token was identified with the keys from a trusted URL, and a copy with another signature was
  -- rejected.
  pub record IsProven (cfg : OidcConfig) (token : Text) : Type 0 where
    pub client : web.Client
    pub built : new_client web live_timeout none ≡ ok client
    pub url : Text
    pub trusted : IsTrusted ext cfg (fetch_with web client 0) url
    pub principal : Principal
    pub identified :
        (authenticate ext (live_module cfg url client) (some token) clock mono fresh_store).0
        ≡ identify principal
    pub vouched :
        Vouches ext
          (live_module cfg url client)
          (live_module cfg url client).verifier
          token
          (now_unix clock)
          mono
          fresh_store
          (authenticate ext (live_module cfg url client) (some token) clock mono fresh_store).1
          principal
    pub client2 : web2.Client
    pub built2 : new_client web2 live_timeout none ≡ ok client2
    pub copy : Text
    pub tampered : IsTampered token copy
    pub refused :
        (authenticate ext
          (new cfg url (fetch_with web2 client2))
          (some copy)
          clock2
          mono2
          fresh_store).0
        ≡ reject

  -- What the code makes of the three segments.
  abbrev tampered_of : Text × Text × Text → Result Text
  tampered_of (h, p, s) = do
    other ← tamper s
    refuse_if (not (is_utf8 other)) panicked
    ok (h ++ dot ∷ p ++ dot ∷ other)

  tampered_token-segments :
      (h p s : Text)
      → Free dot h × Free dot p × Free dot s
      → tampered_token ext at ((h ++ dot ∷ p) ++ dot ∷ s) ≡ tampered_of (h, p, s)
  unfolding tampered_token
  tampered_token-segments h p s free = rw (split_on-compact h p s free) (unfold first_three in refl)

  tampered_of-eq-ok :
      (h p s copy : Text)
      → Free dot h × Free dot p × Free dot s
      → tampered_of (h, p, s) ≡ ok copy
      → IsTampered ((h ++ dot ∷ p) ++ dot ∷ s) copy
  unfolding tamper
  tampered_of-eq-ok h p [] copy free e = cc
  tampered_of-eq-ok h p (c ∷ s) copy free e =
      let (_, good, same) =
        >>=-eq-ok
          (refuse_if (not (is_utf8 ((if not (eqb c b'A') then b'A' else b'B') ∷ s))) panicked) _
          e in
      record {
        head = h;
        body = p;
        first = c;
        other = if not (eqb c b'A') then b'A' else b'B';
        rest = s;
        free = free;
        original = refl;
        swapped = elim (Bool-cases (eqb c b'A')) [
          | inl is_a ↦ inr ((eqb_iff c b'A').0 is_a, rw is_a refl)
          | inr is_not ↦ inl (λ is_a. ground (arith, eqb_iff c b'A'), rw is_not refl)
        ];
        utf8 = refuse_if-not _ good;
        altered = cc same;
      }

  tampered_token-IsTampered :
      (token copy : Text) (parts : Parts)
      → IsCompact ext token parts
      → tampered_token ext at token ≡ ok copy
      → IsTampered token copy
  tampered_token-IsTampered token copy parts c e =
      subst (λ k. IsTampered k copy) (sym c.joined)
        (tampered_of-eq-ok c.head c.body c.tail copy c.free (
          sym (tampered_token-segments c.head c.body c.tail c.free)
          ∙ ap (tampered_token ext at) (sym c.joined)
          ∙ e))

  tamper_lem :
      (c other : ℕ) (s : Text)
      → ((c ≢ b'A') × (other ≡ b'A')) ⊎ ((c ≡ b'A') × (other ≡ b'B'))
      → tamper (c ∷ s) ≡ ok (other ∷ s)
  unfolding tamper
  tamper_lem c other s h = ground (arith, eqb_iff c b'A')

  IsTampered-tampered_token :
      (token copy : Text) → IsTampered token copy → tampered_token ext at token ≡ ok copy
  IsTampered-tampered_token token copy t =
      rw (t.original, tampered_token-segments t.head t.body (t.first ∷ t.rest) t.free)
        (rw (tamper_lem t.first t.other t.rest t.swapped, t.utf8) (rw t.altered refl))

  pub check_token-IsProven :
      (cfg : OidcConfig) (token : Text)
      → IsTyped ext
      → SkipsMemo ext
      → check_token ext at cfg token ≡ ok tt
      → IsProven cfg token
  unfolding check_token authenticate verify
  check_token-IsProven cfg token typed skips h =
      let (client, built, h) = >>=-eq-ok (unwrap (new_client web live_timeout none)) _ h in
      let (url, found, h) =
        >>=-eq-ok (unwrap (resolve_jwks_url ext cfg (fetch_with web client 0))) _ h in
      let m = live_module cfg url client in
      let first = authenticate ext m (some token) clock mono fresh_store in
      let (_, good, h) = >>=-eq-ok (refuse_if (not (is_identify first.0)) panicked) _ h in
      let (copy, made, h) = >>=-eq-ok (tampered_token ext at token) _ h in
      let (client2, built2, h) = >>=-eq-ok (unwrap (new_client web2 live_timeout none)) _ h in
      let (p, identified) = identified-cases first.0 (refuse_if-not _ good) in
      let vouched =
        verify_with-identify ext m m.verifier token (now_unix clock) mono fresh_store p typed skips
          (now_unix-IsI64 clock) (new-ceiling cfg url (λ n. fetch_with web client (suc n)))
          (inl (refl, refl)) identified in
      record {
        client = client;
        built = unwrap-eq-ok _ built;
        url = url;
        trusted =
            (resolve_jwks_url_iff ext cfg (fetch_with web client 0) url).0 (unwrap-eq-ok _ found);
        principal = p;
        identified = identified;
        vouched = vouched;
        client2 = client2;
        built2 = unwrap-eq-ok _ built2;
        copy = copy;
        tampered = tampered_token-IsTampered token copy vouched.parts vouched.compact made;
        refused = rejected _ (refuse_if-not _ h);
      }

  pub IsProven-check_token :
      (cfg : OidcConfig) (token : Text) → IsProven cfg token → check_token ext at cfg token ≡ ok tt
  unfolding check_token
  IsProven-check_token cfg token p =
      let found = (resolve_jwks_url_iff ext cfg (fetch_with web p.client 0) p.url).1 p.trusted in
      rw
        (
          p.built,
          found,
          p.identified,
          IsTampered-tampered_token token p.copy p.tampered,
          p.built2,
          p.refused,
        )
        refl
