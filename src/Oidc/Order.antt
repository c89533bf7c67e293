-- ===== src/Oidc/Order.antt =====
-- The order of a provider's keys does not show in the verdicts.
use auth_oidc.Prelude.{
  ℕ, ◌<◌, ◌≡◌, refl, sym, ap, ◌∙◌, fun_ext, Bool, Text, unwrap_or, [], inl, inr,
}
use auth_oidc.Prelude.Int.{ℤ}
use auth_oidc.Error.{Result, ok, err, Result-cases}
use auth_oidc.External.{External}
use auth_oidc.Jwt.Token.{Parts}
use auth_oidc.Jwt.{split, verify_signature}
use auth_oidc.Cache.{Fetcher, Store}
use auth_oidc.Cache.Bag.{is_ok}
use auth_oidc.Cache.Abstract.{Shelf, shelf, answers, lookup, with_key-lookup}
use auth_oidc.Claims.{OidcVerifier}
use auth_oidc.Oidc.{OidcModule, on_signature, check_signature, verify_with}

module _ (ext : External) (m : OidcModule) (other : Fetcher) where
  -- The module with another provider behind it.
  abbrev pub moved_to : OidcModule
  moved_to = record m { jwks = record m.jwks { fetcher = other } }

  on_signature-is_ok :
      (verifier : OidcVerifier) (now : ℤ) (parts : Parts) (r r' : Result (Unit {0}))
      → is_ok r ≡ is_ok r'
      → on_signature ext verifier now parts r ≡ on_signature ext verifier now parts r'
  on_signature-is_ok verifier now parts (ok u) (ok u') h = refl
  on_signature-is_ok verifier now parts (err e) (err e') h = refl
  on_signature-is_ok verifier now parts (ok u) (err e) h = cc
  on_signature-is_ok verifier now parts (err e) (ok u) h = cc

  -- Both see the same bags of keys: in the cache, and in the answers to their requests.
  pub record SeesSame (s s' : Store) : Type 0 where
    pub cached : shelf s ≡ shelf s'
    pub answered : (n : ℕ) → answers ext m.jwks n ≡ answers ext moved_to.jwks n

  abbrev seen_as : Result (Unit {0}) × Store → Bool × Shelf
  seen_as (r, s) = (is_ok r, shelf s)

  checked :
      (parts : Parts) (mono : ℕ) (s s' : Store)
      → 0 < m.jwks.min_refetch_interval
      → 0 < m.jwks.max_stale
      → SeesSame s s'
      → seen_as (check_signature ext m parts mono s)
        ≡ seen_as (check_signature ext moved_to parts mono s')
  checked parts mono s s' interval ceiling same =
      let kid = unwrap_or parts.header.kid [] in
      let f = verify_signature ext parts in
      with_key-lookup ext m.jwks mono kid f s interval ceiling
      ∙ ap (λ a. lookup m.jwks a mono kid f (shelf s)) (fun_ext same.answered)
      ∙ ap (lookup m.jwks (answers ext moved_to.jwks) mono kid f) same.cached
      ∙ sym (with_key-lookup ext moved_to.jwks mono kid f s' interval ceiling)

  -- A provider that lists the same keys in another order, in what the cache holds and in its answers,
  -- changes no verdict on any token, now or later: the verdict is the same, and so is what the cache
  -- holds after it, but for the order. The refetch interval and the ceiling are not zero.
  pub verify_with-SeesSame :
      (verifier : OidcVerifier) (token : Text) (now_unix : ℤ) (now_mono : ℕ) (s s' : Store)
      → 0 < m.jwks.min_refetch_interval
      → 0 < m.jwks.max_stale
      → SeesSame s s'
      → ((verify_with ext m verifier token now_unix now_mono s).0
          ≡ (verify_with ext moved_to verifier token now_unix now_mono s').0)
        × SeesSame
            (verify_with ext m verifier token now_unix now_mono s).1
            (verify_with ext moved_to verifier token now_unix now_mono s').1
  unfolding verify_with
  verify_with-SeesSame verifier token now_unix now_mono s s' interval ceiling same =
      elim (Result-cases (split ext token)) [
        | inr (e, malformed) ↦ rw malformed (refl, same)
        | inl (parts, segments) ↦
            let h = checked parts now_mono s s' interval ceiling same in
            rw segments (
              on_signature-is_ok verifier now_unix parts _ _ (ap (λ p. p.0) h),
              record { cached = ap (λ p. p.1) h; answered = same.answered },
            )
      ]
