-- ===== src/LiveCheck/Skips.antt =====
-- When the live check skips.
use auth_oidc.Prelude.{
  ◌≡◌, ◌≢◌, ◌⊎◌, inl, inr, ◌↔◌, [], ◌∷◌, Option, none, some, Text, codes, arith, false,
  Option-cases, and_then,
}
use auth_oidc.Error.{Result, ok, err}
use auth_oidc.External.{External}
use auth_oidc.LiveCheck.{
  Surroundings, skipped, end_of, keep_non_empty, env_or_skip, live_check, credentials, main,
}

non_empty_iff :
    (o : Option Text) → (and_then o keep_non_empty ≡ none) ↔ ((o ≡ none) ⊎ (o ≡ some []))
non_empty_iff none = ground arith
non_empty_iff (some []) = ground arith
non_empty_iff (some (c ∷ s)) = ground arith

module _ (ext : External) (at : Surroundings ext) where
  -- A variable is unset or empty.
  abbrev pub Lacks : Text → Type 0
  Lacks key = (at.var key ≡ none) ⊎ (at.var key ≡ some [])

  env_or_skip_iff : (key : Text) → (env_or_skip ext at key ≡ none) ↔ Lacks key
  unfolding env_or_skip
  env_or_skip_iff key = non_empty_iff (at.var key)

  abbrev pub LacksAny : Type 0
  LacksAny =
      Lacks (codes "ENTRA_TENANT_ID")
      ⊎ Lacks (codes "ENTRA_CLIENT_ID")
      ⊎ Lacks (codes "ENTRA_TEST_USERNAME")
      ⊎ Lacks (codes "ENTRA_TEST_PASSWORD")

  credentials_iff : (credentials ext at ≡ none) ↔ LacksAny
  unfolding credentials
  credentials_iff = ground (
    arith,
    env_or_skip_iff (codes "ENTRA_TENANT_ID"),
    env_or_skip_iff (codes "ENTRA_CLIENT_ID"),
    env_or_skip_iff (codes "ENTRA_TEST_USERNAME"),
    env_or_skip_iff (codes "ENTRA_TEST_PASSWORD"),
  )

  end_of-ne-skipped : (r : Result (Unit {0})) → end_of ext at r ≢ skipped
  end_of-ne-skipped (ok u) = λ h. cc
  end_of-ne-skipped (err e) = λ h. cc

  -- The check skips exactly if a variable is unset or empty and `CI` is not set: in CI it never skips.
  pub main-skipped : (main ext at ≡ skipped) ↔ ((at.is_set (codes "CI") ≡ false) × LacksAny)
  unfolding main
  main-skipped = elim (Option-cases (credentials ext at)) [
    | inl missing ↦ (λ h. (ground arith, credentials_iff.0 missing), λ h. ground (arith, h))
    | inr ((tenant, client_id, username, password), e) ↦ (
      λ h.
          absurd (
            end_of-ne-skipped (live_check ext at tenant client_id username password)
              (ground arith)),
      λ h. absurd (ground (arith, credentials_iff.1 h.1)),
    )
  ]
