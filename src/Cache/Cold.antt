-- ===== src/Cache/Cold.antt =====
-- The first lookup of a cache that holds nothing.
use auth_oidc.Prelude.{ℕ, ◌≡◌, refl, Text, some}
use auth_oidc.Error.{Result, ok}
use auth_oidc.External.{External}
use auth_oidc.Jwks.Key.{Jwk, JwkSet}
use auth_oidc.Cache.{
  JwksCache, Store, fresh_store, fetched, snapshot, permits_attempt, past_ceiling,
  serve_within_ceiling, admit, recheck, settle, fetch_and_settle, under_gate, refresh, current_keys,
  with_key, try_all,
}

-- A store that has kept the answer to its one request.
abbrev pub kept : JwkSet → ℕ → Store
kept set now = record {
  inner = record { keys = some set; fetched_at = some now; last_attempt = some now };
  fetches = 1;
}

module _ (ext : External) (c : JwksCache) (set : JwkSet) (answered : fetched ext c 0 ≡ ok set) where
  cold_keys : (now : ℕ) → current_keys ext c now fresh_store ≡ (ok set, kept set now)
  unfolding current_keys snapshot refresh admit under_gate recheck permits_attempt past_ceiling
      serve_within_ceiling fetch_and_settle settle
  cold_keys now = rw answered refl

  -- It fetches once, and looks in the keys that the fetch has brought.
  pub cold_lookup :
      {T : Type 0} (kid : Text) (now : ℕ) (f : Jwk → Result T) (r : Result T)
      → try_all set kid f ≡ some r
      → with_key ext c kid now f fresh_store ≡ (r, kept set now)
  unfolding with_key
  cold_lookup kid now f r tried = rw (cold_keys now, tried) refl
