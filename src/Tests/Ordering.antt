-- ===== src/Tests/Ordering.antt =====
-- The theorems on the order of keys, at a cache that holds two keys in either order.
use mathlib.Core.List.{Permᴰ}
use mathlib.Core.Quot
use auth_oidc.Prelude.{◌≡◌, refl, ap, Bool, [], ◌∷◌, some, codes, List, arith}
use auth_oidc.Jwks.Key.{Jwk}
use auth_oidc.Cache.{Store, with_key}
use auth_oidc.Cache.Bag.{KeyBag, is_ok}
use auth_oidc.Cache.Abstract.{Shelf, shelf, answers, lookup, with_key-lookup}
use auth_oidc.Oidc.{verify_with}
use auth_oidc.Oidc.Order.{moved_to, SeesSame, verify_with-SeesSame}
use auth_oidc.Tests.Caches.{check}
use auth_oidc.Tests.Fixture.{ext, cache, oidc, verifier, token, today, rsa_key, answers_once}

abbrev spare : Jwk
spare = record rsa_key { kid = some (codes "k2") }

abbrev holding : List Jwk → Store
holding keys = record {
  inner = record {
    keys = some (record { keys = keys });
    fetched_at = some 100;
    last_attempt = some 100;
  };
  fetches = 1;
}

abbrev one_way : Store
one_way = holding (rsa_key ∷ spare ∷ [])

abbrev other_way : Store
other_way = holding (spare ∷ rsa_key ∷ [])

same_bag : ◌≡◌ {A = KeyBag} (Quot.mk (rsa_key ∷ spare ∷ [])) (Quot.mk (spare ∷ rsa_key ∷ []))
same_bag = Quot.sound ∣ Permᴰ.swap refl refl ∣₁

same : SeesSame ext oidc answers_once one_way other_way
same = record {
  cached =
      ap
        (λ keys. record {
          keys = some keys;
          fetched_at = some 100;
          last_attempt = some 100;
          fetches = 1;
        })
        same_bag;
  answered = λ n. refl;
}

with_key-lookup_example :
    ◌≡◌ {A = Bool × Shelf}
      (
        is_ok (with_key ext cache (codes "k2") 5000 check one_way).0,
        shelf (with_key ext cache (codes "k2") 5000 check one_way).1,
      )
      (lookup cache (answers ext cache) 5000 (codes "k2") check (shelf one_way))
with_key-lookup_example =
    with_key-lookup ext cache 5000 (codes "k2") check one_way (omega arith) (omega arith)

verify_with-SeesSame_example :
    ((verify_with ext oidc verifier token today 5000 one_way).0
      ≡ (verify_with ext (moved_to ext oidc answers_once) verifier token today 5000 other_way).0)
    × SeesSame ext oidc answers_once
        (verify_with ext oidc verifier token today 5000 one_way).1
        (verify_with ext (moved_to ext oidc answers_once) verifier token today 5000 other_way).1
verify_with-SeesSame_example =
    verify_with-SeesSame ext oidc answers_once verifier token today 5000 one_way other_way
      (omega arith) (omega arith) same
