-- ===== src/Json.antt =====
-- The JSON values that auth-oidc/src/lib.rs matches on (`serde_json::Value`), and the accessors that
-- it calls. The type of JSON numbers is a parameter.
use auth_oidc.Prelude.{
  ◌≡◌, arith, Bool, Option, none, some, List, [], ◌∷◌, Text, ◌==◌, if◌then◌else◌,
}

mutual
  pub data Value (N : Type 0) : Type 0 where
    null : Value N
    bool : Bool → Value N
    number : N → Value N
    string : Text → Value N
    array : Items N → Value N
    object : Fields N → Value N

  pub data Items (N : Type 0) : Type 0 where
    nil : Items N
    cons : Value N → Items N → Items N

  pub data Fields (N : Type 0) : Type 0 where
    end : Fields N
    field : Text → Value N → Fields N → Fields N

module _ {N : Type 0} where
  abbrev pub items : Items N → List (Value N)
  items nil = []
  items (cons v vs) = v ∷ items vs

  unfoldable pub lookup : Text → Fields N → Option (Value N)
  unfolding ◌==◌
  lookup k end = none
  lookup k (field j v fs) = if j == k then some v else lookup k fs

  -- `Value::get`
  unfoldable pub get : Text → Value N → Option (Value N)
  unfolding lookup
  get k (object fs) = lookup k fs
  get k null = none
  get k (bool b) = none
  get k (number n) = none
  get k (string s) = none
  get k (array vs) = none

  -- `Value::as_str`
  abbrev pub as_str : Value N → Option Text
  as_str (string s) = some s
  as_str null = none
  as_str (bool b) = none
  as_str (number n) = none
  as_str (array vs) = none
  as_str (object fs) = none

  -- `Value::as_object`
  abbrev pub as_object : Value N → Option (Fields N)
  as_object (object fs) = some fs
  as_object null = none
  as_object (bool b) = none
  as_object (number n) = none
  as_object (string s) = none
  as_object (array vs) = none

  pub as_str-eq-some : (v : Value N) (s : Text) → as_str v ≡ some s → v ≡ string s
  as_str-eq-some (string t) s h = ground arith
  as_str-eq-some _ s h = cc

  pub as_object-eq-some : (v : Value N) (fs : Fields N) → as_object v ≡ some fs → v ≡ object fs
  as_object-eq-some (object gs) fs h = ground arith
  as_object-eq-some _ fs h = cc
