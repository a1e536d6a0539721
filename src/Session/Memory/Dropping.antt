-- ===== src/Session/Memory/Dropping.antt =====
-- Deleting the sessions for which a test holds, by a list of their keys.
use oksai_cc_api_server.Base.{
  ◌+◌, String, Bool, false, Option, none, some, List, [], ◌∷◌, get, delete, length, if◌then◌else◌,
  string_eq, ◌≡◌, refl, arith, eq_iff, get-delete, UniqueKeys, delete-UniqueKeys, size-delete,
  includes, Bool-cases, inl, inr,
}
use oksai_cc_api_server.Session.Storage.{Session}
use oksai_cc_api_server.Session.Memory.{Sessions, delete_keys}

module _ {V : Type 0} where
  -- The keys of the sessions for which `drop` holds.
  unfoldable pub keys_where : (Session V → Bool) → Sessions V → List String
  keys_where drop [] = []
  keys_where drop ((id, x) ∷ m) = if drop x then id ∷ keys_where drop m else keys_where drop m

  -- What stays of a found session, if `drop` holds of those that go.
  abbrev pub unless : (Session V → Bool) → Option (Session V) → Option (Session V)
  unless drop none = none
  unless drop (some x) = if drop x then none else some x

  pub get-delete_keys :
      (ks : List String) (m : Sessions V) (id : String)
      → get id (delete_keys ks m) ≡ (if includes id ks then none else get id m)
  unfolding delete_keys
  get-delete_keys [] m id = refl
  get-delete_keys (k ∷ ks) m id =
      ground (arith, get-delete_keys ks (delete k m) id, get-delete k id m)

  keys_where_absent :
      (drop : Session V → Bool) (m : Sessions V) (id : String)
      → get id m ≡ none
      → includes id (keys_where drop m) ≡ false
  unfolding keys_where get
  keys_where_absent drop [] id h = refl
  keys_where_absent drop ((k, x) ∷ m) id h = ground (arith, keys_where_absent drop m id)

  pub keys_where-get :
      (drop : Session V → Bool) (m : Sessions V) (id : String)
      → UniqueKeys m
      → (if includes id (keys_where drop m) then none else get id m) ≡ unless drop (get id m)
  unfolding keys_where get
  keys_where-get drop [] id u = refl
  keys_where-get drop ((k, x) ∷ m) id u =
      ground (arith, keys_where-get drop m id u.1, eq_iff k id, keys_where_absent drop m id)

  -- Each key of the list is there, once.
  abbrev pub AllThere : List String → Sessions V → Type 0
  AllThere [] m = Unit
  AllThere (k ∷ ks) m =
      ((x : Session V) × (get k m ≡ some x)) × (includes k ks ≡ false) × AllThere ks m

  AllThere-delete :
      (ks : List String) (k : String) (m : Sessions V)
      → includes k ks ≡ false
      → AllThere ks m
      → AllThere ks (delete k m)
  AllThere-delete [] k m n a = tt
  AllThere-delete (j ∷ ks) k m n ((x, e), f, a) = (
    (x, ground (arith, get-delete k j m, eq_iff k j, eq_iff j k)),
    f,
    AllThere-delete ks k m (ground arith) a,
  )

  pub size-delete_keys :
      (ks : List String) (m : Sessions V)
      → UniqueKeys m
      → AllThere ks m
      → length (delete_keys ks m) + length ks ≡ length m
  unfolding delete_keys
  size-delete_keys [] m u a = omega arith
  size-delete_keys (k ∷ ks) m u ((x, e), f, a) = omega (
    arith,
    size-delete k m x u e,
    size-delete_keys ks (delete k m) (delete-UniqueKeys k m u) (AllThere-delete ks k m f a),
  )

  AllThere-cons :
      (ks : List String) (k : String) (x : Session V) (m : Sessions V)
      → includes k ks ≡ false
      → AllThere ks m
      → AllThere ks ((k, x) ∷ m)
  unfolding get
  AllThere-cons [] k x m n a = tt
  AllThere-cons (j ∷ ks) k x m n ((y, e), f, a) =
      ((y, ground (arith, eq_iff k j, eq_iff j k)), f, AllThere-cons ks k x m (ground arith) a)

  pub keys_where-AllThere :
      (drop : Session V → Bool) (m : Sessions V) → UniqueKeys m → AllThere (keys_where drop m) m
  unfolding keys_where
  keys_where-AllThere drop [] u = tt
  keys_where-AllThere drop ((k, x) ∷ m) u =
      let absent = keys_where_absent drop m k u.0 in
      let rest = AllThere-cons (keys_where drop m) k x m absent (keys_where-AllThere drop m u.1) in
      elim (Bool-cases (drop x)) [
        | inl y ↦ rw y ((x, unfold get in ground (arith, eq_iff k k)), absent, rest)
        | inr n ↦ rw n rest
      ]
