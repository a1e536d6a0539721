-- ===== src/Core/MemoryRedis.antt =====
-- A Redis server in memory that never fails.
use oksai_cc_api_server.Base.{
  ℕ, ◌+◌, ◌*◌, String, Bool, true, Option, none, some, List, [], ◌∷◌, Map, get, set, delete, keys,
  length, filter, includes, is_some, if◌then◌else◌, string_eq, nat_eq, ltb, ◌≡◌, refl, arith,
  eq_iff, get-set, get-delete, Option-cases, inl, inr, ◌&&◌,
}
use Prim.Native.String.{◌++◌ as concat}
use oksai_cc_api_server.Core.Redis.{Redis, RedisLaws}

-- values with the time at which they expire
abbrev pub Server : Type 0
Server = Map String (String × ℕ)

abbrev pub unexpired : ℕ → Option (String × ℕ) → Option String
unexpired now none = none
unexpired now (some (v, expiry)) = if ltb now expiry then some v else none

abbrev pub held_by : ℕ → String → Server → Option String
held_by now k s = unexpired now (get k s)

unfoldable pub delete_each : List String → Server → Server
delete_each [] s = s
delete_each (k ∷ ks) s = delete_each ks (delete k s)

get-delete_each :
    (ks : List String) (k : String) (s : Server)
    → get k (delete_each ks s) ≡ (if includes k ks then none else get k s)
unfolding delete_each
get-delete_each [] k s = refl
get-delete_each (j ∷ ks) k s =
    ground (arith, get-delete_each ks k (delete j s), get-delete j k s, eq_iff j k, eq_iff k j)

includes-filter :
    (p : String → Bool) (k : String) (ks : List String)
    → includes k (filter p ks) ≡ (includes k ks && p k)
includes-filter p k [] = refl
includes-filter p k (j ∷ ks) = ground (arith, includes-filter p k ks, eq_iff j k, eq_iff k j)

includes-keys : (k : String) (s : Server) → includes k (keys s) ≡ is_some (get k s)
unfolding get
includes-keys k [] = refl
includes-keys k ((j, v) ∷ s) = ground (arith, includes-keys k s, eq_iff j k, eq_iff k j)

abbrev pub held_keys : ℕ → Server → List String
held_keys now s = filter (λ k. is_some (held_by now k s)) (keys s)

includes-held_keys :
    (now : ℕ) (k : String) (s : Server) → includes k (held_keys now s) ≡ is_some (held_by now k s)
includes-held_keys now k s =
    let kept = includes-filter (λ j. is_some (held_by now j s)) k (keys s) in
    elim (Option-cases (get k s)) [
      | inl missing ↦ ground (arith, kept, includes-keys k s)
      | inr (v, there) ↦ ground (arith, kept, includes-keys k s)
    ]

abbrev pub server : Redis Server
server = record {
  setex = λ now k seconds v s. (true, set k (v, now + seconds * 1000) s);
  exists_key = λ now k s. some (if is_some (held_by now k s) then 1 else 0);
  del = λ now ks s. (some (length ks), delete_each ks s);
  keys_with = λ now prefix s. some (held_keys now s);
}

pub server-RedisLaws : RedisLaws server
server-RedisLaws = record {
  held = held_by;
  held-setex = λ now later key k seconds value s before done.
      ground (arith, get-set key k (value, now + seconds * 1000) s);
  exists_key_lem = λ now n key s e. ground arith;
  held-del = λ now later n ks k s before done. ground (arith, get-delete_each ks k s);
  keys_with_lem =
      λ now prefix rest ks s e. ground (arith, includes-held_keys now (concat prefix rest) s);
  held_until = λ now later k s before e. elim (Option-cases (get k s)) [
    | inl missing ↦ ground arith
    | inr (v, there) ↦ ground arith
  ];
}
