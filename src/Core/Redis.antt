-- ===== src/Core/Redis.antt =====
-- The commands of a Redis server that the services call, as a parameter: a command takes the time
-- in milliseconds and the server's state, and may fail. Nothing is asked of a command that fails.
use oksai_cc_api_server.Base.{
  ℕ, ◌+◌, ◌*◌, ◌≤◌, String, Bool, true, Option, none, some, List, includes, is_some, if◌then◌else◌,
  ◌==◌, string_eq, ltb, ◌≡◌,
}
use Prim.Native.String.{◌++◌ as concat}

pub record Redis (S : Type 0) : Type 0 where
  -- `SETEX key seconds value`: whether it worked
  pub setex : ℕ → String → ℕ → String → S → Bool × S
  -- `EXISTS key`
  pub exists_key : ℕ → String → S → Option ℕ
  -- `DEL key…`: how many were deleted
  pub del : ℕ → List String → S → Option ℕ × S
  -- `KEYS prefix*`, by the prefix
  pub keys_with : ℕ → String → S → Option (List String)

-- The documented behaviour, by what the server holds for a key at a time.
pub record RedisLaws {S : Type 0} (redis : Redis S) : Type 0 where
  pub held : ℕ → String → S → Option String
  pub held-setex :
      (now later : ℕ) (key k : String) (seconds : ℕ) (value : String) (s : S)
      → now ≤ later
      → (redis.setex now key seconds value s).0 ≡ true
      → held later k (redis.setex now key seconds value s).1 ≡ (
          if key == k
          then (if ltb later (now + seconds * 1000) then some value else none)
          else held later k s)
  pub exists_key_lem :
      (now n : ℕ) (key : String) (s : S)
      → redis.exists_key now key s ≡ some n
      → n ≡ (if is_some (held now key s) then 1 else 0)
  pub held-del :
      (now later n : ℕ) (ks : List String) (k : String) (s : S)
      → now ≤ later
      → (redis.del now ks s).0 ≡ some n
      → held later k (redis.del now ks s).1 ≡ (if includes k ks then none else held later k s)
  pub keys_with_lem :
      (now : ℕ) (prefix rest : String) (ks : List String) (s : S)
      → redis.keys_with now prefix s ≡ some ks
      → includes (concat prefix rest) ks ≡ is_some (held now (concat prefix rest) s)
  -- What a key holds is not there any more once it has expired.
  pub held_until :
      (now later : ℕ) (k : String) (s : S)
      → now ≤ later
      → held now k s ≡ none
      → held later k s ≡ none
