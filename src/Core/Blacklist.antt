-- ===== src/Core/Blacklist.antt =====
-- libs/core/src/lib/jwt-blacklist.service.ts over any Redis server. `connected` is the test
-- `this.redis !== null`.
use oksai_cc_api_server.Base.{
  ℕ, ◌+◌, ◌*◌, ◌≤◌, String, Bool, true, false, Option, none, some, List, [], ◌∷◌, length, includes,
  is_some, if◌then◌else◌, ◌==◌, string_eq, nat_eq, ltb, ◌≡◌, ◌≢◌, arith, eq_iff, Option-cases, inl,
  inr,
}
use Prim.Native.String.{◌++◌ as concat}
use text.Mathlib.TextLemmas.{append_cancel_left}
use oksai_cc_api_server.Core.Redis.{Redis, RedisLaws}

abbrev pub key_prefix : String
key_prefix = "jwt:blacklist:"

pub record BlacklistStats : Type 0 where
  pub count : ℕ
  pub available : Bool

module _ {S : Type 0} (redis : Redis S) (connected : Bool) where
  unfoldable pub add : ℕ → String → ℕ → S → Bool × S
  add now token expires_in s =
      if connected then redis.setex now (concat key_prefix token) expires_in "1" s else (false, s)

  -- `exists === 1`, and `false` where the query fails
  abbrev pub answered : Option ℕ → Bool
  answered none = false
  answered (some n) = n == 1

  unfoldable pub is_blacklisted : ℕ → String → S → Bool
  is_blacklisted now token s =
      if connected then answered (redis.exists_key now (concat key_prefix token) s) else false

  abbrev pub worked : Option ℕ → Bool
  worked none = false
  worked (some n) = true

  unfoldable pub remove_token : ℕ → String → S → Bool × S
  remove_token now token s =
      let (answer, s') = redis.del now (concat key_prefix token ∷ []) s in
      if connected then (worked answer, s') else (false, s)

  -- the `if` of `clear`
  unfoldable pub delete_found : ℕ → Option (List String) → S → Bool × S
  delete_found now none s = (false, s)
  delete_found now (some []) s = (true, s)
  delete_found now (some (k ∷ ks)) s =
      let (answer, s') = redis.del now (k ∷ ks) s in (worked answer, s')

  unfoldable pub clear_all : ℕ → S → Bool × S
  unfolding delete_found
  clear_all now s =
      if connected then delete_found now (redis.keys_with now key_prefix s) s else (false, s)

  abbrev pub stats_of : Option (List String) → BlacklistStats
  stats_of none = record { count = 0; available = false }
  stats_of (some ks) = record { count = length ks; available = true }

  unfoldable pub blacklist_stats : ℕ → S → BlacklistStats
  blacklist_stats now s =
      if connected
      then stats_of (redis.keys_with now key_prefix s)
      else record { count = 0; available = false }

concat_cancel : (a b : String) → concat key_prefix a ≡ concat key_prefix b → a ≡ b
concat_cancel a b e = append_cancel_left key_prefix a b e

module _ {S : Type 0} (redis : Redis S) (laws : RedisLaws redis) where
  -- An added token is blacklisted until its time is over, and the answer for other tokens is what
  -- the server held before, as long as the server can be asked.
  pub is_blacklisted-add :
      (now later : ℕ) (token other : String) (expires_in : ℕ) (s : S)
      → now ≤ later
      → (add redis true now token expires_in s).0 ≡ true
      → redis.exists_key later (concat key_prefix other) (add redis true now token expires_in s).1
        ≢ none
      → is_blacklisted redis true later other (add redis true now token expires_in s).1 ≡ (
          if token == other
          then ltb later (now + expires_in * 1000)
          else is_some (laws.held later (concat key_prefix other) s))
  unfolding add is_blacklisted
  is_blacklisted-add now later token other expires_in s before done asked =
      let s' = (add redis true now token expires_in s).1 in
      elim (Option-cases (redis.exists_key later (concat key_prefix other) s')) [
        | inl failed ↦ absurd (asked failed)
        | inr (n, e) ↦ ground (
          arith,
          laws.exists_key_lem later n (concat key_prefix other) s',
          laws.held-setex now later (concat key_prefix token) (concat key_prefix other) expires_in
              "1" s,
          eq_iff token other,
          concat_cancel token other,
          eq_iff (concat key_prefix token) (concat key_prefix other),
        )
      ]

  held-clear_all :
      (now later : ℕ) (token : String) (s : S)
      → now ≤ later
      → (clear_all redis true now s).0 ≡ true
      → laws.held later (concat key_prefix token) (clear_all redis true now s).1 ≡ none
  unfolding clear_all
  held-clear_all now later token s before done =
      elim (Option-cases (redis.keys_with now key_prefix s)) [
        | inl failed ↦ absurd (ground arith)
        | inr (ks, e) ↦
            let listed = laws.keys_with_lem now key_prefix token ks s e in go ks e listed
      ]
    where
      go :
          (ks : List String)
          → redis.keys_with now key_prefix s ≡ some ks
          → includes (concat key_prefix token) ks
            ≡ is_some (laws.held now (concat key_prefix token) s)
          → laws.held later (concat key_prefix token) (clear_all redis true now s).1 ≡ none
      go [] e listed = ground (arith, laws.held_until now later (concat key_prefix token) s)
      go (k ∷ ks) e listed = elim (Option-cases (redis.del now (k ∷ ks) s).0) [
        | inl failed ↦ absurd (ground arith)
        | inr (n, worked) ↦ ground (
          arith,
          laws.held-del now later n (k ∷ ks) (concat key_prefix token) s,
          laws.held_until now later (concat key_prefix token) s,
        )
      ]

  -- After a clearing that worked no token is blacklisted, until one is added.
  pub is_blacklisted-clear_all :
      (now later : ℕ) (token : String) (s : S)
      → now ≤ later
      → (clear_all redis true now s).0 ≡ true
      → is_blacklisted redis true later token (clear_all redis true now s).1 ≡ false
  unfolding is_blacklisted
  is_blacklisted-clear_all now later token s before done =
      let s' = (clear_all redis true now s).1 in
      elim (Option-cases (redis.exists_key later (concat key_prefix token) s')) [
        | inl failed ↦ ground arith
        | inr (n, e) ↦ ground (
          arith,
          laws.exists_key_lem later n (concat key_prefix token) s',
          held-clear_all now later token s before done,
        )
      ]
