-- ===== src/Session/Memory.antt =====
-- libs/mcp-server/src/lib/session/memory-storage.ts. A time before the last access counts as no
-- time since it, as the negative difference in the source is above no age.
pub mod Laws
pub mod Dropping
pub mod Cleanup
use oksai_cc_api_server.Base.{
  ℕ, suc, ◌+◌, ◌-◌, String, Bool, true, false, Option, none, some, List, [], ◌∷◌, Map, get, set,
  delete, has, size, values, filter, length, if◌then◌else◌, ◌==◌, string_eq, ltb, found_is,
}
use oksai_cc_api_server.Session.Storage.{Session, SessionStats, SessionStorage}

abbrev pub thirty_minutes : ℕ
thirty_minutes = 1800000

-- `now.getTime() - lastAccessedAt.getTime() > maxAge`
abbrev pub is_expired : {V : Type 0} → ℕ → ℕ → Session V → Bool
is_expired now max_age x = ltb max_age (now - x.last_accessed_at)

abbrev pub Sessions : Type 0 → Type 0
Sessions V = Map String (Session V)

module _ {V : Type 0} where
  unfoldable pub create : Session V → Sessions V → Bool × Sessions V
  create x m = (true, set x.id x m)

  unfoldable pub find_by_id : String → Sessions V → Option (Session V)
  find_by_id id m = get id m

  unfoldable pub find_by_user_id : String → Sessions V → List (Session V)
  find_by_user_id user m = filter (λ x. found_is x.user_id user) (values m)

  unfoldable pub update : Session V → Sessions V → Bool × Sessions V
  update x m = if has x.id m then (true, set x.id x m) else (false, m)

  unfoldable pub remove : String → Sessions V → Bool × Sessions V
  remove id m = (has id m, delete id m)

  -- the loop of `deleteByUserId` over the entries, with the map that it deletes from
  unfoldable pub delete_user_loop : String → Sessions V → ℕ → Sessions V → ℕ × Sessions V
  delete_user_loop user [] count m = (count, m)
  delete_user_loop user ((id, x) ∷ rest) count m =
      let hit = delete_user_loop user rest (suc count) (delete id m) in
      let miss = delete_user_loop user rest count m in if found_is x.user_id user then hit else miss

  unfoldable pub delete_by_user_id : String → Sessions V → ℕ × Sessions V
  delete_by_user_id user m = delete_user_loop user m 0 m

  unfoldable pub clear : Sessions V → ℕ × Sessions V
  clear m = (size m, [])

  -- the first loop of `cleanupExpired`
  unfoldable pub expired_keys : ℕ → ℕ → Sessions V → List String
  expired_keys now max_age [] = []
  expired_keys now max_age ((id, x) ∷ m) =
      if is_expired now max_age x
      then id ∷ expired_keys now max_age m
      else expired_keys now max_age m

  -- the second one
  unfoldable pub delete_keys : List String → Sessions V → Sessions V
  delete_keys [] m = m
  delete_keys (k ∷ ks) m = delete_keys ks (delete k m)

  unfoldable pub cleanup_expired : ℕ → ℕ → Sessions V → ℕ × Sessions V
  cleanup_expired now max_age m =
      let ks = expired_keys now max_age m in (length ks, delete_keys ks m)

  -- the loop of `getStats`: its counters `active` and `expired`
  unfoldable pub count_stats : ℕ → List (Session V) → ℕ → ℕ → ℕ × ℕ
  count_stats now [] active expired = (active, expired)
  count_stats now (x ∷ xs) active expired =
      if is_expired now thirty_minutes x
      then count_stats now xs active (suc expired)
      else count_stats now xs (elim x.user_id [ none ↦ active | some u ↦ suc active ]) expired

  unfoldable pub get_stats : ℕ → Sessions V → SessionStats V
  get_stats now m =
      let (active, expired) = count_stats now (values m) 0 0 in
      record { total = size m; active = active; expired = expired }

  abbrev pub memory_storage : SessionStorage V (Sessions V)
  memory_storage = record {
    create = create;
    find_by_id = find_by_id;
    find_by_user_id = find_by_user_id;
    update = update;
    remove = remove;
    delete_by_user_id = delete_by_user_id;
    clear = clear;
    cleanup_expired = cleanup_expired;
    get_stats = get_stats;
  }
