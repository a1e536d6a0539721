-- ===== src/Session/Memory/Cleanup.antt =====
-- `cleanupExpired`, `deleteByUserId` and `getStats`.
use oksai_cc_api_server.Base.{
  ℕ, suc, ◌+◌, ◌≤◌, String, Bool, not, List, [], ◌∷◌, delete, size, values, length, string_eq,
  found_is, ◌≡◌, refl, ◌∙◌, arith, UniqueKeys, ◌&&◌, is_some, filter, ap,
}
use oksai_cc_api_server.Session.Storage.{Session}
use oksai_cc_api_server.Session.Memory.{
  Sessions, is_expired, thirty_minutes, find_by_id, delete_user_loop, delete_by_user_id,
  expired_keys, delete_keys, cleanup_expired, count_stats, get_stats,
}
use oksai_cc_api_server.Session.Memory.Dropping.{
  keys_where, unless, get-delete_keys, keys_where-get, size-delete_keys, keys_where-AllThere,
}

module _ {V : Type 0} where
  expired_keys_lem :
      (now max_age : ℕ) (m : Sessions V)
      → expired_keys now max_age m ≡ keys_where (is_expired now max_age) m
  unfolding expired_keys keys_where
  expired_keys_lem now max_age [] = refl
  expired_keys_lem now max_age ((k, x) ∷ m) = rw (expired_keys_lem now max_age m) refl

  cleanup_expired_lem :
      (now max_age : ℕ) (m : Sessions V)
      → cleanup_expired now max_age m ≡ (
        length (keys_where (is_expired now max_age) m),
        delete_keys (keys_where (is_expired now max_age) m) m,
      )
  unfolding cleanup_expired
  cleanup_expired_lem now max_age m = rw (expired_keys_lem now max_age m) refl

  -- After a cleanup exactly the sessions that are not expired are found, as they were, and the
  -- answer is the number of sessions by which the storage shrinks.
  pub find-cleanup_expired :
      (now max_age : ℕ) (m : Sessions V) (id : String)
      → UniqueKeys m
      → (find_by_id id (cleanup_expired now max_age m).1
          ≡ unless (is_expired now max_age) (find_by_id id m))
        × (size (cleanup_expired now max_age m).1 + (cleanup_expired now max_age m).0 ≡ size m)
  unfolding find_by_id
  find-cleanup_expired now max_age m id u =
      let ks = keys_where (is_expired now max_age) m in
      rw (cleanup_expired_lem now max_age m) (
        get-delete_keys ks m id ∙ keys_where-get (is_expired now max_age) m id u,
        size-delete_keys ks m u (keys_where-AllThere (is_expired now max_age) m u),
      )

  abbrev of_user : String → Session V → Bool
  of_user user x = found_is x.user_id user

  delete_user_loop_lem :
      (user : String) (rest : Sessions V) (count : ℕ) (m : Sessions V)
      → delete_user_loop user rest count m ≡ (
        count + length (keys_where (of_user user) rest),
        delete_keys (keys_where (of_user user) rest) m,
      )
  unfolding delete_user_loop keys_where delete_keys
  delete_user_loop_lem user [] count m = ground arith
  delete_user_loop_lem user ((id, x) ∷ rest) count m = ground (
    arith,
    delete_user_loop_lem user rest (suc count) (delete id m),
    delete_user_loop_lem user rest count m,
  )

  -- `deleteByUserId` removes exactly the user's sessions, and answers how many they were.
  pub delete_by_user_id_lem :
      (user : String) (m : Sessions V) (id : String)
      → UniqueKeys m
      → (find_by_id id (delete_by_user_id user m).1 ≡ unless (of_user user) (find_by_id id m))
        × (size (delete_by_user_id user m).1 + (delete_by_user_id user m).0 ≡ size m)
  unfolding delete_by_user_id find_by_id
  delete_by_user_id_lem user m id u =
      let ks = keys_where (of_user user) m in
      rw (delete_user_loop_lem user m 0 m) (
        get-delete_keys ks m id ∙ keys_where-get (of_user user) m id u,
        omega (arith, size-delete_keys ks m u (keys_where-AllThere (of_user user) m u)),
      )

  -- a session with a user that is not expired
  abbrev is_active : ℕ → Session V → Bool
  is_active now x = not (is_expired now thirty_minutes x) && is_some x.user_id

  count_stats_lem :
      (now : ℕ) (xs : List (Session V)) (active expired : ℕ)
      → count_stats now xs active expired ≡ (
        active + length (filter (is_active now) xs),
        expired + length (filter (is_expired now thirty_minutes) xs),
      )
  unfolding count_stats
  count_stats_lem now [] active expired = ground arith
  count_stats_lem now (x ∷ xs) active expired = ground (
    arith,
    count_stats_lem now xs active (suc expired),
    count_stats_lem now xs (suc active) expired,
    count_stats_lem now xs active expired,
  )

  active_or_expired :
      (now : ℕ) (xs : List (Session V))
      → length (filter (is_active now) xs) + length (filter (is_expired now thirty_minutes) xs)
        ≤ length xs
  active_or_expired now [] = omega arith
  active_or_expired now (x ∷ xs) = ground (arith, active_or_expired now xs)

  length-values : (m : Sessions V) → length (values m) ≡ length m
  length-values [] = refl
  length-values (e ∷ m) = ap suc (length-values m)

  -- The statistics count the sessions, those idle for more than thirty minutes, and those with a
  -- user that are not; whatever lifetime the manager is configured with.
  pub get_stats_lem :
      (now : ℕ) (m : Sessions V)
      → ((get_stats now m).total ≡ size m)
        × ((get_stats now m).active ≡ length (filter (is_active now) (values m)))
        × ((get_stats now m).expired ≡ length (filter (is_expired now thirty_minutes) (values m)))
        × ((get_stats now m).active + (get_stats now m).expired ≤ (get_stats now m).total)
  unfolding get_stats
  get_stats_lem now m = rw (count_stats_lem now (values m) 0 0) (
    refl,
    omega arith,
    omega arith,
    omega (arith, active_or_expired now (values m), length-values m),
  )
