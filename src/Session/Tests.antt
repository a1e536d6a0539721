-- ===== src/Session/Tests.antt =====
-- The theorems about sessions on the storage in memory.
use oksai_cc_api_server.Base.{
  ℕ, String, true, Option, none, some, [], ◌∷◌, get, string_eq, ◌≡◌, refl, arith, eq_iff,
}
use oksai_cc_api_server.Base.Exec.{ok}
use oksai_cc_api_server.Session.Storage.{Session, StorageLaws}
use oksai_cc_api_server.Session.Memory.{Sessions, find_by_id, memory_storage}
use oksai_cc_api_server.Session.Memory.Laws.{memory_storage-StorageLaws}
use oksai_cc_api_server.Session.Manager.{
  set_session_data, get_session_data, ttl_or_default, create_session, find_session, update_session,
}
use oksai_cc_api_server.Session.Manager.Laws.{
  looked_up, text, blank, missing, all_given, is_set, get_session_data-set_session_data,
  find-create_session, find-update_session,
}

-- sessions with texts as their data
abbrev session : String → Option String → ℕ → Session String
session id user at = record {
  id = id;
  user_id = user;
  organization_id = none;
  tenant_id = some "t1";
  created_at = 0;
  last_accessed_at = at;
  contents = ("theme", "dark") ∷ [];
}

abbrev sessions : Sessions String
sessions =
    ("s1", session "s1" (some "u1") 0)
    ∷ ("s2", session "s2" (some "u1") 1700000)
    ∷ ("s3", session "s3" none 1900000)
    ∷ []

memory_storage-StorageLaws_example : StorageLaws String (memory_storage {V = String})
memory_storage-StorageLaws_example = memory_storage-StorageLaws String

find-create_session_example :
    ((create_session memory_storage
        (some 500)
        1000
        "s4"
        (some "u2")
        (some "")
        none
        (some (("theme", "dark") ∷ []))
        sessions).0
      ≡ ok "s4")
    × ((find_session memory_storage
          (some 500)
          1500
          "s4"
          (create_session memory_storage
            (some 500)
            1000
            "s4"
            (some "u2")
            (some "")
            none
            (some (("theme", "dark") ∷ []))
            sessions).1).0
        ≡ some (record {
          id = "s4";
          user_id = some "u2";
          organization_id = none;
          tenant_id = none;
          created_at = 1000;
          last_accessed_at = 1000;
          contents = ("theme", "dark") ∷ [];
        }))
find-create_session_example =
    find-create_session memory_storage (memory_storage-StorageLaws String) (some 500) 1000 1500 "s4"
      (some "u2") (some "") none (some (("theme", "dark") ∷ [])) (some "u2") none none
      (("theme", "dark") ∷ []) 500 sessions (text (ground (arith, eq_iff "u2" ""))) blank missing
      all_given is_set

find-update_session_example :
    ((update_session memory_storage none 9000000 "s1" none sessions).0 ≡ true)
    × ((find_session memory_storage none 9000001 "s1"
          (update_session memory_storage none 9000000 "s1" none sessions).1).0
        ≡ some (record (session "s1" (some "u1") 0) { last_accessed_at = 9000000 }))
unfolding find_by_id get ttl_or_default
find-update_session_example =
    find-update_session memory_storage (memory_storage-StorageLaws String) none 9000000 9000001 "s1"
      none (session "s1" (some "u1") 0) sessions refl refl

get_session_data-set_session_data_example :
    looked_up memory_storage
      (memory_storage-StorageLaws String)
      none
      "theme"
      (get_session_data memory_storage none 1800000 "s2"
        (set_session_data memory_storage none 1700000 "s2" (("lang", "en") ∷ []) sessions).1).0
    ≡ some "dark"
unfolding find_by_id get ttl_or_default
get_session_data-set_session_data_example =
    get_session_data-set_session_data memory_storage (memory_storage-StorageLaws String) none
      1700000 1800000 "s2" "theme" (("lang", "en") ∷ []) (session "s2" (some "u1") 1700000) sessions
      refl refl refl (refl, tt)
