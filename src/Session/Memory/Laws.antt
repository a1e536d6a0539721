-- ===== src/Session/Memory/Laws.antt =====
-- memory-storage.ts as an implementation of the interface of session-storage.ts.
use oksai_cc_api_server.Base.{has, string_eq, refl, arith, get-set, get-delete}
use oksai_cc_api_server.Session.Storage.{StorageLaws}
use oksai_cc_api_server.Session.Memory.{create, find_by_id, update, remove, memory_storage}

-- The storage in memory obeys the storage's laws: a created session is found under its id, an
-- update writes exactly where the id is known, a removal forgets one id, and each method's answer
-- says what it found.
pub memory_storage-StorageLaws : (V : Type 0) → StorageLaws V (memory_storage {V = V})
unfolding create find_by_id update remove has
memory_storage-StorageLaws V = record {
  create_ok = λ x m. refl;
  find-create = λ x m id. get-set x.id id x m;
  update_ok = λ x m. ground arith;
  find-update = λ x m id. ground (arith, get-set x.id id x m);
  remove_ok = λ id m. refl;
  find-remove = λ gone id m. get-delete gone id m;
}
