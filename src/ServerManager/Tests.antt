-- ===== src/ServerManager/Tests.antt =====
-- The manager's theorems on servers that always start and stop, with the number of servers made as
-- their state.
use oksai_cc_api_server.Base.{
  ℕ, suc, String, true, none, some, [], ◌∷◌, get, has, string_eq, ◌≡◌, ◌≢◌, refl, arith, eq_iff,
  is_some,
}
use oksai_cc_api_server.ServerManager.{
  Servers, ManagerState, start, stop, make_room, created, started,
}
use oksai_cc_api_server.ServerManager.Invariant.{IsServed}
use oksai_cc_api_server.ServerManager.Runs.{
  here, next, starting, stopping, Reachable-IsServed, start-served,
}

abbrev counting : Servers ℕ ℕ ℕ ℕ
counting = record {
  create = λ config w. (some w, suc w);
  start_server = λ r t w. (some true, w);
  stop_server = λ r w. (true, w);
  status_of = λ r w. some r;
  transport_of = λ config. none;
}

abbrev one_server : ManagerState ℕ ℕ
one_server = record {
  servers = ("primary", record { id = "primary"; server = 0; config = 7 }) ∷ [];
  primary = some "primary";
  world = 1;
}

one_server-IsServed : IsServed one_server
unfolding get has
one_server-IsServed = record {
  unique = (refl, tt);
  own = λ id i e. ground (arith, eq_iff "primary" id);
  named = refl;
  primary_there = λ p e. ground (arith, eq_iff "primary" p);
}

Reachable-IsServed_example :
    IsServed (stop counting none (start counting 8 (some "second") none one_server).1).1
Reachable-IsServed_example =
    Reachable-IsServed counting one_server _ one_server-IsServed
      (next (next here (starting 8 (some "second") none)) (stopping none))

start-served_example :
    (has "second" (start counting 8 (some "second") none one_server).1.servers ≡ true)
    × (◌≢◌ {A = String} "second" "primary"
        → get "primary" (start counting 8 (some "second") none one_server).1.servers
          ≡ get "primary" one_server.servers)
    × (is_some (start counting 8 (some "second") none one_server).1.primary ≡ true)
unfolding start make_room created started get has
start-served_example = start-served counting 8 (some "second") none one_server "primary" refl
