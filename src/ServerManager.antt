-- ===== src/ServerManager.antt =====
-- libs/mcp-server/src/lib/mcp-server-manager.ts over any server class. The state `W` is that of the
-- servers; a method of a server that throws has no result. Dates are left out.
pub mod Invariant
pub mod Runs
pub mod Tests
use oksai_cc_api_server.Base.{
  ℕ, suc, ◌-◌, String, Bool, true, false, Option, none, some, List, [], ◌∷◌, Map, get, set, delete,
  has, size, keys, if◌then◌else◌, ◌==◌, string_eq, found_is,
}

-- What the manager calls: `new McpServer(config)`, `start`, `stop` and `getStatus`. A server is known
-- by its reference.
pub record Servers (C T A W : Type 0) : Type 0 where
  pub create : C → W → Option ℕ × W
  pub start_server : ℕ → Option T → W → Option Bool × W
  pub stop_server : ℕ → W → Bool × W
  pub status_of : ℕ → W → Option A
  -- `config?.transport?.type`
  pub transport_of : C → Option T

pub record ServerInstance (C : Type 0) : Type 0 where
  pub id : String
  pub server : ℕ
  pub config : C

pub record ManagerState (C W : Type 0) : Type 0 where
  pub servers : Map String (ServerInstance C)
  pub primary : Option String
  pub world : W

-- `a || b` on names that may be missing
abbrev pub first_name : Option String → Option String → Option String
first_name none b = b
first_name (some a) b = if a == "" then b else some a

abbrev pub name_or : Option String → String → String
name_or none d = d
name_or (some a) d = if a == "" then d else a

module _ {C T A W : Type 0} (api : Servers C T A W) where
  -- `this.primaryServerId === id ? null`
  abbrev pub without_primary : String → Option String → Option String
  without_primary id p = if found_is p id then none else p

  -- the rest of `stop` and `removeServer`, where the server stopped without an exception
  abbrev pub forget : String → ManagerState C W → ManagerState C W
  forget id m = record m { servers = delete id m.servers; primary = without_primary id m.primary }

  abbrev pub in_world : ManagerState C W → W → ManagerState C W
  in_world m w = record m { world = w }

  unfoldable pub stop_found :
      String → Option (ServerInstance C) → ManagerState C W → Bool × ManagerState C W
  stop_found id none m = (false, m)
  stop_found id (some i) m =
      let (done, w) = api.stop_server i.server m.world in
      if done then (true, forget id (in_world m w)) else (false, in_world m w)

  unfoldable pub stop_named : Option String → ManagerState C W → Bool × ManagerState C W
  unfolding stop_found
  stop_named none m = (false, m)
  stop_named (some id) m = if id == "" then (false, m) else stop_found id (get id m.servers) m

  unfoldable pub stop : Option String → ManagerState C W → Bool × ManagerState C W
  unfolding stop_named
  stop server_id m = stop_named (first_name server_id m.primary) m

  -- `if (!this.primaryServerId) this.primaryServerId = id`
  abbrev pub primary_or : Option String → String → Option String
  primary_or none id = some id
  primary_or (some p) id = if p == "" then some id else some p

  -- the part of `start` behind `await server.start(…)`
  unfoldable pub started :
      String → C → ℕ → Option Bool × W → ManagerState C W → Bool × ManagerState C W
  started id config r (none, w) m = (false, in_world m w)
  started id config r (some false, w) m = (false, in_world m w)
  started id config r (some true, w) m = (
    true,
    record {
      servers = set id (record { id = id; server = r; config = config }) m.servers;
      primary = primary_or m.primary id;
      world = w;
    },
  )

  unfoldable pub created :
      String → C → Option T → Option ℕ × W → ManagerState C W → Bool × ManagerState C W
  unfolding started
  created id config transport (none, w) m = (false, in_world m w)
  created id config transport (some r, w) m =
      started id config r (api.start_server r transport w) (in_world m w)

  -- the state from which the new server is made
  unfoldable pub make_room : String → ManagerState C W → ManagerState C W
  unfolding stop
  make_room id m = if has id m.servers then (stop (some id) m).1 else m

  unfoldable pub start_as : String → C → Option T → ManagerState C W → Bool × ManagerState C W
  unfolding make_room created
  start_as id config transport m =
      let room = make_room id m in created id config transport (api.create config room.world) room

  unfoldable pub start : C → Option String → Option T → ManagerState C W → Bool × ManagerState C W
  unfolding start_as
  start config server_id transport m =
      start_as (name_or (first_name server_id m.primary) "primary") config transport m

  abbrev pub said_true : Option Bool → Bool
  said_true none = false
  said_true (some b) = b

  unfoldable pub restart_server : ServerInstance C → ManagerState C W → Bool × ManagerState C W
  restart_server i m =
      let (done, w) = api.stop_server i.server m.world in
      let (result, w') = api.start_server i.server (api.transport_of i.config) w in
      if done then (said_true result, in_world m w') else (false, in_world m w)

  unfoldable pub restart_named : Option String → ManagerState C W → Bool × ManagerState C W
  unfolding restart_server
  restart_named none m = (false, m)
  restart_named (some id) m =
      if id == ""
      then (false, m)
      else elim (get id m.servers) [ none ↦ (false, m) | some i ↦ restart_server i m ]

  unfoldable pub restart : Option String → ManagerState C W → Bool × ManagerState C W
  unfolding restart_named
  restart server_id m = restart_named (first_name server_id m.primary) m

  unfoldable pub remove_server : String → ManagerState C W → Bool × ManagerState C W
  unfolding stop_found
  remove_server id m = stop_found id (get id m.servers) m

  -- the loop of `stopAll`, over the names that the map had at its start
  unfoldable pub stop_loop : List String → ManagerState C W → ℕ × ManagerState C W
  unfolding stop
  stop_loop [] m = (0, m)
  stop_loop (id ∷ ids) m =
      let (done, m') = stop (some id) m in
      let (count, m'') = stop_loop ids m' in (if done then suc count else count, m'')

  unfoldable pub stop_all : ManagerState C W → ℕ × ManagerState C W
  unfolding stop_loop
  stop_all m = stop_loop (keys m.servers) m

  unfoldable pub set_primary_server : String → ManagerState C W → Bool × ManagerState C W
  set_primary_server id m =
      if has id m.servers then (true, record m { primary = some id }) else (false, m)

  unfoldable pub clean_up : ManagerState C W → ManagerState C W
  unfolding stop_all
  clean_up m = record (stop_all m).1 { servers = []; primary = none }
