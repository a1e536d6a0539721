-- ===== src/ServerManager/Invariant.antt =====
-- The manager's map of servers and its primary server, under each method.
use oksai_cc_api_server.Base.{
  ℕ, String, Bool, true, false, Option, none, some, List, [], ◌∷◌, get, has, ◌==◌, string_eq, ◌≡◌,
  ◌≢◌, refl, arith, eq_iff, get-set, get-delete, UniqueKeys, set-UniqueKeys, delete-UniqueKeys,
  Option-cases, Bool-cases, inl, inr,
}
use oksai_cc_api_server.ServerManager.{
  Servers, ServerInstance, ManagerState, first_name, name_or, forget, in_world, stop_found,
  stop_named, stop, started, created, make_room, start, restart_server, restart_named, restart,
  stop_loop, set_primary_server, clean_up,
}

-- Each server stands under its own name, which is not empty, and the primary server is one of them.
pub record IsServed {C W : Type 0} (m : ManagerState C W) : Type 0 where
  pub unique : UniqueKeys m.servers
  pub own : (id : String) (i : ServerInstance C) → get id m.servers ≡ some i → i.id ≡ id
  pub named : get "" m.servers ≡ none
  pub primary_there : (p : String) → m.primary ≡ some p → has p m.servers ≡ true

module _ {C T A W : Type 0} (api : Servers C T A W) where
  in_world-IsServed : (m : ManagerState C W) (w : W) → IsServed m → IsServed (in_world api m w)
  in_world-IsServed m w s = record {
    unique = s.unique;
    own = s.own;
    named = s.named;
    primary_there = s.primary_there;
  }

  forget-IsServed : (id : String) (m : ManagerState C W) → IsServed m → IsServed (forget api id m)
  unfolding has
  forget-IsServed id m s = record {
    unique = delete-UniqueKeys id m.servers s.unique;
    own = λ k i e. ground (arith, get-delete id k m.servers, s.own k i);
    named = ground (arith, get-delete id "" m.servers, s.named);
    primary_there = λ p e.
        ground (arith, get-delete id p m.servers, s.primary_there p, eq_iff p id, eq_iff id p);
  }

  pub stop_found-IsServed :
      (id : String) (found : Option (ServerInstance C)) (m : ManagerState C W)
      → IsServed m
      → IsServed (stop_found api id found m).1
  unfolding stop_found
  stop_found-IsServed id none m s = s
  stop_found-IsServed id (some i) m s =
      let w = (api.stop_server i.server m.world).1 in
      elim (Bool-cases (api.stop_server i.server m.world).0) [
        | inl y ↦ rw y (forget-IsServed id (in_world api m w) (in_world-IsServed m w s))
        | inr n ↦ rw n (in_world-IsServed m w s)
      ]

  stop_named-IsServed :
      (id : Option String) (m : ManagerState C W) → IsServed m → IsServed (stop_named api id m).1
  unfolding stop_named
  stop_named-IsServed none m s = s
  stop_named-IsServed (some id) m s = elim (Bool-cases (id == "")) [
    | inl y ↦ rw y s
    | inr n ↦ rw n (stop_found-IsServed id (get id m.servers) m s)
  ]

  pub stop-IsServed :
      (id : Option String) (m : ManagerState C W) → IsServed m → IsServed (stop api id m).1
  unfolding stop
  stop-IsServed id m s = stop_named-IsServed (first_name id m.primary) m s

  put-IsServed :
      (id : String) (config : C) (r : ℕ) (w : W) (m : ManagerState C W)
      → id ≢ ""
      → IsServed m
      → IsServed (started api id config r (some true, w) m).1
  unfolding started has
  put-IsServed id config r w m e s =
      let i : ServerInstance C = record { id = id; server = r; config = config } in
      record {
        unique = set-UniqueKeys id i m.servers s.unique;
        own = λ k j f. ground (arith, get-set id k i m.servers, s.own k j, eq_iff id k);
        named = ground (arith, get-set id "" i m.servers, s.named, eq_iff id "");
        primary_there = λ p f.
            ground (
              arith,
              get-set id p i m.servers,
              s.primary_there p,
              eq_iff id p,
              eq_iff p "",
              s.named,
            );
      }

  created-IsServed :
      (id : String) (config : C) (t : Option T) (made : Option ℕ × W) (m : ManagerState C W)
      → id ≢ ""
      → IsServed m
      → IsServed (created api id config t made m).1
  unfolding created started
  created-IsServed id config t (none, w) m e s = in_world-IsServed m w s
  created-IsServed id config t (some r, w) m e s = go (api.start_server r t w)
    where
      go :
          (result : Option Bool × W)
          → IsServed (started api id config r result (in_world api m w)).1
      go (none, v) = in_world-IsServed (in_world api m w) v (in_world-IsServed m w s)
      go (some false, v) = in_world-IsServed (in_world api m w) v (in_world-IsServed m w s)
      go (some true, v) = put-IsServed id config r v (in_world api m w) e (in_world-IsServed m w s)

  pub name-ne-empty : (a : Option String) → name_or a "primary" ≢ ""
  name-ne-empty none = ground (arith, eq_iff "primary" "")
  name-ne-empty (some a) = ground (arith, eq_iff "primary" "", eq_iff a "")

  make_room-IsServed :
      (id : String) (m : ManagerState C W) → IsServed m → IsServed (make_room api id m)
  unfolding make_room
  make_room-IsServed id m s = elim (Bool-cases (has id m.servers)) [
    | inl y ↦ rw y (stop-IsServed (some id) m s)
    | inr n ↦ rw n s
  ]

  pub start-IsServed :
      (config : C) (id : Option String) (t : Option T) (m : ManagerState C W)
      → IsServed m
      → IsServed (start api config id t m).1
  unfolding start
  start-IsServed config id t m s =
      let name = name_or (first_name id m.primary) "primary" in
      let room = make_room api name m in
      created-IsServed name config t (api.create config room.world) room
        (name-ne-empty (first_name id m.primary)) (make_room-IsServed name m s)

  restart_server-IsServed :
      (i : ServerInstance C) (m : ManagerState C W)
      → IsServed m
      → IsServed (restart_server api i m).1
  unfolding restart_server
  restart_server-IsServed i m s =
      let w = (api.stop_server i.server m.world).1 in
      elim (Bool-cases (api.stop_server i.server m.world).0) [
        | inl y ↦
            rw y (in_world-IsServed m (api.start_server i.server (api.transport_of i.config) w).1 s)
        | inr n ↦ rw n (in_world-IsServed m w s)
      ]

  pub restart-IsServed :
      (id : Option String) (m : ManagerState C W) → IsServed m → IsServed (restart api id m).1
  unfolding restart restart_named
  restart-IsServed id m s = go (first_name id m.primary)
    where
      go : (name : Option String) → IsServed (restart_named api name m).1
      go none = s
      go (some name) = elim (Bool-cases (name == "")) [
        | inl y ↦ rw y s
        | inr n ↦ elim (Option-cases (get name m.servers)) [
          | inl missing ↦ rw (n, missing) s
          | inr (i, there) ↦ rw (n, there) (restart_server-IsServed i m s)
        ]
      ]

  pub stop_loop-IsServed :
      (ids : List String) (m : ManagerState C W) → IsServed m → IsServed (stop_loop api ids m).1
  unfolding stop_loop
  stop_loop-IsServed [] m s = s
  stop_loop-IsServed (id ∷ ids) m s =
      stop_loop-IsServed ids (stop api (some id) m).1 (stop-IsServed (some id) m s)

  pub set_primary-IsServed :
      (id : String) (m : ManagerState C W) → IsServed m → IsServed (set_primary_server api id m).1
  unfolding set_primary_server
  set_primary-IsServed id m s = elim (Bool-cases (has id m.servers)) [
    | inl y ↦ rw y (record {
      unique = s.unique;
      own = s.own;
      named = s.named;
      primary_there = λ p e. ground (arith, y, e);
    })
    | inr n ↦ rw n s
  ]

  pub clean_up-IsServed : (m : ManagerState C W) → IsServed (clean_up api m)
  unfolding clean_up get
  clean_up-IsServed m = record {
    unique = tt;
    own = λ id i e. cc;
    named = refl;
    primary_there = λ p e. cc;
  }
