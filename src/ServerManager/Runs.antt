-- ===== src/ServerManager/Runs.antt =====
-- What the manager's methods do, and sequences of them.
use oksai_cc_api_server.Base.{
  ℕ, suc, String, Bool, true, false, Option, none, some, List, [], ◌∷◌, Map, get, set, delete, has,
  keys, size, string_eq, ◌≡◌, ◌≢◌, refl, arith, eq_iff, get-set, get-delete, UniqueKeys, is_some,
  Option-cases, inl, inr, delete_absent, has-get, ap,
}
use oksai_cc_api_server.ServerManager.{
  Servers, ServerInstance, ManagerState, first_name, name_or, forget, in_world, stop, primary_or,
  started, created, make_room, start, restart, remove_server, stop_loop, stop_all,
  set_primary_server, clean_up,
}
use oksai_cc_api_server.ServerManager.Invariant.{
  IsServed, name-ne-empty, stop_found-IsServed, stop-IsServed, start-IsServed, restart-IsServed,
  stop_loop-IsServed, set_primary-IsServed, clean_up-IsServed,
}

module _ {C T A W : Type 0} (api : Servers C T A W) where
  pub data Step (m : ManagerState C W) : ManagerState C W → Type 0 where
    starting : (config : C) (id : Option String) (t : Option T) → Step m (start api config id t m).1
    stopping : (id : Option String) → Step m (stop api id m).1
    restarting : (id : Option String) → Step m (restart api id m).1
    removing : (id : String) → Step m (remove_server api id m).1
    stopping_all : Step m (stop_all api m).1
    choosing : (id : String) → Step m (set_primary_server api id m).1
    cleaning : Step m (clean_up api m)

  pub data Reachable (m : ManagerState C W) : ManagerState C W → Type 0 where
    here : Reachable m m
    next : {m' m'' : ManagerState C W} → Reachable m m' → Step m' m'' → Reachable m m''

  Step-IsServed : (m m' : ManagerState C W) → Step m m' → IsServed m → IsServed m'
  Step-IsServed m _ (starting config id t) s = start-IsServed api config id t m s
  Step-IsServed m _ (stopping id) s = stop-IsServed api id m s
  Step-IsServed m _ (restarting id) s = restart-IsServed api id m s
  Step-IsServed m _ (removing id) s =
      unfold remove_server in stop_found-IsServed api id (get id m.servers) m s
  Step-IsServed m _ stopping_all s = unfold stop_all in stop_loop-IsServed api (keys m.servers) m s
  Step-IsServed m _ (choosing id) s = set_primary-IsServed api id m s
  Step-IsServed m _ cleaning s = clean_up-IsServed api m

  -- Whatever the servers do, and whatever methods are called in whatever order, the primary server
  -- is one of the managed ones, and each server stands under its own name.
  pub Reachable-IsServed : (m m' : ManagerState C W) → IsServed m → Reachable m m' → IsServed m'
  Reachable-IsServed m _ s here = s
  Reachable-IsServed m m'' s (next {m' = before} r t) =
      Step-IsServed before m'' t (Reachable-IsServed m before s r)

  get-make_room :
      (id other : String) (m : ManagerState C W)
      → id ≢ ""
      → id ≢ other
      → get other (make_room api id m).servers ≡ get other m.servers
  unfolding make_room stop
  get-make_room id other m e d = elim (Option-cases (get id m.servers)) [
    | inl missing ↦ ground (arith, has-get id m.servers)
    | inr (i, there) ↦ ground (arith, get-delete id other m.servers, eq_iff id other, eq_iff id "")
  ]

  created_ok :
      (id : String) (config : C) (t : Option T) (made : Option ℕ × W) (m : ManagerState C W)
      → (created api id config t made m).0 ≡ true
      → (i : ServerInstance C) × (w : W) × ((created api id config t made m).1 ≡ record {
        servers = set id i m.servers;
        primary = primary_or api m.primary id;
        world = w;
      })
  unfolding created started
  created_ok id config t (none, w) m done = cc
  created_ok id config t (some r, w) m done = go (api.start_server r t w) done
    where
      go :
          (result : Option Bool × W)
          → (started api id config r result (in_world api m w)).0 ≡ true
          → (i : ServerInstance C) × (v : W) × ((started api id config r result
                (in_world api m w)).1
              ≡ record {
                servers = set id i m.servers;
                primary = primary_or api m.primary id;
                world = v;
              })
      go (none, v) h = cc
      go (some false, v) h = cc
      go (some true, v) h = (record { id = id; server = r; config = config }, v, refl)

  -- A start that succeeds leaves a server under the name that was asked for, or else under the
  -- primary's, or else under `primary`; every other server stays; and there is a primary server.
  pub start-served :
      (config : C) (server_id : Option String) (t : Option T) (m : ManagerState C W)
      (other : String)
      → (start api config server_id t m).0 ≡ true
      → let id = name_or (first_name server_id m.primary) "primary" in
        (has id (start api config server_id t m).1.servers ≡ true)
        × (id ≢ other → get other (start api config server_id t m).1.servers ≡ get other m.servers)
        × (is_some (start api config server_id t m).1.primary ≡ true)
  unfolding start
  start-served config server_id t m other done =
      let id = name_or (first_name server_id m.primary) "primary" in
      let room = make_room api id m in
      let (i, w, e) = created_ok id config t (api.create config room.world) room done in
      rw e (
        ground
            (arith, has-get id (set id i room.servers), get-set id id i room.servers, eq_iff id id),
        (λ d. ground (
          arith,
          get-set id other i room.servers,
          eq_iff id other,
          get-make_room id other m (name-ne-empty api (first_name server_id m.primary)) d,
        )),
        primary_or-is_some room.primary id,
      )
    where
      primary_or-is_some : (p : Option String) (id : String) → is_some (primary_or api p id) ≡ true
      primary_or-is_some none id = refl
      primary_or-is_some (some p) id = ground arith

  stop_there :
      (id : String) (i : ServerInstance C) (m : ManagerState C W)
      → ((r : ℕ) (w : W) → (api.stop_server r w).0 ≡ true)
      → id ≢ ""
      → get id m.servers ≡ some i
      → (w : W) × (stop api (some id) m ≡ (true, forget api id (in_world api m w)))
  unfolding stop
  stop_there id i m ok e there =
      ((api.stop_server i.server m.world).1, ground (arith, ok i.server m.world, eq_iff id ""))

  stop_loop_cons :
      (id : String) (ids : List String) (m m' : ManagerState C W)
      → stop api (some id) m ≡ (true, m')
      → stop_loop api (id ∷ ids) m ≡ (suc (stop_loop api ids m').0, (stop_loop api ids m').1)
  unfolding stop_loop
  stop_loop_cons id ids m m' e = rw e refl

  stop_loop_lem :
      ((r : ℕ) (w : W) → (api.stop_server r w).0 ≡ true)
      → (es : Map String (ServerInstance C)) (m : ManagerState C W) → UniqueKeys es
      → get "" es ≡ none
      → m.servers ≡ es
      → ((stop_loop api (keys es) m).0 ≡ size es) × ((stop_loop api (keys es) m).1.servers ≡ [])
  unfolding get delete
  stop_loop_lem ok [] m u n e = unfold stop_loop in (refl, e)
  stop_loop_lem ok ((id, i) ∷ es) m u n e =
      let (w, stopped) =
        stop_there id i m ok (ground (arith, eq_iff id "", n))
          (rw e (ground (arith, eq_iff id id))) in
      let left : delete id m.servers ≡ es =
        rw e (ground (arith, delete_absent id es u.0, eq_iff id id)) in
      let (count, gone) =
        stop_loop_lem ok es (forget api id (in_world api m w)) u.1 (ground (arith, n)) left in
      rw (stop_loop_cons id (keys es) m (forget api id (in_world api m w)) stopped)
        (ap suc count, gone)

  -- Where no server throws while it stops, `stopAll` answers how many servers there were, and leaves
  -- none, and no primary one.
  pub stop_all_lem :
      (m : ManagerState C W)
      → ((r : ℕ) (w : W) → (api.stop_server r w).0 ≡ true)
      → IsServed m
      → ((stop_all api m).0 ≡ size m.servers)
        × ((stop_all api m).1.servers ≡ [])
        × ((stop_all api m).1.primary ≡ none)
  unfolding stop_all
  stop_all_lem m ok s =
      let (count, gone) = stop_loop_lem ok m.servers m s.unique s.named refl in
      let m' = (stop_loop api (keys m.servers) m).1 in
      let s' = stop_loop-IsServed api (keys m.servers) m s in
      (
        count,
        gone,
        elim (Option-cases m'.primary) [
          | inl none_left ↦ none_left
          | inr (p, there) ↦
              absurd (unfold has get in ground (arith, s'.primary_there p there, gone))
        ],
      )
