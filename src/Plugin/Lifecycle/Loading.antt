-- ===== src/Plugin/Lifecycle/Loading.antt =====
-- Loading the registered plugins at start-up.
use oksai_cc_api_server.Base.{
  String, Bool, false, Option, some, get, set, ◌==◌, string_eq, nat_eq, ◌≡◌, ◌≢◌, ◌⊎◌, inl, inr,
  arith, get-set, get-set_self, eq_iff, Bool-cases,
}
use oksai_cc_api_server.Base.Exec.{ok}
use oksai_cc_api_server.Plugin.Types.{
  PluginStatus, loaded, initialized, failed, Config, Plugin, Host, Hooks,
}
use oksai_cc_api_server.Plugin.Registry.{await_call, update_status}
use oksai_cc_api_server.Plugin.Loader.{
  load_plugin, load_or_fail, load_kind, bootstrap, mark_initialized, assign_enabled,
}

abbrev pub status_of : Host → String → Option PluginStatus
status_of h name = get name h.plugin_statuses

abbrev pub SettledAs : Option PluginStatus → Type 0
SettledAs s = (s ≡ some initialized) ⊎ (s ≡ some failed)

abbrev pub Settled : Host → String → Type 0
Settled h name = SettledAs (status_of h name)

module _ (hooks : Hooks) where
  pub registry-load_kind :
      (p : Plugin) (config : Option Config) (h : Host)
      → (load_kind hooks p config h).1.registry ≡ h.registry
  unfolding load_kind assign_enabled await_call
  registry-load_kind p config h = ground arith

  pub registry-bootstrap : (p : Plugin) (h : Host) → (bootstrap hooks p h).1.registry ≡ h.registry
  unfolding bootstrap await_call
  registry-bootstrap p h = ground arith

  -- the host in which `initialize` has returned
  abbrev pub after_kind : Plugin → Option Config → Host → Host
  after_kind p config h = (load_kind hooks p config (update_status p.name loaded h).1).1

  abbrev pub before_bootstrap : Plugin → Option Config → Host → Host
  before_bootstrap p config h =
      mark_initialized p (update_status p.name initialized (after_kind p config h)).1

  -- A load that succeeds leaves the status INITIALIZED. One that throws leaves LOADED where
  -- `initialize` failed, and INITIALIZED where the bootstrap hook failed.
  pub load-status :
      (p : Plugin) (config : Option Config) (force : Bool) (h : Host)
      → (((load_plugin hooks p config force h).0 ≡ ok tt)
          × (status_of (load_plugin hooks p config force h).1 p.name ≡ some initialized))
        ⊎ (((load_plugin hooks p config force h).0 ≢ ok tt)
            × ((status_of (load_plugin hooks p config force h).1 p.name ≡ some loaded)
                ⊎ (status_of (load_plugin hooks p config force h).1 p.name ≡ some initialized)))
  unfolding load_plugin await_call
  load-status p config force h = ground (
    arith,
    registry-load_kind p config (update_status p.name loaded h).1,
    registry-bootstrap p (before_bootstrap p config h),
    get-set_self p.name loaded h.plugin_statuses,
    get-set_self p.name initialized (set p.name loaded h.plugin_statuses),
  )

  load-frame :
      (p : Plugin) (config : Option Config) (force : Bool) (h : Host) (n : String)
      → p.name ≢ n
      → status_of (load_plugin hooks p config force h).1 n ≡ status_of h n
  unfolding load_plugin await_call
  load-frame p config force h n d = ground (
    arith,
    registry-load_kind p config (update_status p.name loaded h).1,
    registry-bootstrap p (before_bootstrap p config h),
    get-set p.name n loaded h.plugin_statuses,
    eq_iff p.name n,
    get-set p.name n initialized (set p.name loaded h.plugin_statuses),
  )

  pub plugins-load :
      (p : Plugin) (config : Option Config) (force : Bool) (h : Host)
      → (load_plugin hooks p config force h).1.plugins ≡ h.plugins
  unfolding load_plugin await_call
  plugins-load p config force h = ground (
    arith,
    registry-load_kind p config (update_status p.name loaded h).1,
    registry-bootstrap p (before_bootstrap p config h),
  )

  pub load_or_fail-ok :
      (name : String) (p : Plugin) (config : Option Config) (h : Host)
      → (load_or_fail hooks name p config h).0 ≡ ok tt
  unfolding load_or_fail update_status
  load_or_fail-ok name p config h = ground arith

  pub load_or_fail-Settled :
      (name : String) (p : Plugin) (config : Option Config) (h : Host)
      → p.name ≡ name
      → Settled (load_or_fail hooks name p config h).1 name
  unfolding load_or_fail update_status
  load_or_fail-Settled name p config h e = ground (
    arith,
    load-status p config false h,
    get-set_self name failed (load_plugin hooks p config false h).1.plugin_statuses,
  )

  pub load_or_fail-frame :
      (name : String) (p : Plugin) (config : Option Config) (h : Host) (n : String)
      → p.name ≡ name
      → name ≢ n
      → status_of (load_or_fail hooks name p config h).1 n ≡ status_of h n
  unfolding load_or_fail update_status
  load_or_fail-frame name p config h n e d = ground (
    arith,
    load-frame p config false h n,
    eq_iff name n,
    get-set name n failed (load_plugin hooks p config false h).1.plugin_statuses,
  )

  pub plugins-load_or_fail :
      (name : String) (p : Plugin) (config : Option Config) (h : Host)
      → (load_or_fail hooks name p config h).1.plugins ≡ h.plugins
  unfolding load_or_fail update_status
  plugins-load_or_fail name p config h = ground (arith, plugins-load p config false h)

  -- a settled plugin stays settled
  pub load_or_fail-keeps :
      (name : String) (p : Plugin) (config : Option Config) (h : Host) (n : String)
      → p.name ≡ name
      → Settled h n
      → Settled (load_or_fail hooks name p config h).1 n
  load_or_fail-keeps name p config h n e s = elim (Bool-cases (name == n)) [
    | inl same ↦ rw (← ((eq_iff name n).0 same)) (load_or_fail-Settled name p config h e)
    | inr other ↦ rw (load_or_fail-frame name p config h n e (λ q. ground (arith, eq_iff name n))) s
  ]
