-- ===== src/Plugin/Lifecycle/Unloading.antt =====
-- Unloading, reloading and the end of the module.
use oksai_cc_api_server.Base.{
  String, Bool, true, false, none, some, List, [], ◌∷◌, ◌++◌, get, has, filter, if◌then◌else◌, ◌==◌,
  string_eq, ◌≡◌, ◌≢◌, ◌↔◌, refl, ap, arith, get-delete, get-set_self, inl, inr, Option-cases,
}
use oksai_cc_api_server.Base.Exec.{ok, err}
use oksai_cc_api_server.Plugin.Types.{
  failed, Plugin, Call, destroy, on_application_shutdown, has_dependents, Host, Hooks,
}
use oksai_cc_api_server.Plugin.Registry.{
  await_call, plain_call, update_status, get_all, unregister, drop_plugin,
}
use oksai_cc_api_server.Plugin.Registry.Laws.{get-unregister}
use oksai_cc_api_server.Plugin.Registry.Invariant.{IsConsistent}
use oksai_cc_api_server.Plugin.Registry.Views.{find-get_all}
use oksai_cc_api_server.Plugin.Loader.{
  registered_names, get_dependents, unload_kind, unload_plugin, reload_plugin, load_plugin,
}
use oksai_cc_api_server.Plugin.Lifecycle.Loading.{Settled, load-status, plugins-load}

-- The call of the shutdown hook, where the plugin has one.
abbrev shutdown_calls : Plugin → Host → List Call
shutdown_calls p h =
    if p.has_on_application_shutdown then on_application_shutdown p.ref h.module_ref ∷ [] else []

module _ (hooks : Hooks) where
  pub registry-unload_kind :
      (p : Plugin) (h : Host) → (unload_kind hooks p h).1.registry ≡ h.registry
  unfolding unload_kind await_call
  registry-unload_kind p h = ground arith

  states-unload_kind :
      (p : Plugin) (h : Host) → (unload_kind hooks p h).1.plugin_states ≡ h.plugin_states
  unfolding unload_kind await_call
  states-unload_kind p h = ground arith

  calls-unload_kind :
      (p : Plugin) (h : Host)
      → (unload_kind hooks p h).0 ≡ ok tt
      → p.has_destroy ≡ true
      → (unload_kind hooks p h).1.calls ≡ destroy p.ref ∷ (shutdown_calls p h ++ h.calls)
  unfolding unload_kind await_call
  calls-unload_kind p h e d = ground arith

  unload_kind-error :
      (p : Plugin) (h : Host) (name : String) (ds : List String)
      → (unload_kind hooks p h).0 ≢ err (has_dependents name ds)
  unfolding unload_kind await_call
  unload_kind-error p h name ds = ground arith

  unregister-error :
      (name : String) (h : Host) (other : String) (ds : List String)
      → (unregister hooks name h).0 ≢ err (has_dependents other ds)
  unfolding unregister plain_call
  unregister-error name h other ds = ground arith

  registered_names_lem :
      {Stray : String → Type 0}
      → (h : Host) (ds : List String) → IsConsistent Stray h
      → registered_names (get_all h) ds ≡ filter (λ d. has d h.plugins) ds
  unfolding registered_names has
  registered_names_lem h [] c = refl
  registered_names_lem h (d ∷ ds) c = elim (Option-cases (get d h.plugins)) [
    | inl missing ↦ rw (find-get_all d h c, missing) (registered_names_lem h ds c)
    | inr (p, there) ↦
        rw (find-get_all d h c, there) (ap (λ xs. d ∷ xs) (registered_names_lem h ds c))
  ]

  -- Unloading a registered plugin is refused for a list of names exactly when no force is asked for
  -- and the list is not empty and is that of the plugin's own dependencies that are registered.
  pub unload_refused_iff :
      {Stray : String → Type 0}
      → (name : String) (force : Bool) (p : Plugin) (ds : List String) (h : Host)
      → IsConsistent Stray h
      → get name h.plugins ≡ some p
      → (unload_plugin hooks name force h ≡ (err (has_dependents name ds), h))
        ↔ ((force ≡ false) × (ds ≢ []) × (ds ≡ filter (λ d. has d h.plugins) p.dependencies))
  unfolding unload_plugin get_dependents
  unload_refused_iff name force p ds h c r = ground (
    arith,
    find-get_all name h c,
    registered_names_lem h p.dependencies c,
    unload_kind-error p h name ds,
    unregister-error name (unload_kind hooks p h).1 name ds,
  )

  states-unregister :
      (name : String) (h : Host) → (unregister hooks name h).1.plugin_states ≡ h.plugin_states
  unfolding unregister plain_call drop_plugin
  states-unregister name h = ground arith

  calls-unregister :
      (name : String) (p : Plugin) (h : Host)
      → get name h.plugins ≡ some p
      → p.has_destroy ≡ true
      → (unregister hooks name h).1.calls ≡ destroy p.ref ∷ h.calls
  unfolding unregister plain_call drop_plugin
  calls-unregister name p h r d = ground arith

  -- After a successful unload the plugin is gone from the registry and from the loader's states,
  -- and every other name is as it was.
  pub unload-gone :
      (name other : String) (force : Bool) (h : Host)
      → (unload_plugin hooks name force h).0 ≡ ok tt
      → (get other (unload_plugin hooks name force h).1.plugins
          ≡ (if name == other then none else get other h.plugins))
        × (get other (unload_plugin hooks name force h).1.plugin_statuses
            ≡ (if name == other then none else get other h.plugin_statuses))
        × (get other (unload_plugin hooks name force h).1.plugin_states
            ≡ (if name == other then none else get other h.plugin_states))
  unfolding unload_plugin
  unload-gone name other force h e = elim (Option-cases (get name h.plugins)) [
    | inl missing ↦ absurd (ground arith)
    | inr (p, there) ↦ ground (
      arith,
      registry-unload_kind p h,
      states-unload_kind p h,
      get-unregister hooks name other (unload_kind hooks p h).1,
      states-unregister name (unload_kind hooks p h).1,
      get-delete name other h.plugin_states,
    )
  ]

  -- A successful unload calls `destroy` twice on a plugin that has it.
  pub unload-destroys_twice :
      (name : String) (force : Bool) (p : Plugin) (h : Host)
      → get name h.plugins ≡ some p
      → p.has_destroy ≡ true
      → (unload_plugin hooks name force h).0 ≡ ok tt
      → (unload_plugin hooks name force h).1.calls
        ≡ destroy p.ref ∷ destroy p.ref ∷ (shutdown_calls p h ++ h.calls)
  unfolding unload_plugin
  unload-destroys_twice name force p h r d e = ground (
    arith,
    registry-unload_kind p h,
    calls-unload_kind p h,
    calls-unregister name p (unload_kind hooks p h).1,
  )

  -- Reloading a registered plugin never throws: the plugin stays registered, and its status is
  -- INITIALIZED or FAILED.
  pub reload-Settled :
      (name : String) (p : Plugin) (h : Host)
      → p.name ≡ name
      → get name h.plugins ≡ some p
      → ((reload_plugin hooks name h).0 ≡ ok tt)
        × ((reload_plugin hooks name h).1.plugins ≡ h.plugins)
        × Settled (reload_plugin hooks name h).1 name
  unfolding reload_plugin update_status
  reload-Settled name p h k r = ground (
    arith,
    registry-unload_kind p h,
    load-status hooks p p.config true (unload_kind hooks p h).1,
    plugins-load hooks p p.config true (unload_kind hooks p h).1,
    get-set_self name failed (unload_kind hooks p h).1.plugin_statuses,
    get-set_self name failed
        (load_plugin hooks p p.config true (unload_kind hooks p h).1).1.plugin_statuses,
  )
