-- ===== src/Plugin/Loader/Unload.antt =====
-- libs/plugin/src/services/plugin-loader.service.ts: `unloadPlugin`, `reloadPlugin`, `onModuleDestroy`.
use oksai_cc_api_server.Base.{
  String, Bool, true, false, Option, none, some, List, [], ◌∷◌, get, delete, find, length,
  if◌then◌else◌, ◌==◌, string_eq, nat_eq, ◌&&◌, not, leb, is_some,
}
use oksai_cc_api_server.Base.Exec.{err, pure, throw, modify, when, try_catch, ◌>>◌}
use oksai_cc_api_server.Plugin.Types.{
  failed, Plugin, is_module_plugin, is_object_plugin, PluginState, destroy, on_application_shutdown,
  not_registered, has_dependents, Host, Hooks,
}
use oksai_cc_api_server.Plugin.Registry.{
  Action, update_status, unregister, get_all, await_call, plain_call,
}
use oksai_cc_api_server.Plugin.Loader.Load.{is_module_state, load_plugin}

-- `getDependents`: the names among the plugin's own dependencies that are registered.
unfoldable pub registered_names : List Plugin → List String → List String
registered_names plugins [] = []
registered_names plugins (d ∷ ds) =
    if is_some (find (λ p. p.name == d) plugins)
    then d ∷ registered_names plugins ds
    else registered_names plugins ds

unfoldable pub get_dependents : String → Host → List String
get_dependents name h = elim (find (λ p. p.name == name) (get_all h)) [
  | none ↦ []
  | some p ↦ registered_names (get_all h) p.dependencies
]

module _ (hooks : Hooks) where
  unfoldable pub shutdown : Plugin → Action Unit
  shutdown p h =
      when p.has_on_application_shutdown
        (await_call hooks (on_application_shutdown p.ref h.module_ref)) h

  unfoldable pub unload_module_plugin : Plugin → Action Unit
  unfolding shutdown
  unload_module_plugin p = shutdown p

  unfoldable pub await_destroy : Plugin → Action Unit
  await_destroy p = when p.has_destroy (await_call hooks (destroy p.ref))

  unfoldable pub unload_object_plugin : Plugin → Action Unit
  unfolding shutdown await_destroy
  unload_object_plugin p = do shutdown p; await_destroy p

  -- the `if`/`else if` that `unloadPlugin` and `reloadPlugin` share
  unfoldable pub unload_kind : Plugin → Action Unit
  unfolding unload_module_plugin unload_object_plugin
  unload_kind p h =
      if is_module_plugin p
      then (do unload_module_plugin p; await_destroy p) h
      else when (is_object_plugin p) (unload_object_plugin p) h

  unfoldable pub unload_found : String → Bool → Option Plugin → Action Unit
  unload_found name force none h = (err (not_registered name), h)
  unload_found name force (some p) h =
      if leb 1 (length (get_dependents name h)) && not force
      then (err (has_dependents name (get_dependents name h)), h)
      else (do
        unload_kind p
        unregister hooks name
        modify (λ h'. record h' { plugin_states = delete name h'.plugin_states }))
          h

  unfoldable pub unload_plugin : String → Bool → Action Unit
  unfolding unload_found
  unload_plugin name force h = unload_found name force (get name h.plugins) h

  unfoldable pub reload_found : String → Option Plugin → Action Unit
  reload_found name none = throw (not_registered name)
  reload_found name (some p) =
      try_catch (do unload_kind p; load_plugin hooks p p.config true)
        (λ _. update_status name failed)

  unfoldable pub reload_plugin : String → Action Unit
  unfolding reload_found
  reload_plugin name h = reload_found name (get name h.plugins) h

  -- `pluginState?.pluginType === 'module'`
  abbrev pub is_module_entry : Option PluginState → Bool
  is_module_entry none = false
  is_module_entry (some s) = is_module_state s

  -- one round of the loop of `onModuleDestroy`
  unfoldable pub destroy_one : Plugin → Action Unit
  destroy_one p h =
      (do
        when
            (is_module_plugin p
              && is_module_entry (get p.name h.plugin_states)
              && p.has_on_application_shutdown
              && h.module_ref)
            (try_catch (plain_call hooks (on_application_shutdown p.ref true)) (λ _. pure tt))
        when p.has_destroy (try_catch (plain_call hooks (destroy p.ref)) (λ _. pure tt)))
        h

  unfoldable pub destroy_loop : List Plugin → Action Unit
  unfolding destroy_one
  destroy_loop [] = pure tt
  destroy_loop (p ∷ ps) = do destroy_one p; destroy_loop ps

  unfoldable pub on_module_destroy : Action Unit
  unfolding destroy_loop
  on_module_destroy h =
      (do destroy_loop (get_all h); modify (λ h'. record h' { plugin_states = [] })) h
