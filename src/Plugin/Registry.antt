-- ===== src/Plugin/Registry.antt =====
-- libs/plugin/src/services/plugin-registry.service.ts. The logger is left out.
pub mod Laws
pub mod Invariant
pub mod Views
use oksai_cc_api_server.Base.{
  ℕ, String, Bool, true, false, Option, none, some, List, [], ◌∷◌, Map, get, set, delete, has,
  values, filter, if◌then◌else◌, ◌==◌, string_eq,
}
use oksai_cc_api_server.Base.Exec.{Exec, ok, err, pure, throw, modify, when, try_catch, ◌>>=◌, ◌>>◌}
use oksai_cc_api_server.Plugin.Types.{
  PluginStatus, unloaded, is_initialized, is_system, Plugin, Call, destroy, Outcome, returns,
  throws, rejects, PluginError, empty_name, already_registered, not_registered, hook_failed, Host,
  Hooks,
}

abbrev pub Action : Type 0 → Type 0
Action A = Exec PluginError Host A

-- The statements on `plugins` and `pluginStatuses`.
unfoldable pub put_plugin : Plugin → Host → Host
put_plugin p h = record h {
  registry = record {
    plugins = set p.name p h.plugins;
    plugin_statuses = set p.name unloaded h.plugin_statuses;
  };
}

unfoldable pub drop_plugin : String → Host → Host
drop_plugin name h = record h {
  registry = record {
    plugins = delete name h.plugins;
    plugin_statuses = delete name h.plugin_statuses;
  };
}

unfoldable pub update_status : String → PluginStatus → Action Unit
update_status name status = modify λ h. record h {
  registry = record h.registry { plugin_statuses = set name status h.plugin_statuses };
}

unfoldable pub register : Plugin → Action Unit
register p h =
    if p.name == ""
    then (err empty_name, h)
    else if has p.name h.plugins
    then (err (already_registered p.name), h)
    else (ok tt, put_plugin p h)

unfoldable pub get_all : Host → List Plugin
get_all h = values h.plugins

-- `this.pluginStatuses.get(plugin.name) || UNLOADED`
unfoldable pub status_or_unloaded : Host → String → PluginStatus
status_or_unloaded h name = elim (get name h.plugin_statuses) [ none ↦ unloaded | some s ↦ s ]

unfoldable pub get_enabled : Host → List Plugin
get_enabled h = filter (λ p. is_initialized (status_or_unloaded h p.name)) (get_all h)

unfoldable pub get_system_plugins : Host → List Plugin
get_system_plugins h = filter (λ p. is_system p.type) (get_all h)

unfoldable pub get_feature_plugins : Host → List Plugin
get_feature_plugins h = filter (λ p. if is_system p.type then false else true) (get_all h)

abbrev pub failed_call : Outcome → Bool
failed_call returns = false
failed_call _ = true

abbrev pub thrown : Outcome → Bool
thrown throws = true
thrown _ = false

module _ (hooks : Hooks) where
  abbrev pub log_call : Call → Host → Host
  log_call c h = record h { calls = c ∷ h.calls }

  -- `await plugin.method(…)`
  unfoldable pub await_call : Call → Action Unit
  await_call c h =
      if failed_call (hooks h.calls c)
      then (err (hook_failed c), log_call c h)
      else (ok tt, log_call c h)

  -- `plugin.method(…)` with no `await`: a promise that is rejected later raises nothing here.
  unfoldable pub plain_call : Call → Action Unit
  plain_call c h =
      if thrown (hooks h.calls c)
      then (err (hook_failed c), log_call c h)
      else (ok tt, log_call c h)

  unfoldable pub unregister_found : String → Option Plugin → Action Unit
  unregister_found name none = throw (not_registered name)
  unregister_found name (some p) = do
    when p.has_destroy (plain_call (destroy p.ref))
    modify (drop_plugin name)

  unfoldable pub unregister : String → Action Unit
  unfolding unregister_found
  unregister name h = unregister_found name (get name h.plugins) h

  -- the loop of `clear`
  unfoldable pub destroy_all : List Plugin → Action Unit
  destroy_all [] = pure tt
  destroy_all (p ∷ ps) = do
    when p.has_destroy (try_catch (plain_call (destroy p.ref)) (λ _. pure tt))
    destroy_all ps

  unfoldable pub clear : Action Unit
  clear h =
      (do
        destroy_all (get_all h)
        modify (λ h'. record h' { registry = record { plugins = []; plugin_statuses = [] } }))
        h
