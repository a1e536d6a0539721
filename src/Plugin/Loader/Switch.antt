-- ===== src/Plugin/Loader/Switch.antt =====
-- libs/plugin/src/services/plugin-loader.service.ts: `disablePlugin` and `enablePlugin`.
use oksai_cc_api_server.Base.{
  String, Bool, true, false, Option, none, some, get, set, if◌then◌else◌, string_eq, nat_eq,
}
use oksai_cc_api_server.Base.Exec.{ok, err, pure, modify, when, ◌>>◌}
use oksai_cc_api_server.Plugin.Types.{
  initialized, disabled, Config, Plugin, is_module_plugin, is_object_plugin, PluginState,
  initialize, not_registered, cannot_disable, always_enabled, Host, Hooks,
}
use oksai_cc_api_server.Plugin.Registry.{Action, update_status, await_call}
use oksai_cc_api_server.Plugin.Loader.Load.{
  is_module_state, kind_of, set_state, assign_enabled, load_module_plugin,
}
use oksai_cc_api_server.Plugin.Loader.Unload.{unload_module_plugin}

-- `if (plugin.isEnabled === false) plugin.isEnabled = true`
unfoldable pub lift_flag : Plugin → Host → Host
lift_flag p h = elim (get p.ref h.is_enabled) [
  | none ↦ h
  | some b ↦ if b then h else record h { is_enabled = set p.ref true h.is_enabled }
]

unfoldable pub enable_state : String → Plugin → Option PluginState → Host → Host
enable_state name p none h = h
enable_state name p (some s) h =
    set_state name (record s { status = initialized; plugin_type = kind_of p; enabled = true }) h

abbrev pub already_enabled : Option PluginState → Bool
already_enabled none = false
already_enabled (some s) = s.enabled

module _ (hooks : Hooks) where
  -- the two branches of `disablePlugin`
  unfoldable pub disable_kind : String → Plugin → Option PluginState → Action Unit
  unfolding unload_module_plugin assign_enabled
  disable_kind name p none h =
      if is_object_plugin p then (ok tt, assign_enabled p false h) else (ok tt, h)
  disable_kind name p (some s) h =
      if is_module_state s
      then (do
        unload_module_plugin hooks p
        modify (set_state name (record s { status = disabled; enabled = false })))
          h
      else if is_object_plugin p
      then (ok tt, assign_enabled p false h)
      else (ok tt, h)

  unfoldable pub disable_found : String → Option Plugin → Action Unit
  unfolding disable_kind update_status
  disable_found name none h = (err (not_registered name), h)
  disable_found name (some p) h =
      if p.is_protected
      then (err (cannot_disable name), h)
      else (do disable_kind name p (get name h.plugin_states); update_status name disabled) h

  unfoldable pub disable_plugin : String → Action Unit
  unfolding disable_found
  disable_plugin name h = disable_found name (get name h.plugins) h

  unfoldable pub initialize_given : Plugin → Option Config → Action Unit
  initialize_given p none = pure tt
  initialize_given p (some c) = when p.has_initialize (await_call hooks (initialize p.ref c))

  unfoldable pub enable_kind : Plugin → Option Config → Action Unit
  unfolding load_module_plugin lift_flag initialize_given
  enable_kind p config h =
      if is_module_plugin p
      then load_module_plugin hooks p config h
      else when (is_object_plugin p) (do modify (lift_flag p); initialize_given p config) h

  unfoldable pub enable_found : String → Option Config → Option Plugin → Action Unit
  unfolding enable_kind enable_state update_status
  enable_found name config none h = (err (not_registered name), h)
  enable_found name config (some p) h =
      if p.is_protected
      then (err (always_enabled name), h)
      else if already_enabled (get name h.plugin_states)
      then (ok tt, h)
      else (do
        enable_kind p config
        modify (enable_state name p (get name h.plugin_states))
        update_status name initialized)
          h

  unfoldable pub enable_plugin : String → Option Config → Action Unit
  unfolding enable_found
  enable_plugin name config h = enable_found name config (get name h.plugins) h
