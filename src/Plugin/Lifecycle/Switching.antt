-- ===== src/Plugin/Lifecycle/Switching.antt =====
-- Disabling and enabling a plugin.
use oksai_cc_api_server.Base.{
  String, true, false, Option, some, get, string_eq, nat_eq, ◌≡◌, refl, arith, get-set_self,
}
use oksai_cc_api_server.Base.Exec.{ok, err}
use oksai_cc_api_server.Plugin.Types.{
  initialized, disabled, Config, Plugin, module_plugin, object_plugin, PluginState, cannot_disable,
  always_enabled, Host, Hooks,
}
use oksai_cc_api_server.Plugin.Registry.{await_call}
use oksai_cc_api_server.Plugin.Loader.{disable_plugin, enable_plugin, kind_of}

module _ (hooks : Hooks) where
  -- A protected plugin is neither disabled nor enabled: both requests fail and change nothing.
  pub protected_refused :
      (name : String) (p : Plugin) (config : Option Config) (h : Host)
      → get name h.plugins ≡ some p
      → p.is_protected ≡ true
      → (disable_plugin hooks name h ≡ (err (cannot_disable name), h))
        × (enable_plugin hooks name config h ≡ (err (always_enabled name), h))
  unfolding disable_plugin enable_plugin
  protected_refused name p config h g t = ground arith

  -- A disable request that succeeds leaves the status DISABLED.
  pub disable-status :
      (name : String) (h : Host)
      → (disable_plugin hooks name h).0 ≡ ok tt
      → get name (disable_plugin hooks name h).1.plugin_statuses ≡ some disabled
  unfolding disable_plugin await_call
  disable-status name h e = ground (arith, get-set_self name disabled h.plugin_statuses)

  -- An object plugin that is disabled while its loader state says enabled stays disabled: a later
  -- enable request reports success and changes nothing.
  pub disabled_object_stays :
      (name : String) (p : Plugin) (s : PluginState) (config : Option Config) (h : Host)
      → get name h.plugins ≡ some p
      → p.is_protected ≡ false
      → get name h.plugin_states ≡ some s
      → s.plugin_type ≡ object_plugin
      → s.enabled ≡ true
      → (enable_plugin hooks name config (disable_plugin hooks name h).1
          ≡ (ok tt, (disable_plugin hooks name h).1))
        × (get name (disable_plugin hooks name h).1.plugin_statuses ≡ some disabled)
  unfolding disable_plugin enable_plugin await_call
  disabled_object_stays name p s config h g t q k e =
      ground (arith, get-set_self name disabled h.plugin_statuses)

  disable_module :
      (name : String) (p : Plugin) (s : PluginState) (h : Host)
      → get name h.plugins ≡ some p
      → p.is_protected ≡ false
      → get name h.plugin_states ≡ some s
      → s.plugin_type ≡ module_plugin
      → (disable_plugin hooks name h).0 ≡ ok tt
      → ((disable_plugin hooks name h).1.plugins ≡ h.plugins)
        × (get name (disable_plugin hooks name h).1.plugin_states
            ≡ some (record s { status = disabled; enabled = false }))
  unfolding disable_plugin await_call
  disable_module name p s h g t q k e =
      ground
        (arith, get-set_self name (record s { status = disabled; enabled = false }) h.plugin_states)

  enable_from :
      (name : String) (p : Plugin) (s : PluginState) (config : Option Config) (h : Host)
      → get name h.plugins ≡ some p
      → p.is_protected ≡ false
      → get name h.plugin_states ≡ some s
      → s.enabled ≡ false
      → (enable_plugin hooks name config h).0 ≡ ok tt
      → (get name (enable_plugin hooks name config h).1.plugin_statuses ≡ some initialized)
        × (get name (enable_plugin hooks name config h).1.plugin_states
            ≡ some (record s { status = initialized; plugin_type = kind_of p; enabled = true }))
  unfolding enable_plugin await_call
  enable_from name p s config h g t q k e = ground (
    arith,
    get-set_self name initialized h.plugin_statuses,
    get-set_self name (record s { status = initialized; plugin_type = kind_of p; enabled = true })
        h.plugin_states,
  )

  -- A module plugin that is disabled and then enabled again, both with success, has the status
  -- INITIALIZED, and its loader state says initialized and enabled.
  pub module_enabled_again :
      (name : String) (p : Plugin) (s : PluginState) (config : Option Config) (h : Host)
      → get name h.plugins ≡ some p
      → p.is_protected ≡ false
      → get name h.plugin_states ≡ some s
      → s.plugin_type ≡ module_plugin
      → (disable_plugin hooks name h).0 ≡ ok tt
      → (enable_plugin hooks name config (disable_plugin hooks name h).1).0 ≡ ok tt
      → (get name
            (enable_plugin hooks name config (disable_plugin hooks name h).1).1.plugin_statuses
          ≡ some initialized)
        × (get name
              (enable_plugin hooks name config (disable_plugin hooks name h).1).1.plugin_states
            ≡ some (record s { status = initialized; plugin_type = kind_of p; enabled = true }))
  module_enabled_again name p s config h g t q k e d =
      let (same, state) = disable_module name p s h g t q k e in
      enable_from name p (record s { status = disabled; enabled = false }) config
        (disable_plugin hooks name h).1 (rw same g) t state refl d
