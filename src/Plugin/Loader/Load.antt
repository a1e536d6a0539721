-- ===== src/Plugin/Loader/Load.antt =====
-- libs/plugin/src/services/plugin-loader.service.ts: `loadPlugins` and what it calls.
use oksai_cc_api_server.Base.{
  String, Bool, true, false, Option, none, some, List, [], ◌∷◌, get, set, has, filter, find,
  if◌then◌else◌, ◌==◌, string_eq, nat_eq, ◌&&◌, not,
}
use oksai_cc_api_server.Base.Exec.{ok, pure, modify, when, try_catch, ◌>>◌}
use oksai_cc_api_server.Plugin.Types.{
  loaded, initialized, failed, disabled, is_initialized, is_system, Config, empty_object, Plugin,
  PluginKind, module_plugin, object_plugin, is_module_plugin, is_object_plugin, PluginState,
  initialize, on_application_bootstrap, Host, Hooks,
}
use oksai_cc_api_server.Plugin.Registry.{Action, update_status, get_all, await_call}

-- one entry of `featurePlugins`
pub record FeatureConfig : Type 0 where
  pub enabled : Bool
  pub config : Option Config

pub record PluginConfig : Type 0 where
  pub feature_plugins : List (String × FeatureConfig)

-- `config ?? {}`
abbrev pub or_empty : Option Config → Config
or_empty none = empty_object
or_empty (some c) = c

abbrev pub kind_of : Plugin → PluginKind
kind_of p = if is_module_plugin p then module_plugin else object_plugin

abbrev pub is_module_state : PluginState → Bool
is_module_state s = elim s.plugin_type [ module_plugin ↦ true | object_plugin ↦ false ]

abbrev pub set_state : String → PluginState → Host → Host
set_state name s h = record h { plugin_states = set name s h.plugin_states }

-- `if (plugin.isEnabled !== undefined) plugin.isEnabled = b`
unfoldable pub assign_enabled : Plugin → Bool → Host → Host
assign_enabled p b h =
    if has p.ref h.is_enabled then record h { is_enabled = set p.ref b h.is_enabled } else h

-- `registry.getStatus(name) === INITIALIZED`
unfoldable pub status_is_initialized : Host → String → Bool
status_is_initialized h name = elim (get name h.plugin_statuses) [
  | none ↦ false
  | some s ↦ is_initialized s
]

unfoldable pub mark_initialized : Plugin → Host → Host
mark_initialized p =
    set_state p.name
      (record { name = p.name; status = initialized; plugin_type = kind_of p; enabled = true })

unfoldable pub mark_disabled : String → Plugin → Action Unit
mark_disabled name p = do
  update_status name disabled
  modify (
      set_state name
        (record { name = name; status = disabled; plugin_type = kind_of p; enabled = false }))

module _ (hooks : Hooks) where
  unfoldable pub load_module_plugin : Plugin → Option Config → Action Unit
  load_module_plugin p config =
      when p.has_initialize (await_call hooks (initialize p.ref (or_empty config)))

  unfoldable pub load_object_plugin : Plugin → Option Config → Action Unit
  load_object_plugin p config = do
    when p.has_initialize (await_call hooks (initialize p.ref (or_empty config)))
    modify (assign_enabled p true)

  unfoldable pub load_kind : Plugin → Option Config → Action Unit
  unfolding load_module_plugin load_object_plugin
  load_kind p config h =
      if is_module_plugin p
      then load_module_plugin p config h
      else when (is_object_plugin p) (load_object_plugin p config) h

  unfoldable pub bootstrap : Plugin → Action Unit
  bootstrap p h =
      when p.has_on_application_bootstrap
        (await_call hooks (on_application_bootstrap p.ref h.module_ref)) h

  unfoldable pub run_load : Plugin → Option Config → Action Unit
  unfolding mark_initialized update_status
  run_load p config = do
    update_status p.name loaded
    load_kind p config
    update_status p.name initialized
    modify (mark_initialized p)
    bootstrap p

  unfoldable pub load_plugin : Plugin → Option Config → Bool → Action Unit
  unfolding status_is_initialized run_load
  load_plugin p config force h =
      if status_is_initialized h p.name && not force then (ok tt, h) else run_load p config h

  -- the `try`/`catch` of both loops
  unfoldable pub load_or_fail : String → Plugin → Option Config → Action Unit
  load_or_fail name p config =
      try_catch (load_plugin p config false) (λ _. update_status name failed)

  -- the loop of `loadSystemPlugins`
  unfoldable pub load_system_loop : List Plugin → Action Unit
  load_system_loop [] = pure tt
  load_system_loop (p ∷ ps) = do load_or_fail p.name p none; load_system_loop ps

  unfoldable pub load_system_plugins : List Plugin → Action Unit
  load_system_plugins plugins = load_system_loop (filter (λ p. is_system p.type) plugins)

  unfoldable pub feature_found : String → FeatureConfig → Option Plugin → Action Unit
  unfolding mark_disabled
  feature_found name cfg none h = (ok tt, h)
  feature_found name cfg (some p) h =
      if cfg.enabled then load_or_fail name p cfg.config h else mark_disabled name p h

  -- one round of the loop of `loadFeaturePlugins`
  unfoldable pub load_feature : List Plugin → String → FeatureConfig → Action Unit
  unfolding feature_found
  load_feature plugins name cfg = feature_found name cfg (find (λ p. p.name == name) plugins)

  unfoldable pub load_feature_plugins : List (String × FeatureConfig) → List Plugin → Action Unit
  load_feature_plugins [] plugins = pure tt
  load_feature_plugins ((name, cfg) ∷ entries) plugins = do
    load_feature plugins name cfg
    load_feature_plugins entries plugins

  unfoldable pub load_registered : PluginConfig → List Plugin → Action Unit
  load_registered config [] = pure tt
  load_registered config (p ∷ ps) = do
    load_system_plugins (p ∷ ps)
    load_feature_plugins config.feature_plugins (p ∷ ps)

  unfoldable pub load_plugins : PluginConfig → Action Unit
  unfolding load_registered
  load_plugins config h = load_registered config (get_all h) h
