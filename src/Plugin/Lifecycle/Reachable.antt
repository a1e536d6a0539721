-- ===== src/Plugin/Lifecycle/Reachable.antt =====
-- The two services as a state machine: a step is one completed call of a public method, whatever it
-- returns.
use oksai_cc_api_server.Base.{String, Bool, true, Option, has, string_eq, ◌≡◌, ◌⊎◌}
use oksai_cc_api_server.Plugin.Types.{PluginStatus, Config, Plugin, Host, Hooks}
use oksai_cc_api_server.Plugin.Registry.{register, unregister, clear, update_status}
use oksai_cc_api_server.Plugin.Loader.{
  PluginConfig, load_plugins, unload_plugin, reload_plugin, disable_plugin, enable_plugin,
  on_module_destroy,
}

module _ (hooks : Hooks) (Stray : String → Type 0) where
  -- `Stray` are the names that `updateStatus`, which asks nothing of its name, may be called with
  -- while they are not registered.
  pub data Step (h : Host) : Host → Type 0 where
    registering : (p : Plugin) → Step h (register p h).1
    unregistering : (name : String) → Step h (unregister hooks name h).1
    clearing : Step h (clear hooks h).1
    updating :
        (name : String) (status : PluginStatus)
        → (has name h.plugins ≡ true) ⊎ Stray name
        → Step h (update_status name status h).1
    starting : (config : PluginConfig) → Step h (load_plugins hooks config h).1
    unloading : (name : String) (force : Bool) → Step h (unload_plugin hooks name force h).1
    reloading : (name : String) → Step h (reload_plugin hooks name h).1
    disabling : (name : String) → Step h (disable_plugin hooks name h).1
    enabling :
        (name : String) (config : Option Config) → Step h (enable_plugin hooks name config h).1
    ending : Step h (on_module_destroy hooks h).1

  pub data Reachable (h : Host) : Host → Type 0 where
    start : Reachable h h
    next : {h' h'' : Host} → Reachable h h' → Step h' h'' → Reachable h h''
