-- ===== src/Plugin/Tests/Switched.antt =====
-- The theorems on disabling, unloading and reloading on the sample hosts.
use oksai_cc_api_server.Base.{
  String, List, true, false, none, some, [], ◌∷◌, get, set, has, filter, string_eq, ◌≡◌, ◌≢◌, ◌↔◌,
  refl,
}
use oksai_cc_api_server.Base.Exec.{ok, err}
use oksai_cc_api_server.Plugin.Types.{
  initialized, disabled, PluginState, Host, module_plugin, object_plugin, has_dependents,
}
use oksai_cc_api_server.Plugin.Registry.{await_call}
use oksai_cc_api_server.Plugin.Loader.{unload_plugin, reload_plugin, disable_plugin, enable_plugin}
use oksai_cc_api_server.Plugin.Lifecycle.Loading.{Settled}
use oksai_cc_api_server.Plugin.Lifecycle.Unloading.{unload_refused_iff, reload-Settled}
use oksai_cc_api_server.Plugin.Lifecycle.Switching.{disabled_object_stays, module_enabled_again}
use oksai_cc_api_server.Plugin.Tests.{quiet, noisy, host, host-IsConsistent, audit, mail}

abbrev audit_state : PluginState
audit_state = record {
  name = "audit";
  status = initialized;
  plugin_type = object_plugin;
  enabled = true;
}

abbrev mail_state : PluginState
mail_state = record {
  name = "mail";
  status = initialized;
  plugin_type = module_plugin;
  enabled = true;
}

abbrev running : Host
running = record host { plugin_states = ("audit", audit_state) ∷ ("mail", mail_state) ∷ [] }

abbrev needed : List String
needed = "tenant" ∷ []

unload_refused_iff_example :
    (unload_plugin quiet "audit" false host ≡ (err (has_dependents "audit" needed), host))
    ↔ ((false ≡ false) × (needed ≢ []) × (needed ≡ filter (λ d. has d host.plugins) needed))
unfolding get
unload_refused_iff_example =
    unload_refused_iff quiet "audit" false audit needed host host-IsConsistent refl

reload-Settled_example :
    ((reload_plugin noisy "audit" running).0 ≡ ok tt)
    × ((reload_plugin noisy "audit" running).1.plugins ≡ running.plugins)
    × Settled (reload_plugin noisy "audit" running).1 "audit"
unfolding get
reload-Settled_example = reload-Settled noisy "audit" audit running refl refl

disabled_object_stays_example :
    (enable_plugin quiet "audit" none (disable_plugin quiet "audit" running).1
      ≡ (ok tt, (disable_plugin quiet "audit" running).1))
    × (get "audit" (disable_plugin quiet "audit" running).1.plugin_statuses ≡ some disabled)
unfolding get
disabled_object_stays_example =
    disabled_object_stays quiet "audit" audit audit_state none running refl refl refl refl refl

module_enabled_again_example :
    (get "mail"
        (enable_plugin quiet "mail" none (disable_plugin quiet "mail" running).1).1.plugin_statuses
      ≡ some initialized)
    × (get "mail"
          (enable_plugin quiet "mail" none (disable_plugin quiet "mail" running).1).1.plugin_states
        ≡ some mail_state)
unfolding get disable_plugin enable_plugin await_call set
module_enabled_again_example =
    module_enabled_again quiet "mail" mail mail_state none running refl refl refl refl refl refl
