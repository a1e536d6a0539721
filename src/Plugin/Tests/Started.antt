-- ===== src/Plugin/Tests/Started.antt =====
-- The theorems on start-up on the sample host.
use oksai_cc_api_server.Base.{true, false, none, some, [], ◌∷◌, get, string_eq, ◌≡◌, refl}
use oksai_cc_api_server.Plugin.Types.{disabled}
use oksai_cc_api_server.Plugin.Loader.{PluginConfig, FeatureConfig, load_plugins}
use oksai_cc_api_server.Plugin.Lifecycle.Loading.{status_of, Settled}
use oksai_cc_api_server.Plugin.Lifecycle.Configured.{load_plugins-Obeys, load_plugins-Settled}
use oksai_cc_api_server.Plugin.Tests.{quiet, noisy, host, host-IsConsistent, tenant, auth}

abbrev switched_off : FeatureConfig
switched_off = record { enabled = false; config = none }

-- The configuration names a feature plugin and, to switch it off, a system plugin.
abbrev config : PluginConfig
config = record {
  feature_plugins =
      ("audit", record { enabled = true; config = none }) ∷ ("tenant", switched_off) ∷ [];
}

load_plugins-Obeys_example : status_of (load_plugins quiet config host).1 "tenant" ≡ some disabled
unfolding get
load_plugins-Obeys_example =
    load_plugins-Obeys quiet config host "tenant" switched_off tenant host-IsConsistent
      ((refl, (refl, tt))) refl refl

load_plugins-Settled_example : Settled (load_plugins noisy config host).1 "auth"
unfolding get
load_plugins-Settled_example =
    load_plugins-Settled noisy config host "auth" auth host-IsConsistent refl refl refl
