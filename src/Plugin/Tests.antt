-- ===== src/Plugin/Tests.antt =====
-- Sample plugins and hosts, on which the theorems about the plugin system are run.
pub mod Registered
pub mod Started
pub mod Switched
pub mod Searched
pub mod Guarded
use oksai_cc_api_server.Base.{
  ℕ, String, Bool, true, false, Option, none, some, List, [], ◌∷◌, Map, get, set, has, delete, ◌≡◌,
  ◌≢◌, refl, arith, eq_iff,
}
use oksai_cc_api_server.Plugin.Types.{
  PluginType, system, feature, PluginStatus, unloaded, initialized, Plugin, Host, Hooks, Outcome,
  returns, throws, PluginKind, module_plugin, object_plugin, PluginState,
}
use oksai_cc_api_server.Plugin.Registry.{put_plugin}
use oksai_cc_api_server.Plugin.Registry.Invariant.{IsConsistent, put_plugin-IsConsistent}

-- methods that all return, and methods that all throw
abbrev pub quiet : Hooks
quiet = λ calls call. returns

abbrev pub noisy : Hooks
noisy = λ calls call. throws

abbrev pub object_of : ℕ → String → PluginType → List String → Plugin
object_of ref name type dependencies = record {
  ref = ref;
  name = name;
  type = type;
  is_protected = false;
  dependencies = dependencies;
  config = none;
  has_create_module = false;
  has_initialize = true;
  has_destroy = true;
  has_on_application_bootstrap = true;
  has_on_application_shutdown = true;
}

abbrev pub tenant : Plugin
tenant = object_of 1 "tenant" system []

abbrev pub audit : Plugin
audit = object_of 2 "audit" feature ("tenant" ∷ [])

abbrev pub auth : Plugin
auth = record (object_of 3 "auth" system []) { is_protected = true }

abbrev pub mail : Plugin
mail = record (object_of 4 "mail" feature []) { has_create_module = true }

abbrev pub no_plugins : Host
no_plugins = record {
  registry = record { plugins = []; plugin_statuses = [] };
  plugin_states = [];
  module_ref = true;
  is_enabled = [];
  calls = [];
}

abbrev pub host : Host
host = record no_plugins {
  registry = record {
    plugins = ("tenant", tenant) ∷ ("audit", audit) ∷ ("auth", auth) ∷ ("mail", mail) ∷ [];
    plugin_statuses =
        ("tenant", unloaded) ∷ ("audit", unloaded) ∷ ("auth", unloaded) ∷ ("mail", unloaded) ∷ [];
  };
}

-- the only name with a status that may be unregistered
abbrev pub Ghost : String → Type 0
Ghost name = name ≡ "ghost"

pub no_plugins-IsConsistent : IsConsistent Ghost no_plugins
unfolding get has
no_plugins-IsConsistent = record {
  unique_plugins = tt;
  unique_statuses = tt;
  keyed = λ n p g. cc;
  named = refl;
  covered = λ n there. cc;
  tracked = λ n there. cc;
}

pub host-IsConsistent : IsConsistent Ghost host
unfolding put_plugin set
host-IsConsistent = put_plugin-IsConsistent mail _ (ground (arith, eq_iff "mail" "")) (
    put_plugin-IsConsistent auth _ (ground (arith, eq_iff "auth" "")) (
      put_plugin-IsConsistent audit _ (ground (arith, eq_iff "audit" "")) (
        put_plugin-IsConsistent tenant no_plugins (ground (arith, eq_iff "tenant" ""))
          no_plugins-IsConsistent)))
