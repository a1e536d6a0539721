-- ===== src/Plugin/Types.antt =====
-- The data of the plugin system: libs/plugin/src/enums/plugin-type.enum.ts and the interfaces of
-- libs/plugin/src/interfaces. Of a plugin's metadata only the fields that the services read are
-- kept; its methods are code of the plugin, and stand here as the calls that reach them.
use oksai_cc_api_server.Base.{if◌then◌else◌, ℕ, String, Bool, true, false, Option, List, Map}

pub data PluginType : Type 0 where
  system feature : PluginType

pub data PluginStatus : Type 0 where
  unloaded loaded initialized failed disabled installing uninstalling updating deleted :
      PluginStatus
  dependency_error : PluginStatus

abbrev pub is_system : PluginType → Bool
is_system system = true
is_system feature = false

-- `status === PluginStatus.INITIALIZED`
abbrev pub is_initialized : PluginStatus → Bool
is_initialized initialized = true
is_initialized _ = false

-- A configuration object: a fresh `{}`, or an object that was handed in, by its identity.
pub data Config : Type 0 where
  empty_object : Config
  object : ℕ → Config

-- `ref` is the identity of the plugin object. A `has_…` field says whether the object has the
-- optional method; `has_create_module` is the test `'createModule' in plugin`.
pub record Plugin : Type 0 where
  pub ref : ℕ
  pub name : String
  pub type : PluginType
  pub is_protected : Bool
  pub dependencies : List String
  pub config : Option Config
  pub has_create_module : Bool
  pub has_initialize : Bool
  pub has_destroy : Bool
  pub has_on_application_bootstrap : Bool
  pub has_on_application_shutdown : Bool

pub data PluginKind : Type 0 where
  module_plugin object_plugin : PluginKind

abbrev pub is_module_plugin : Plugin → Bool
is_module_plugin p = p.has_create_module

abbrev pub is_object_plugin : Plugin → Bool
is_object_plugin p = if is_module_plugin p then false else true

pub record PluginState : Type 0 where
  pub name : String
  pub status : PluginStatus
  pub plugin_type : PluginKind
  pub enabled : Bool

-- A call of a plugin's method, by the identity of the object. The Boolean of the two hooks says
-- whether the module reference is passed.
pub data Call : Type 0 where
  initialize : ℕ → Config → Call
  destroy : ℕ → Call
  on_application_bootstrap on_application_shutdown : ℕ → Bool → Call

-- A method may throw at once, or return a promise that is rejected.
pub data Outcome : Type 0 where
  returns throws rejects : Outcome

pub data PluginError : Type 0 where
  empty_name : PluginError
  already_registered not_registered cannot_disable always_enabled : String → PluginError
  has_dependents : String → List String → PluginError
  hook_failed : Call → PluginError

-- `PluginRegistryService`
pub record Registry : Type 0 where
  pub plugins : Map String Plugin
  pub plugin_statuses : Map String PluginStatus

-- Both services with what they share: the registry's maps, the loader's `pluginStates` and whether
-- its `moduleRef` is set, the property `isEnabled` of each plugin object that has it, and the
-- plugins' methods called so far, the last one first.
pub record Host : Type 0 where
  pub registry : Registry
  pub open registry use *
  pub plugin_states : Map String PluginState
  pub module_ref : Bool
  pub is_enabled : Map ℕ Bool
  pub calls : List Call

-- What the plugins' methods do: the outcome of a call, given the calls before it.
abbrev pub Hooks : Type 0
Hooks = List Call → Call → Outcome
