-- ===== src/Plugin/Registry/Laws.antt =====
-- The methods of the plugin registry.
use oksai_cc_api_server.Base.{
  String, true, false, none, some, List, [], ◌∷◌, get, has, if◌then◌else◌, ◌==◌, string_eq, ◌≡◌,
  refl, arith, get-set, get-delete, get-set_self, delete-set_new, reverse_onto,
}
use oksai_cc_api_server.Base.Exec.{ok, err}
use oksai_cc_api_server.Plugin.Types.{
  unloaded, Plugin, Call, destroy, PluginError, hook_failed, Host, Hooks,
}
use oksai_cc_api_server.Plugin.Registry.{
  put_plugin, drop_plugin, register, unregister, plain_call, destroy_all, clear, get_all, thrown,
}

-- A failed registration changes nothing.
pub register_failed :
    (p : Plugin) (h : Host) (x : PluginError) → (register p h).0 ≡ err x → (register p h).1 ≡ h
unfolding register
register_failed p h x e = ground arith

module _ (p : Plugin) (h : Host) (name : String) where
  -- After a successful registration the plugin is found under its name, and the others as before.
  pub get-register :
      (register p h).0 ≡ ok tt
      → get name (register p h).1.plugins ≡ (if p.name == name then some p else get name h.plugins)
  unfolding register put_plugin
  get-register e = ground (arith, get-set p.name name p h.plugins)

module _ (hooks : Hooks) (p : Plugin) (h : Host) where
  -- Registering a plugin and unregistering it again, both with success, leaves the registry as it
  -- was, where the name had no status before and `destroy` does not throw at once.
  pub unregister-register :
      (register p h).0 ≡ ok tt
      → get p.name h.plugin_statuses ≡ none
      → thrown (hooks h.calls (destroy p.ref)) ≡ false
      → ((unregister hooks p.name (register p h).1).0 ≡ ok tt)
        × ((unregister hooks p.name (register p h).1).1.registry ≡ h.registry)
  unfolding register unregister put_plugin drop_plugin plain_call has
  unregister-register e s t = ground (
    arith,
    get-set_self p.name p h.plugins,
    delete-set_new p.name p h.plugins,
    delete-set_new p.name unloaded h.plugin_statuses,
  )

module _ (hooks : Hooks) where
  -- A plugin whose `destroy` throws at once stays registered, with its status.
  pub unregister_throws :
      (name : String) (p : Plugin) (h : Host)
      → get name h.plugins ≡ some p
      → p.has_destroy ≡ true
      → thrown (hooks h.calls (destroy p.ref)) ≡ true
      → ((unregister hooks name h).0 ≡ err (hook_failed (destroy p.ref)))
        × ((unregister hooks name h).1.registry ≡ h.registry)
  unfolding unregister plain_call
  unregister_throws name p h g d t = ground arith

  -- After a successful `unregister` the plugin is gone, and every other one is as it was.
  pub get-unregister :
      (name other : String) (h : Host)
      → (unregister hooks name h).0 ≡ ok tt
      → (get other (unregister hooks name h).1.plugins
          ≡ (if name == other then none else get other h.plugins))
        × (get other (unregister hooks name h).1.plugin_statuses
            ≡ (if name == other then none else get other h.plugin_statuses))
  unfolding unregister plain_call drop_plugin
  get-unregister name other h e =
      ground (arith, get-delete name other h.plugins, get-delete name other h.plugin_statuses)

  unfoldable pub destroy_calls : List Plugin → List Call
  destroy_calls [] = []
  destroy_calls (p ∷ ps) =
      if p.has_destroy then destroy p.ref ∷ destroy_calls ps else destroy_calls ps

  pub destroy_all_lem :
      (ps : List Plugin) (h : Host)
      → destroy_all hooks ps h
        ≡ (ok tt, record h { calls = reverse_onto (destroy_calls ps) h.calls })
  unfolding destroy_all plain_call destroy_calls
  destroy_all_lem [] h = refl
  destroy_all_lem (p ∷ ps) h = ground (
    arith,
    destroy_all_lem ps h,
    destroy_all_lem ps (record h { calls = destroy p.ref ∷ h.calls }),
  )

  -- `clear` never throws: it calls `destroy` once on every plugin that has it, in the order of
  -- registration, whatever the calls do, and leaves an empty registry.
  pub clear_lem :
      (h : Host)
      → clear hooks h ≡ (
        ok tt,
        record h {
          registry = record { plugins = []; plugin_statuses = [] };
          calls = reverse_onto (destroy_calls (get_all h)) h.calls;
        },
      )
  unfolding clear
  clear_lem h = rw (destroy_all_lem (get_all h) h)
