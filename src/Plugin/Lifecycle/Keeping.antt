-- ===== src/Plugin/Lifecycle/Keeping.antt =====
-- The loader's methods and the registry's two maps.
use oksai_cc_api_server.Base.{
  String, Bool, true, Option, none, some, List, [], ◌∷◌, get, has, string_eq, ◌≡◌, ◌⊎◌, inl, inr,
  refl, sym, ◌∙◌, arith, Option-cases, subst, subst₂, has-get,
}
use oksai_cc_api_server.Base.Exec.{ok}
use oksai_cc_api_server.Plugin.Types.{
  PluginStatus, initialized, failed, disabled, Config, Plugin, Host, Hooks,
}
use oksai_cc_api_server.Plugin.Registry.{update_status, unregister, get_all, await_call, plain_call}
use oksai_cc_api_server.Plugin.Registry.Invariant.{
  IsConsistent, IsConsistent-registry, unregister-IsConsistent,
}
use oksai_cc_api_server.Plugin.Loader.{
  load_plugin, unload_plugin, reload_plugin, disable_plugin, enable_plugin, on_module_destroy,
  enable_kind, unload_kind, destroy_loop, destroy_one,
}
use oksai_cc_api_server.Plugin.Lifecycle.Unloading.{registry-unload_kind}
use oksai_cc_api_server.Plugin.Lifecycle.Consistency.{
  wrote, Writes, same, write, Writing-IsConsistent, load-Writing,
}

one_write :
    {Stray : String → Type 0}
    → (name : String) (s : PluginStatus) (h h' : Host) → has name h.plugins ≡ true
    → h'.registry ≡ wrote name s h.registry
    → IsConsistent Stray h
    → IsConsistent Stray h'
one_write name s h h' r e c =
    Writing-IsConsistent name h h' (subst (Writes name h.registry) (sym e) (write s same)) r c

module _ (hooks : Hooks) where
  disable-cases :
      (name : String) (h : Host)
      → ((disable_plugin hooks name h).1.registry ≡ h.registry)
        ⊎ ((has name h.plugins ≡ true)
            × ((disable_plugin hooks name h).1.registry ≡ wrote name disabled h.registry))
  unfolding disable_plugin await_call has
  disable-cases name h = ground arith

  -- Disabling a plugin keeps the registry consistent, on every branch.
  pub disable-IsConsistent :
      {Stray : String → Type 0}
      → (name : String) (h : Host) → IsConsistent Stray h
      → IsConsistent Stray (disable_plugin hooks name h).1
  disable-IsConsistent name h c = elim (disable-cases name h) [
    | inl e ↦ IsConsistent-registry h _ e c
    | inr (r, e) ↦ one_write name disabled h _ r e c
  ]

  registry-enable_kind :
      (p : Plugin) (config : Option Config) (h : Host)
      → (enable_kind hooks p config h).1.registry ≡ h.registry
  unfolding enable_kind await_call
  registry-enable_kind p config h = ground arith

  enable-cases :
      (name : String) (config : Option Config) (h : Host)
      → ((enable_plugin hooks name config h).1.registry ≡ h.registry)
        ⊎ ((has name h.plugins ≡ true)
            × ((enable_plugin hooks name config h).1.registry ≡ wrote name initialized h.registry))
  unfolding enable_plugin await_call has
  enable-cases name config h = ground arith

  -- Enabling a plugin keeps the registry consistent, on every branch.
  pub enable-IsConsistent :
      {Stray : String → Type 0}
      → (name : String) (config : Option Config) (h : Host) → IsConsistent Stray h
      → IsConsistent Stray (enable_plugin hooks name config h).1
  enable-IsConsistent name config h c = elim (enable-cases name config h) [
    | inl e ↦ IsConsistent-registry h _ e c
    | inr (r, e) ↦ one_write name initialized h _ r e c
  ]

  unload-missing :
      (name : String) (force : Bool) (h : Host)
      → get name h.plugins ≡ none
      → (unload_plugin hooks name force h).1 ≡ h
  unfolding unload_plugin
  unload-missing name force h r = ground arith

  unload-found :
      (name : String) (force : Bool) (p : Plugin) (h : Host)
      → get name h.plugins ≡ some p
      → ((unload_plugin hooks name force h).1.registry ≡ h.registry)
        ⊎ ((unload_plugin hooks name force h).1.registry
            ≡ (unregister hooks name (unload_kind hooks p h).1).1.registry)
  unfolding unload_plugin
  unload-found name force p h r = ground (arith, registry-unload_kind hooks p h)

  -- Unloading a plugin keeps the registry consistent, on every branch.
  pub unload-IsConsistent :
      {Stray : String → Type 0}
      → (name : String) (force : Bool) (h : Host) → IsConsistent Stray h
      → IsConsistent Stray (unload_plugin hooks name force h).1
  unload-IsConsistent name force h c = elim (Option-cases (get name h.plugins)) [
    | inl missing ↦ rw (unload-missing name force h missing) c
    | inr (p, there) ↦ elim (unload-found name force p h there) [
      | inl e ↦ IsConsistent-registry h _ e c
      | inr e ↦
          let k = (unload_kind hooks p h).1 in
          let ck = IsConsistent-registry h k (registry-unload_kind hooks p h) c in
          IsConsistent-registry (unregister hooks name k).1 _ e
            (unregister-IsConsistent hooks name k ck)
    ]
  ]

  reload-missing :
      (name : String) (h : Host) → get name h.plugins ≡ none → (reload_plugin hooks name h).1 ≡ h
  unfolding reload_plugin
  reload-missing name h r = ground arith

  reload-found :
      (name : String) (p : Plugin) (h : Host)
      → get name h.plugins ≡ some p
      → ((reload_plugin hooks name h).1.registry ≡ wrote name failed h.registry)
        ⊎ ((reload_plugin hooks name h).1.registry
            ≡ (load_plugin hooks p p.config true (unload_kind hooks p h).1).1.registry)
        ⊎ ((reload_plugin hooks name h).1.registry
            ≡ wrote name failed
                (load_plugin hooks p p.config true (unload_kind hooks p h).1).1.registry)
  unfolding reload_plugin update_status
  reload-found name p h r = ground (arith, registry-unload_kind hooks p h)

  -- Reloading a plugin keeps the registry consistent, on every branch.
  pub reload-IsConsistent :
      {Stray : String → Type 0}
      → (name : String) (h : Host) → IsConsistent Stray h
      → IsConsistent Stray (reload_plugin hooks name h).1
  reload-IsConsistent name h c = elim (Option-cases (get name h.plugins)) [
    | inl missing ↦ rw (reload-missing name h missing) c
    | inr (p, there) ↦
        let k = (unload_kind hooks p h).1 in
        let named = c.keyed name p there in
        let kept = registry-unload_kind hooks p h in
        let w : Writes name h.registry (load_plugin hooks p p.config true k).1.registry =
          subst₂ (λ n r. Writes n r (load_plugin hooks p p.config true k).1.registry) named kept
            (load-Writing hooks p p.config true k) in
        let r : has name h.plugins ≡ true = rw (has-get, there) refl in
        elim (reload-found name p h there) [
          | inl e ↦ one_write name failed h _ r e c
          | inr d ↦ elim d [
            | inl e ↦ Writing-IsConsistent name h _ (subst (Writes name h.registry) (sym e) w) r c
            | inr e ↦
                Writing-IsConsistent name h _
                  (subst (Writes name h.registry) (sym e) (write failed w)) r c
          ]
        ]
  ]

  registry-destroy_one : (p : Plugin) (h : Host) → (destroy_one hooks p h).1.registry ≡ h.registry
  unfolding destroy_one plain_call
  registry-destroy_one p h = ground arith

  destroy_one-ok : (p : Plugin) (h : Host) → (destroy_one hooks p h).0 ≡ ok tt
  unfolding destroy_one plain_call
  destroy_one-ok p h = ground arith

  destroy_loop_lem :
      (ps : List Plugin) (h : Host)
      → ((destroy_loop hooks ps h).0 ≡ ok tt) × ((destroy_loop hooks ps h).1.registry ≡ h.registry)
  unfolding destroy_loop
  destroy_loop_lem [] h = (refl, refl)
  destroy_loop_lem (p ∷ ps) h =
      let (done, kept) = destroy_loop_lem ps (destroy_one hooks p h).1 in
      rw (destroy_one-ok p h) (done, kept ∙ registry-destroy_one p h)

  -- The end of the module never throws, forgets the loader's states, and leaves the registry as it
  -- was: the plugins stay registered with their last status.
  pub on_module_destroy_lem :
      (h : Host)
      → ((on_module_destroy hooks h).0 ≡ ok tt)
        × ((on_module_destroy hooks h).1.registry ≡ h.registry)
        × ((on_module_destroy hooks h).1.plugin_states ≡ [])
  unfolding on_module_destroy
  on_module_destroy_lem h = ground (arith, destroy_loop_lem (get_all h) h)
