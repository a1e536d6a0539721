-- ===== src/Plugin/Lifecycle/Consistency.antt =====
-- What `loadPlugin` and its callers write to the registry's maps.
use oksai_cc_api_server.Base.{
  String, Bool, true, false, Option, has, string_eq, ◌≡◌, ◌⊎◌, inl, inr, refl, sym, arith, subst,
  set,
}
use oksai_cc_api_server.Plugin.Types.{
  PluginStatus, loaded, initialized, failed, Config, Plugin, Host, Hooks, Registry,
}
use oksai_cc_api_server.Plugin.Registry.{update_status}
use oksai_cc_api_server.Plugin.Registry.Invariant.{
  IsConsistent, IsConsistent-registry, update_status-IsConsistent,
}
use oksai_cc_api_server.Plugin.Loader.{load_plugin, load_or_fail}
use oksai_cc_api_server.Plugin.Lifecycle.Loading.{
  registry-load_kind, registry-bootstrap, before_bootstrap,
}

-- The registry after a write of one status.
abbrev pub wrote : String → PluginStatus → Registry → Registry
wrote name s r = record r { plugin_statuses = set name s r.plugin_statuses }

-- `r'` is `r` after some writes of statuses of `name`.
pub data Writes (name : String) (r : Registry) : Registry → Type 0 where
  same : Writes name r r
  write : {r' : Registry} (s : PluginStatus) → Writes name r r' → Writes name r (wrote name s r')

Writes-plugins : {name : String} {r r' : Registry} → Writes name r r' → r'.plugins ≡ r.plugins
Writes-plugins same = refl
Writes-plugins (write s w) = Writes-plugins w

-- The registry's part of the invariant, for a registered name.
Writes-IsConsistent :
    {Stray : String → Type 0}
    → {name : String} (h : Host) {r' : Registry} → Writes name h.registry r'
    → has name h.plugins ≡ true
    → IsConsistent Stray h
    → IsConsistent Stray (record h { registry = r' })
unfolding update_status
Writes-IsConsistent h same r c = c
Writes-IsConsistent {name = name} h (write {r'} s w) r c =
    update_status-IsConsistent name s (record h { registry = r' }) (rw (Writes-plugins w) r)
      (Writes-IsConsistent h w r c)

-- The method may write statuses of `name`, and nothing else of the registry.
abbrev pub Writing : String → Host → Host → Type 0
Writing name h h' = Writes name h.registry h'.registry

pub Writing-IsConsistent :
    {Stray : String → Type 0}
    → (name : String) (h h' : Host) → Writing name h h'
    → has name h.plugins ≡ true
    → IsConsistent Stray h
    → IsConsistent Stray h'
Writing-IsConsistent name h h' w r c =
    IsConsistent-registry (record h { registry = h'.registry }) h' refl
      (Writes-IsConsistent h w r c)

module _ (hooks : Hooks) where
  load-cases :
      (p : Plugin) (config : Option Config) (force : Bool) (h : Host)
      → ((load_plugin hooks p config force h).1.registry ≡ h.registry)
        ⊎ ((load_plugin hooks p config force h).1.registry ≡ wrote p.name loaded h.registry)
        ⊎ ((load_plugin hooks p config force h).1.registry
            ≡ wrote p.name initialized (wrote p.name loaded h.registry))
  unfolding load_plugin update_status
  load-cases p config force h = ground (
    arith,
    registry-load_kind hooks p config (update_status p.name loaded h).1,
    registry-bootstrap hooks p (before_bootstrap hooks p config h),
  )

  pub load-Writing :
      (p : Plugin) (config : Option Config) (force : Bool) (h : Host)
      → Writing p.name h (load_plugin hooks p config force h).1
  load-Writing p config force h = elim (load-cases p config force h) [
    | inl e ↦ subst (Writes p.name h.registry) (sym e) same
    | inr d ↦ elim d [
      | inl e ↦ subst (Writes p.name h.registry) (sym e) (write loaded same)
      | inr e ↦ subst (Writes p.name h.registry) (sym e) (write initialized (write loaded same))
    ]
  ]

  load_or_fail-cases :
      (name : String) (p : Plugin) (config : Option Config) (h : Host)
      → ((load_or_fail hooks name p config h).1 ≡ (load_plugin hooks p config false h).1)
        ⊎ ((load_or_fail hooks name p config h).1.registry
            ≡ wrote name failed (load_plugin hooks p config false h).1.registry)
  unfolding load_or_fail update_status
  load_or_fail-cases name p config h = ground arith

  pub load_or_fail-Writing :
      (name : String) (p : Plugin) (config : Option Config) (h : Host)
      → p.name ≡ name
      → Writing name h (load_or_fail hooks name p config h).1
  load_or_fail-Writing name p config h n =
      let w =
        subst (λ k. Writing k h (load_plugin hooks p config false h).1) n
          (load-Writing p config false h) in
      elim (load_or_fail-cases name p config h) [
        | inl e ↦ rw e w
        | inr e ↦ subst (Writes name h.registry) (sym e) (write failed w)
      ]
