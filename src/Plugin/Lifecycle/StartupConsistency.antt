-- ===== src/Plugin/Lifecycle/StartupConsistency.antt =====
-- `loadPlugins` and the registry's two maps.
use oksai_cc_api_server.Base.{
  String, true, Option, none, some, List, [], ◌∷◌, Map, get, has, has-get, values, find, filter,
  ◌==◌, string_eq, ◌≡◌, inl, inr, refl, sym, ◌∙◌, arith, Bool-cases, Option-cases, UniqueKeys, All,
  eq_iff,
}
use oksai_cc_api_server.Plugin.Types.{Config, disabled, Plugin, Host, Hooks, is_system}
use oksai_cc_api_server.Plugin.Registry.{update_status, get_all}
use oksai_cc_api_server.Plugin.Registry.Invariant.{
  IsConsistent, update_status-IsConsistent, IsConsistent-registry,
}
use oksai_cc_api_server.Plugin.Registry.Views.{find-name, find-get_all}
use oksai_cc_api_server.Plugin.Loader.{
  FeatureConfig, PluginConfig, load_or_fail, load_system_loop, load_feature, load_feature_plugins,
  load_plugins, load_registered, mark_disabled,
}
use oksai_cc_api_server.Plugin.Lifecycle.Loading.{plugins-load_or_fail}
use oksai_cc_api_server.Plugin.Lifecycle.Startup.{load_system_loop_cons, load_feature_plugins_cons}
use oksai_cc_api_server.Plugin.Lifecycle.Configured.{load_registered_lem}
use oksai_cc_api_server.Plugin.Lifecycle.Consistency.{Writing-IsConsistent, load_or_fail-Writing}

-- Consistent, with the plugins `m`.
abbrev Holds : (String → Type 0) → Map String Plugin → Host → Type 0
Holds Stray m h = IsConsistent Stray h × (h.plugins ≡ m)

abbrev Registered : Map String Plugin → List Plugin → Type 0
Registered m ps = All (λ p. has p.name m ≡ true) ps

values-Registered :
    (m k : Map String Plugin)
    → UniqueKeys k
    → ((n : String) (p : Plugin) → get n k ≡ some p → (p.name ≡ n) × (has n m ≡ true))
    → Registered m (values k)
unfolding get
values-Registered m [] u r = tt
values-Registered m ((n, p) ∷ k) u r =
    let (named, there) = r n p (ground (arith, eq_iff n n)) in
    (
      rw named there,
      values-Registered m k u.1 (λ j q e. r j q (ground (arith, eq_iff n j, e, u.0))),
    )

filter-Registered :
    (m : Map String Plugin) (ps : List Plugin)
    → Registered m ps
    → Registered m (filter (λ p. is_system p.type) ps)
filter-Registered m [] a = tt
filter-Registered m (p ∷ ps) a = elim (Bool-cases (is_system p.type)) [
  | inl y ↦ rw y (a.0, filter-Registered m ps a.1)
  | inr n ↦ rw n (filter-Registered m ps a.1)
]

module _ (hooks : Hooks) (Stray : String → Type 0) (m : Map String Plugin) where
  load_or_fail-Holds :
      (name : String) (p : Plugin) (config : Option Config) (h : Host)
      → p.name ≡ name
      → has name m ≡ true
      → Holds Stray m h
      → Holds Stray m (load_or_fail hooks name p config h).1
  load_or_fail-Holds name p config h n r (c, e) = (
    Writing-IsConsistent name h _ (load_or_fail-Writing hooks name p config h n) (rw e r) c,
    plugins-load_or_fail hooks name p config h ∙ e,
  )

  system_loop-Holds :
      (ps : List Plugin) (h : Host)
      → Registered m ps
      → Holds Stray m h
      → Holds Stray m (load_system_loop hooks ps h).1
  system_loop-Holds [] h r s = unfold load_system_loop in s
  system_loop-Holds (p ∷ ps) h r s =
      rw (load_system_loop_cons hooks p ps h)
        (system_loop-Holds ps _ r.1 (load_or_fail-Holds p.name p none h refl r.0 s))

  mark_disabled-Holds :
      (name : String) (p : Plugin) (h : Host)
      → has name m ≡ true
      → Holds Stray m h
      → Holds Stray m (mark_disabled name p h).1
  unfolding mark_disabled update_status
  mark_disabled-Holds name p h r (c, e) = (
    IsConsistent-registry (update_status name disabled h).1 _ refl
        (update_status-IsConsistent name disabled h (rw e r) c),
    e,
  )

  feature-Holds :
      (ps : List Plugin) (name : String) (cfg : FeatureConfig) (h : Host)
      → ((n : String) (p : Plugin) → find (λ q. q.name == n) ps ≡ some p → has n m ≡ true)
      → Holds Stray m h
      → Holds Stray m (load_feature hooks ps name cfg h).1
  unfolding load_feature
  feature-Holds ps name cfg h r s = elim (Option-cases (find (λ q. q.name == name) ps)) [
    | inl e ↦ rw e s
    | inr (p, e) ↦ elim (Bool-cases cfg.enabled) [
      | inl y ↦
          rw (e, y) (load_or_fail-Holds name p cfg.config h (find-name name ps p e) (r name p e) s)
      | inr n ↦ rw (e, n) (mark_disabled-Holds name p h (r name p e) s)
    ]
  ]

  features-Holds :
      (entries : Map String FeatureConfig) (ps : List Plugin) (h : Host)
      → ((n : String) (p : Plugin) → find (λ q. q.name == n) ps ≡ some p → has n m ≡ true)
      → Holds Stray m h
      → Holds Stray m (load_feature_plugins hooks entries ps h).1
  features-Holds [] ps h r s = unfold load_feature_plugins in s
  features-Holds ((name, cfg) ∷ entries) ps h r s =
      rw (load_feature_plugins_cons hooks name cfg entries ps h)
        (features-Holds entries ps _ r (feature-Holds ps name cfg h r s))

  load_registered-Holds :
      (config : PluginConfig) (ps : List Plugin) (h : Host)
      → ((n : String) (p : Plugin) → find (λ q. q.name == n) ps ≡ some p → has n m ≡ true)
      → Registered m ps
      → Holds Stray m h
      → Holds Stray m (load_registered hooks config ps h).1
  load_registered-Holds config [] h r a s = unfold load_registered in s
  load_registered-Holds config (p ∷ ps) h r a s = rw (load_registered_lem hooks config p ps h) (
      features-Holds config.feature_plugins (p ∷ ps) _ r (
        system_loop-Holds (filter (λ q. is_system q.type) (p ∷ ps)) h
          (filter-Registered m (p ∷ ps) a) s))

-- Start-up keeps the registry consistent and registers or removes no plugin.
pub load_plugins-IsConsistent :
    {Stray : String → Type 0}
    → (hooks : Hooks) (config : PluginConfig) (h : Host) → IsConsistent Stray h
    → IsConsistent Stray (load_plugins hooks config h).1
      × ((load_plugins hooks config h).1.plugins ≡ h.plugins)
unfolding load_plugins
load_plugins-IsConsistent {Stray} hooks config h c =
    load_registered-Holds hooks Stray h.plugins config (get_all h) h
      (λ n p e. rw (has-get, sym (find-get_all n h c) ∙ e) refl)
      (unfold get_all in
        values-Registered h.plugins h.plugins c.unique_plugins
          (λ n p e. (c.keyed n p e, rw (has-get, e) refl)))
      (c, refl)
