-- ===== src/Plugin/Lifecycle/Startup.antt =====
-- `loadPlugins`: the loops over the system plugins and over the configured feature plugins.
use oksai_cc_api_server.Base.{
  String, Option, none, some, List, [], ◌∷◌, get, if◌then◌else◌, ◌==◌, string_eq, ◌≡◌, ◌≢◌, ◌⊎◌,
  inl, inr, refl, arith, get-set, get-set_self, eq_iff, find, UniqueKeys, Option-cases, Bool-cases,
  Map, All, ◌∙◌, sym, subst,
}
use oksai_cc_api_server.Base.Exec.{Result, ok}
use oksai_cc_api_server.Plugin.Types.{
  PluginStatus, initialized, failed, disabled, Plugin, PluginError, Host, Hooks,
}
use oksai_cc_api_server.Plugin.Registry.{update_status}
use oksai_cc_api_server.Plugin.Registry.Views.{find-name}
use oksai_cc_api_server.Plugin.Loader.{
  FeatureConfig, load_or_fail, load_system_loop, load_feature, load_feature_plugins,
}
use oksai_cc_api_server.Plugin.Lifecycle.Loading.{
  status_of, Settled, load_or_fail-ok, load_or_fail-Settled, load_or_fail-frame,
  plugins-load_or_fail, load_or_fail-keeps,
}

-- What an entry of the configuration leaves behind for its plugin.
abbrev pub ObeysAs : Option PluginStatus → FeatureConfig → Type 0
ObeysAs s cfg =
    if cfg.enabled then ((s ≡ some initialized) ⊎ (s ≡ some failed)) else (s ≡ some disabled)

abbrev pub Obeys : Host → String → FeatureConfig → Type 0
Obeys h name cfg = ObeysAs (status_of h name) cfg

-- The outcome of the loop over `ps` from `h`.
abbrev pub SystemLoaded : List Plugin → Host → Result PluginError Unit × Host → Type 0
SystemLoaded ps h (r, h') =
    (r ≡ ok tt)
    × (h'.plugins ≡ h.plugins)
    × ((n : String) → Settled h n → Settled h' n)
    × All (λ p. Settled h' p.name) ps

module _ (hooks : Hooks) where
  pub load_system_loop_cons :
      (p : Plugin) (ps : List Plugin) (h : Host)
      → load_system_loop hooks (p ∷ ps) h
        ≡ load_system_loop hooks ps (load_or_fail hooks p.name p none h).1
  unfolding load_system_loop
  load_system_loop_cons p ps h = rw (load_or_fail-ok hooks p.name p none h)

  pub load_system_loop_lem :
      (ps : List Plugin) (h : Host) → SystemLoaded ps h (load_system_loop hooks ps h)
  load_system_loop_lem [] h = unfold load_system_loop in (refl, refl, (λ n s. s), tt)
  load_system_loop_lem (p ∷ ps) h =
      let h' = (load_or_fail hooks p.name p none h).1 in
      let (done, same, keep, all) = load_system_loop_lem ps h' in
      subst (SystemLoaded (p ∷ ps) h) (sym (load_system_loop_cons p ps h)) (
        done,
        same ∙ plugins-load_or_fail hooks p.name p none h,
        (λ n s. keep n (load_or_fail-keeps hooks p.name p none h n refl s)),
        (keep p.name (load_or_fail-Settled hooks p.name p none h refl), all),
      )

  load_feature-ok :
      (ps : List Plugin) (name : String) (cfg : FeatureConfig) (h : Host)
      → (load_feature hooks ps name cfg h).0 ≡ ok tt
  unfolding load_feature update_status
  load_feature-ok ps name cfg h = elim (Option-cases (find (λ q. q.name == name) ps)) [
    | inl e ↦ rw e refl
    | inr (p, e) ↦ rw e (ground (arith, load_or_fail-ok hooks name p cfg.config h))
  ]

  -- The entry of a registered plugin is obeyed, and touches no other status.
  load_feature-Obeys :
      (ps : List Plugin) (name : String) (cfg : FeatureConfig) (p : Plugin) (h : Host)
      → find (λ q. q.name == name) ps ≡ some p
      → Obeys (load_feature hooks ps name cfg h).1 name cfg
  unfolding load_feature update_status
  load_feature-Obeys ps name cfg p h e = rw e (
      ground (
        arith,
        load_or_fail-Settled hooks name p cfg.config h (find-name name ps p e),
        get-set_self name disabled h.plugin_statuses,
      ))

  load_feature-frame :
      (ps : List Plugin) (name : String) (cfg : FeatureConfig) (h : Host) (n : String)
      → name ≢ n
      → status_of (load_feature hooks ps name cfg h).1 n ≡ status_of h n
  unfolding load_feature update_status
  load_feature-frame ps name cfg h n d = elim (Option-cases (find (λ q. q.name == name) ps)) [
    | inl e ↦ rw e refl
    | inr (p, e) ↦ rw e (
        ground (
          arith,
          load_or_fail-frame hooks name p cfg.config h n (find-name name ps p e) d,
          get-set name n disabled h.plugin_statuses,
          eq_iff name n,
        ))
  ]

  pub load_feature_plugins_cons :
      (name : String) (cfg : FeatureConfig) (entries : List (String × FeatureConfig))
      (ps : List Plugin) (h : Host)
      → load_feature_plugins hooks ((name, cfg) ∷ entries) ps h
        ≡ load_feature_plugins hooks entries ps (load_feature hooks ps name cfg h).1
  unfolding load_feature_plugins
  load_feature_plugins_cons name cfg entries ps h = rw (load_feature-ok ps name cfg h)

  pub load_feature_plugins_lem :
      (entries : Map String FeatureConfig) (ps : List Plugin) (h : Host)
      → ((load_feature_plugins hooks entries ps h).0 ≡ ok tt)
        × ((n : String)
            → get n entries ≡ none
            → status_of (load_feature_plugins hooks entries ps h).1 n ≡ status_of h n)
  unfolding get
  load_feature_plugins_lem [] ps h = unfold load_feature_plugins in (refl, λ n e. refl)
  load_feature_plugins_lem ((name, cfg) ∷ entries) ps h =
      let (done, frame) =
        load_feature_plugins_lem entries ps (load_feature hooks ps name cfg h).1 in
      rw (load_feature_plugins_cons name cfg entries ps h) (
        done,
        λ n e.
            frame n (ground (arith, eq_iff name n))
            ∙ load_feature-frame ps name cfg h n (ground (arith, eq_iff name n)),
      )

  pub load_feature_plugins-Obeys :
      (entries : Map String FeatureConfig) (ps : List Plugin) (h : Host) (n : String)
      (cfg : FeatureConfig) (p : Plugin)
      → UniqueKeys entries
      → get n entries ≡ some cfg
      → find (λ q. q.name == n) ps ≡ some p
      → Obeys (load_feature_plugins hooks entries ps h).1 n cfg
  unfolding get
  load_feature_plugins-Obeys [] ps h n cfg p u g f = cc
  load_feature_plugins-Obeys ((name, c) ∷ entries) ps h n cfg p u g f =
      let h' = (load_feature hooks ps name c h).1 in
      let rest = load_feature_plugins-Obeys entries ps h' n cfg p u.1 in
      subst (λ r. Obeys r.1 n cfg) (sym (load_feature_plugins_cons name c entries ps h))
        (elim (Bool-cases (name == n)) [
          | inl same ↦
              let here : name ≡ n = (eq_iff name n).0 same in
              let it : c ≡ cfg = ground arith in
              subst (λ s. ObeysAs s cfg)
                (sym ((load_feature_plugins_lem entries ps h').1 n (rw (← here) u.0)))
                (rw (← here, ← it) (load_feature-Obeys ps name c p h (rw here f)))
          | inr other ↦ rest (ground arith) f
        ])
