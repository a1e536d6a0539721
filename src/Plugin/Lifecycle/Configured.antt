-- ===== src/Plugin/Lifecycle/Configured.antt =====
-- What `loadPlugins` leaves behind for every registered plugin.
use oksai_cc_api_server.Base.{
  String, true, none, some, List, [], ◌∷◌, get, ◌==◌, string_eq, ◌≡◌, refl, filter, find,
  UniqueKeys, All, All-map, All-filter, sym, subst, ◌∙◌,
}
use oksai_cc_api_server.Base.Exec.{ok}
use oksai_cc_api_server.Plugin.Types.{Plugin, Host, Hooks, is_system, system}
use oksai_cc_api_server.Plugin.Registry.{get_all}
use oksai_cc_api_server.Plugin.Registry.Invariant.{IsConsistent}
use oksai_cc_api_server.Plugin.Registry.Views.{find-get_all, All-get_all}
use oksai_cc_api_server.Plugin.Loader.{
  FeatureConfig, PluginConfig, load_system_loop, load_system_plugins, load_feature_plugins,
  load_plugins, load_registered,
}
use oksai_cc_api_server.Plugin.Lifecycle.Loading.{Settled, SettledAs}
use oksai_cc_api_server.Plugin.Lifecycle.Startup.{
  Obeys, load_system_loop_lem, load_feature_plugins_lem, load_feature_plugins-Obeys,
}

module _ (hooks : Hooks) (config : PluginConfig) where
  -- the host after the loop over the system plugins
  abbrev pub after_system : List Plugin → Host → Host
  after_system ps h = (load_system_loop hooks (filter (λ p. is_system p.type) ps) h).1

  pub load_registered_lem :
      (p : Plugin) (ps : List Plugin) (h : Host)
      → load_registered hooks config (p ∷ ps) h
        ≡ load_feature_plugins hooks config.feature_plugins (p ∷ ps) (after_system (p ∷ ps) h)
  unfolding load_registered load_system_plugins
  load_registered_lem p ps h =
      rw (load_system_loop_lem hooks (filter (λ q. is_system q.type) (p ∷ ps)) h).0

  registered-ok : (ps : List Plugin) (h : Host) → (load_registered hooks config ps h).0 ≡ ok tt
  registered-ok [] h = unfold load_registered in refl
  registered-ok (p ∷ ps) h =
      rw (load_registered_lem p ps h)
        (load_feature_plugins_lem hooks config.feature_plugins (p ∷ ps) (after_system (p ∷ ps) h)).0

  -- Start-up never throws, whatever the plugins' methods do.
  pub load_plugins-ok : (h : Host) → (load_plugins hooks config h).0 ≡ ok tt
  unfolding load_plugins
  load_plugins-ok h = registered-ok (get_all h) h

  registered-Obeys :
      (ps : List Plugin) (h : Host) (name : String) (cfg : FeatureConfig) (p : Plugin)
      → UniqueKeys config.feature_plugins
      → get name config.feature_plugins ≡ some cfg
      → find (λ q. q.name == name) ps ≡ some p
      → Obeys (load_registered hooks config ps h).1 name cfg
  registered-Obeys [] h name cfg p u g f = cc
  registered-Obeys (q ∷ ps) h name cfg p u g f =
      subst (λ r. Obeys r.1 name cfg) (sym (load_registered_lem q ps h))
        (load_feature_plugins-Obeys hooks config.feature_plugins (q ∷ ps) (after_system (q ∷ ps) h)
          name cfg p u g f)

  -- After start-up a registered plugin with an entry in the configuration is INITIALIZED or FAILED
  -- where the entry enables it, and DISABLED where it does not, also if it is a system plugin.
  pub load_plugins-Obeys :
      {Stray : String → Type 0}
      → (h : Host) (name : String) (cfg : FeatureConfig) (p : Plugin) → IsConsistent Stray h
      → UniqueKeys config.feature_plugins
      → get name config.feature_plugins ≡ some cfg
      → get name h.plugins ≡ some p
      → Obeys (load_plugins hooks config h).1 name cfg
  unfolding load_plugins
  load_plugins-Obeys h name cfg p c u g r =
      registered-Obeys (get_all h) h name cfg p u g (find-get_all name h c ∙ r)

  registered-Settled :
      (ps : List Plugin) (h : Host)
      → All
          (λ p.
            is_system p.type ≡ true
            → get p.name config.feature_plugins ≡ none
            → Settled (load_registered hooks config ps h).1 p.name)
          ps
  registered-Settled [] h = tt
  registered-Settled (q ∷ ps) h =
      let looped = load_system_loop_lem hooks (filter (λ p. is_system p.type) (q ∷ ps)) h in
      let frame =
        (load_feature_plugins_lem hooks config.feature_plugins (q ∷ ps)
          (after_system (q ∷ ps) h)).1 in
      All-map _ (q ∷ ps)
        (λ p settled sys g.
          subst (λ r. Settled r.1 p.name) (sym (load_registered_lem q ps h))
            (subst SettledAs (sym (frame p.name g)) (settled sys)))
        (All-filter _ (λ p. is_system p.type) (q ∷ ps) looped.3)

  -- After start-up every registered system plugin that the configuration does not name is
  -- INITIALIZED or FAILED.
  pub load_plugins-Settled :
      {Stray : String → Type 0}
      → (h : Host) (name : String) (p : Plugin) → IsConsistent Stray h
      → get name h.plugins ≡ some p
      → p.type ≡ system
      → get name config.feature_plugins ≡ none
      → Settled (load_plugins hooks config h).1 name
  unfolding load_plugins
  load_plugins-Settled h name p c r t g =
      let named : p.name ≡ name = c.keyed name p r in
      subst (Settled (load_plugins hooks config h).1) named
        (All-get_all _ name h p (registered-Settled (get_all h) h) r (rw t refl) (rw named g))
