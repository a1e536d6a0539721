-- ===== src/Plugin/Dependencies/Conflicts.antt =====
-- What `checkConflicts` reports.
use oksai_cc_api_server.Base.{
  suc, String, Bool, true, false, some, List, [], ◌∷◌, ◌++◌, map, Map, get, values, includes,
  is_some, string_eq, ◌≡◌, ◌↔◌, inl, inr, refl, sym, ◌∙◌, subst, arith, eq_iff, All, length,
  UniqueKeys, Bool-cases, All-map,
}
use oksai_cc_api_server.Plugin.Types.{Plugin, Host}
use oksai_cc_api_server.Plugin.Registry.{get_all}
use oksai_cc_api_server.Plugin.Registry.Invariant.{IsConsistent}
use oksai_cc_api_server.Plugin.Registry.Views.{find-get_all}
use oksai_cc_api_server.Plugin.Dependencies.{
  Sets, no_sets, lookup_plugin, has_circular, missing_deps, missing_entry, circular_entry, is_empty,
  Conflict, conflicts_of, conflicts_loop, check_conflicts,
}
use oksai_cc_api_server.Plugin.Dependencies.Graph.{Reaches, edge, further, LeadsToCycle}
use oksai_cc_api_server.Plugin.Dependencies.Termination.{check_circular-returns}
use oksai_cc_api_server.Plugin.Dependencies.Soundness.{Justified, check_circular-Justified}
use oksai_cc_api_server.Plugin.Dependencies.Completeness.{Finished, Tracks, check_circular-Finished}
use oksai_cc_api_server.Plugin.Dependencies.Acyclic.{Ordered-no_cycle}

module _ (plugins : List Plugin) where
  no_sets-Tracks : Tracks plugins no_sets []
  no_sets-Tracks = record { ordered = tt; split = λ x. refl; apart = λ x i. refl }

  verdict_iff :
      (name : String) (b : Bool) (s : Sets)
      → Justified plugins name no_sets (some (b, s))
      → Finished plugins (λ more. includes name more ≡ true) no_sets [] (some (b, s))
      → (b ≡ true) ↔ LeadsToCycle plugins name
  verdict_iff name true s j f = ((λ _. j), (λ _. refl))
  verdict_iff name false s j (more, t, here, g, same) =
      ((λ e. cc), (λ c. absurd (Ordered-no_cycle plugins more name t.ordered here c)))

  -- For a registered plugin the search ends, and says `true` exactly when a cycle of registered
  -- dependencies passes through the plugin or is reached from it.
  pub has_circular_iff :
      (p : Plugin)
      → lookup_plugin plugins p.name ≡ some p
      → (b : Bool) × (has_circular plugins p ≡ some b) × ((b ≡ true) ↔ LeadsToCycle plugins p.name)
  unfolding has_circular
  has_circular_iff p at =
      let fuel = suc (length plugins) in
      let (v, e) = check_circular-returns plugins p p at in
      (
        v.0,
        rw e,
        verdict_iff p.name v.0 v.1
            (subst (Justified plugins p.name no_sets) e
              (check_circular-Justified plugins fuel p.name p no_sets at (λ x i. cc)))
            (subst (Finished plugins (λ more. includes p.name more ≡ true) no_sets []) e
              (check_circular-Finished plugins fuel p.name p no_sets [] at no_sets-Tracks)),
      )

  lookup-includes :
      (d : String) (ps : List Plugin)
      → is_some (lookup_plugin ps d) ≡ includes d (map (λ q. q.name) ps)
  lookup-includes d [] = refl
  lookup-includes d (q ∷ ps) = ground (arith, lookup-includes d ps)

  missing_deps_iff :
      (ds : List String)
      → (missing_deps plugins ds ≡ []) ↔ All (λ d. includes d (map (λ q. q.name) plugins) ≡ true) ds
  unfolding missing_deps
  missing_deps_iff [] = ((λ _. tt), (λ _. refl))
  missing_deps_iff (d ∷ ds) =
      let (to, from) = missing_deps_iff ds in
      elim (Bool-cases (is_some (lookup_plugin plugins d))) [
        | inl here ↦
            rw here ((λ e. (sym (lookup-includes d plugins) ∙ here, to e)), (λ a. from a.1))
        | inr n ↦
            rw n ((λ e. cc), (λ a. absurd (ground (arith, lookup-includes d plugins, a.0, n))))
      ]

  -- Nothing is wrong with the dependencies of `p`.
  pub record IsSound (p : Plugin) : Type 0 where
    pub complete : All (λ d. includes d (map (λ q. q.name) plugins) ≡ true) p.dependencies
    pub acyclic : ¬ (LeadsToCycle plugins p.name)

  no_edge :
      (p : Plugin) (b : String)
      → lookup_plugin plugins p.name ≡ some p
      → p.dependencies ≡ []
      → ¬ (Reaches plugins p.name b)
  no_edge p b at none_listed (edge e) = ground (arith, e.found, e.listed)
  no_edge p b at none_listed (further r e) = no_edge p _ at none_listed r

  IsSound-is_empty :
      (p : Plugin) → lookup_plugin plugins p.name ≡ some p → p.dependencies ≡ [] → IsSound p
  IsSound-is_empty p at e = record {
    complete = rw e tt;
    acyclic = λ c. elim c.leads [
      | inl here ↦ no_edge p p.name at e (subst (λ z. Reaches plugins z z) (sym here) c.around)
      | inr r ↦ no_edge p c.at at e r
    ];
  }

  empty_iff :
      (p : Plugin) (b : Bool) (missing : List String)
      → missing_deps plugins p.dependencies ≡ missing
      → (b ≡ true) ↔ LeadsToCycle plugins p.name
      → (missing_entry p.name missing ++ circular_entry p.name b ≡ []) ↔ IsSound p
  empty_iff p false [] e i = (
    (λ _. record { complete = (missing_deps_iff p.dependencies).0 e; acyclic = λ c. cc (i.1 c) }),
    (λ _. refl),
  )
  empty_iff p true [] e i = ((λ h. cc), (λ s. absurd (s.acyclic (i.0 refl))))
  empty_iff p b (d ∷ ds) e i =
      ((λ h. cc), (λ s. absurd (ground (arith, e, (missing_deps_iff p.dependencies).1 s.complete))))

  conflicts_of_lem :
      (p : Plugin)
      → lookup_plugin plugins p.name ≡ some p
      → (cs : List Conflict) × (conflicts_of plugins p ≡ some cs) × ((cs ≡ []) ↔ IsSound p)
  unfolding conflicts_of
  conflicts_of_lem p at = elim (Bool-cases (is_empty p.dependencies)) [
    | inl y ↦
        ([], rw y refl, ((λ _. IsSound-is_empty p at (empty-nil p.dependencies y)), (λ _. refl)))
    | inr n ↦
        let (b, e, i) = has_circular_iff p at in
        let missing = missing_deps plugins p.dependencies in
        (
          missing_entry p.name missing ++ circular_entry p.name b,
          rw (n, e) refl,
          empty_iff p b missing refl i,
        )
  ]
    where
      empty-nil : (ds : List String) → is_empty ds ≡ true → ds ≡ []
      empty-nil [] y = refl
      empty-nil (d ∷ ds) y = cc

  append-nil_iff :
      {A B : Type 0} (xs ys : List Conflict)
      → (xs ≡ []) ↔ A
      → (ys ≡ []) ↔ B
      → (xs ++ ys ≡ []) ↔ (A × B)
  append-nil_iff [] ys i j = ((λ e. (i.0 refl, j.0 e)), (λ p. j.1 p.1))
  append-nil_iff (x ∷ xs) ys i j = ((λ e. cc), (λ p. absurd (ground (arith, i.1 p.0))))

  conflicts_loop_lem :
      (ps : List Plugin)
      → All (λ p. lookup_plugin plugins p.name ≡ some p) ps
      → (cs : List Conflict) × (conflicts_loop plugins ps ≡ some cs) × ((cs ≡ []) ↔ All IsSound ps)
  unfolding conflicts_loop
  conflicts_loop_lem [] a = ([], refl, ((λ _. tt), (λ _. refl)))
  conflicts_loop_lem (p ∷ ps) (at, a) =
      let (xs, ex, ix) = conflicts_of_lem p at in
      let (ys, ey, iy) = conflicts_loop_lem ps a in
      (xs ++ ys, rw (ex, ey) refl, append-nil_iff xs ys ix iy)

values-found :
    (m k : Map String Plugin)
    → UniqueKeys k
    → ((n : String) (p : Plugin) → get n k ≡ some p → (p.name ≡ n) × (get n m ≡ some p))
    → All (λ p. get p.name m ≡ some p) (values k)
unfolding get
values-found m [] u r = tt
values-found m ((n, p) ∷ k) u r =
    let (named, there) = r n p (ground (arith, eq_iff n n)) in
    (
      subst (λ z. get z m ≡ some p) (sym named) there,
      values-found m k u.1 (λ j q e. r j q (ground (arith, eq_iff n j, e, u.0))),
    )

-- `checkConflicts` always comes back, and reports nothing exactly when every dependency of a registered
-- plugin is the name of a registered plugin, and no registered plugin leads to a cycle.
pub check_conflicts_iff :
    {Stray : String → Type 0}
    → (h : Host) → IsConsistent Stray h
    → (cs : List Conflict) × (check_conflicts h ≡ some cs)
      × ((cs ≡ []) ↔ All (IsSound (get_all h)) (get_all h))
unfolding check_conflicts
check_conflicts_iff h c = conflicts_loop_lem (get_all h) (get_all h) (
    All-map (λ p. get p.name h.plugins ≡ some p) (get_all h) (λ p e. find-get_all p.name h c ∙ e)
      (unfold get_all in
        values-found h.plugins h.plugins c.unique_plugins (λ n p e. (c.keyed n p e, e))))
