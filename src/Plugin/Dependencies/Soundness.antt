-- ===== src/Plugin/Dependencies/Soundness.antt =====
-- The search `checkCircularDependencies` where it reports a cycle.
use oksai_cc_api_server.Base.{
  ℕ, zero, suc, String, true, false, none, some, List, [], ◌∷◌, includes, ◌==◌, string_eq, ◌≡◌, ◌⊎◌,
  inl, inr, refl, sym, subst, ◌∙◌, arith, eq_iff, Bool-cases, Option-cases, remove_absent, or_true,
}
use oksai_cc_api_server.Plugin.Types.{Plugin}
use oksai_cc_api_server.Plugin.Dependencies.{
  Sets, Verdict, unless_found, enter, leave, lookup_plugin, search_deps, check_circular,
}
use oksai_cc_api_server.Plugin.Dependencies.Graph.{Edge, Reaches, edge, Reaches-trans, LeadsToCycle}

module _ (plugins : List Plugin) where
  -- A positive verdict comes with a cycle; a negative one leaves the stack as it was.
  abbrev pub Justified : String → Sets → Verdict → Type 0
  Justified name s none = Unit
  Justified name s (some (true, s')) = LeadsToCycle plugins name
  Justified name s (some (false, s')) = s'.stack ≡ s.stack

  -- Everything on the stack reaches `name`.
  abbrev Leading : String → Sets → Type 0
  Leading name s = (x : String) → includes x s.stack ≡ true → Reaches plugins x name

  abbrev JustifiedVisit : (String → List String → Sets → Verdict) → Type 0
  JustifiedVisit visit =
      (name : String) (p : Plugin) (s : Sets)
      → lookup_plugin plugins name ≡ some p
      → Leading name s
      → Justified name s (visit name p.dependencies s)

  abbrev Within : String → Sets → Type 0
  Within name s = (x : String) → includes x s.stack ≡ true → (x ≡ name) ⊎ Reaches plugins x name

  Edge-LeadsToCycle :
      {a b : String} → Edge plugins a b → LeadsToCycle plugins b → LeadsToCycle plugins a
  Edge-LeadsToCycle {a} e c = record {
    at = c.at;
    leads = inr (elim c.leads [
      | inl here ↦ subst (Reaches plugins a) here (edge e)
      | inr r ↦ Reaches-trans plugins (edge e) r
    ]);
    around = c.around;
  }

  Within-Leading : {a b : String} (s : Sets) → Edge plugins a b → Within a s → Leading b s
  Within-Leading {a} {b} s e w x i = elim (w x i) [
    | inl here ↦ subst (λ y. Reaches plugins y b) (sym here) (edge e)
    | inr r ↦ Reaches-trans plugins r (edge e)
  ]

  Justified-unless_found :
      (name d : String) (s : Sets) (r : Verdict) (k : Sets → Verdict)
      → Edge plugins name d
      → Justified d s r
      → ((s' : Sets) → s'.stack ≡ s.stack → Justified name s' (k s'))
      → Justified name s (unless_found r k)
  Justified-unless_found name d s none k e j f = tt
  Justified-unless_found name d s (some (true, s')) k e j f = Edge-LeadsToCycle e j
  Justified-unless_found name d s (some (false, s')) k e j f = again (k s') (f s' j)
    where
      again : (r : Verdict) → Justified name s' r → Justified name s r
      again none h = tt
      again (some (true, t)) h = h
      again (some (false, t)) h = h ∙ j

  search_deps-Justified :
      (visit : String → List String → Sets → Verdict) (name : String) (p : Plugin)
      → JustifiedVisit visit
      → lookup_plugin plugins name ≡ some p
      → (ds : List String) (s : Sets)
      → ((d : String) → includes d ds ≡ true → includes d p.dependencies ≡ true)
      → Within name s
      → Justified name s (search_deps plugins visit ds s)
  unfolding search_deps
  search_deps-Justified visit name p good at [] s sub w = refl
  search_deps-Justified visit name p good at (d ∷ ds) s sub w =
      let rest = search_deps-Justified visit name p good at ds in
      let sub' = λ (x : String) (i : includes x ds ≡ true). sub x (rw i (or_true (d == x))) in
      elim (Option-cases (lookup_plugin plugins d)) [
        | inl e ↦ rw e (rest s sub' w)
        | inr (q, e) ↦
            let step : Edge plugins name d = record {
              from = p;
              found = at;
              listed = sub d (ground (arith, eq_iff d d));
              registered = rw e refl;
            } in
            rw e (
              Justified-unless_found name d s (visit d q.dependencies s)
                (search_deps plugins visit ds) step (good d q s e (Within-Leading s step w))
                (λ s' k. rest s' sub' (λ x i. w x (rw (← k) i))))
      ]

  Justified-leave :
      (name : String) (s : Sets) (r : Verdict)
      → includes name s.stack ≡ false
      → Justified name (enter name s) r
      → Justified name s (unless_found r (λ s'. some (false, leave name s')))
  Justified-leave name s none n j = tt
  Justified-leave name s (some (true, t)) n j = j
  Justified-leave name s (some (false, t)) n j =
      rw j (ground (arith, eq_iff name name, remove_absent name s.stack))

  pub check_circular-Justified : (fuel : ℕ) → JustifiedVisit (check_circular plugins fuel)
  unfolding check_circular
  check_circular-Justified zero name p s at l = tt
  check_circular-Justified (suc fuel) name p s at l =
      let inner =
        search_deps-Justified (check_circular plugins fuel) name p (check_circular-Justified fuel)
          at p.dependencies (enter name s) (λ d i. i) in
      elim (Bool-cases (includes name s.stack)) [
        | inl y ↦ rw y (record { at = name; leads = inl refl; around = l name y })
        | inr n ↦ elim (Bool-cases (includes name s.visited)) [
          | inl y ↦ rw (n, y) refl
          | inr m ↦
              rw (n, m)
                (Justified-leave name s _ n (
                  inner (λ x i. elim (Bool-cases (name == x)) [
                    | inl y ↦ inl (sym ((eq_iff name x).0 y))
                    | inr o ↦ inr (l x (ground arith))
                  ])))
        ]
      ]
