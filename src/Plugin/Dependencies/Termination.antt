-- ===== src/Plugin/Dependencies/Termination.antt =====
-- The fuel of the search `checkCircularDependencies`.
use oksai_cc_api_server.Base.{
  ℕ, zero, suc, ◌≤◌, ◌<◌, String, Bool, true, false, not, none, some, List, [], ◌∷◌, filter, length,
  includes, ◌==◌, string_eq, ◌≡◌, inl, inr, refl, arith, eq_iff, Bool-cases, Option-cases,
  length-filter-le, or_true,
}
use oksai_cc_api_server.Plugin.Types.{Plugin}
use oksai_cc_api_server.Plugin.Dependencies.{
  Sets, Verdict, unless_found, enter, leave, lookup_plugin, search_deps, check_circular, no_sets,
}

-- The plugins that no call has visited yet.
abbrev pub unvisited : List Plugin → List String → ℕ
unvisited plugins v = length (filter (λ p. not (includes p.name v)) plugins)

abbrev pub Grows : List String → List String → Type 0
Grows v w = (x : String) → includes x v ≡ true → includes x w ≡ true

unvisited_mono :
    (plugins : List Plugin) (v w : List String)
    → Grows v w
    → unvisited plugins w ≤ unvisited plugins v
unvisited_mono [] v w g = omega arith
unvisited_mono (p ∷ ps) v w g = ground (arith, g p.name, unvisited_mono ps v w g)

unvisited_enter :
    (plugins : List Plugin) (name : String) (v : List String) (p : Plugin)
    → lookup_plugin plugins name ≡ some p
    → includes name v ≡ false
    → unvisited plugins (name ∷ v) < unvisited plugins v
unvisited_enter [] name v p f n = cc
unvisited_enter (q ∷ ps) name v p f n = ground (
  arith,
  eq_iff q.name name,
  eq_iff name q.name,
  unvisited_enter ps name v p,
  unvisited_mono ps v (name ∷ v) (λ x h. rw h (or_true (name == x))),
)

-- The call returned, and forgot no visited plugin.
abbrev pub Returned : Sets → Verdict → Type 0
Returned s none = ⊥
Returned s (some (b, s')) = Grows s.visited s'.visited

Returned-unless_found :
    (s : Sets) (r : Verdict) (k : Sets → Verdict)
    → Returned s r
    → ((s' : Sets) → Grows s.visited s'.visited → Returned s' (k s'))
    → Returned s (unless_found r k)
Returned-unless_found s none k h f = h
Returned-unless_found s (some (true, s')) k h f = h
Returned-unless_found s (some (false, s')) k h f = Returned-grows s s' (k s') h (f s' h)
  where
    Returned-grows :
        (s s' : Sets) (r : Verdict) → Grows s.visited s'.visited → Returned s' r → Returned s r
    Returned-grows s s' none g h = h
    Returned-grows s s' (some (b, t)) g h = λ x i. h x (g x i)

module _ (plugins : List Plugin) where
  -- `visit` returns where at most `bound` plugins are unvisited.
  abbrev ReturnsBelow : ℕ → (String → List String → Sets → Verdict) → Type 0
  ReturnsBelow bound visit =
      (name : String) (deps : List String) (s : Sets) (p : Plugin)
      → lookup_plugin plugins name ≡ some p
      → unvisited plugins s.visited < bound
      → Returned s (visit name deps s)

  search_deps-Returned :
      (visit : String → List String → Sets → Verdict) (bound : ℕ)
      → ReturnsBelow bound visit
      → (ds : List String) (s : Sets) → unvisited plugins s.visited < bound
      → Returned s (search_deps plugins visit ds s)
  unfolding search_deps
  search_deps-Returned visit bound good [] s h = λ x i. i
  search_deps-Returned visit bound good (d ∷ ds) s h =
      elim (Option-cases (lookup_plugin plugins d)) [
        | inl e ↦ rw e (search_deps-Returned visit bound good ds s h)
        | inr (p, e) ↦ rw e (
            Returned-unless_found s (visit d p.dependencies s) (search_deps plugins visit ds)
              (good d p.dependencies s p e h)
              (λ s' g.
                search_deps-Returned visit bound good ds s'
                  (omega (arith, unvisited_mono plugins s.visited s'.visited g))))
      ]

  Returned-leave :
      (name : String) (s : Sets) (r : Verdict)
      → Returned (enter name s) r
      → Returned s (unless_found r (λ s'. some (false, leave name s')))
  Returned-leave name s none h = h
  Returned-leave name s (some (true, t)) h = λ x i. h x (rw i (or_true (name == x)))
  Returned-leave name s (some (false, t)) h = λ x i. h x (rw i (or_true (name == x)))

  check_circular-Returned : (fuel : ℕ) → ReturnsBelow fuel (check_circular plugins fuel)
  unfolding check_circular
  check_circular-Returned zero name deps s p e h = elim h [ ]
  check_circular-Returned (suc fuel) name deps s p e h =
      let inner =
        search_deps-Returned (check_circular plugins fuel) fuel (check_circular-Returned fuel) deps
          (enter name s) in
      elim (Bool-cases (includes name s.stack)) [
        | inl y ↦ rw y (λ x i. i)
        | inr n ↦ elim (Bool-cases (includes name s.visited)) [
          | inl y ↦ rw (n, y) (λ x i. i)
          | inr m ↦
              rw (n, m)
                (Returned-leave name s _
                  (inner (omega (arith, unvisited_enter plugins name s.visited p e m))))
        ]
      ]

  Returned-some : (s : Sets) (r : Verdict) → Returned s r → (v : Bool × Sets) × (r ≡ some v)
  Returned-some s none h = absurd h
  Returned-some s (some v) h = (v, refl)

  -- For a registered plugin the search comes back with a verdict, whatever cycles there are: fuel of
  -- one more than there are registered plugins is enough.
  pub check_circular-returns :
      (p q : Plugin)
      → lookup_plugin plugins p.name ≡ some q
      → (v : Bool × Sets) × (check_circular plugins
            (suc (length plugins))
            p.name
            p.dependencies
            no_sets
          ≡ some v)
  check_circular-returns p q e = Returned-some no_sets _ (
      check_circular-Returned (suc (length plugins)) p.name p.dependencies no_sets q e
        (omega (arith, length-filter-le (λ r. not (includes r.name [])) plugins)))
