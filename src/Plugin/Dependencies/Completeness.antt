-- ===== src/Plugin/Dependencies/Completeness.antt =====
-- The search `checkCircularDependencies` where it reports nothing: the order of the names that it
-- has finished with.
use oksai_cc_api_server.Base.{
  ℕ, zero, suc, String, true, false, ◌||◌, none, some, List, [], ◌∷◌, includes, remove, ◌==◌,
  string_eq, is_some, ◌≡◌, inl, inr, refl, ◌∙◌, arith, eq_iff, Bool-cases, Option-cases,
  remove_absent, or_true,
}
use oksai_cc_api_server.Plugin.Types.{Plugin}
use oksai_cc_api_server.Plugin.Dependencies.{
  Sets, Verdict, unless_found, enter, leave, lookup_plugin, search_deps, check_circular,
}
use oksai_cc_api_server.Plugin.Dependencies.Graph.{Edge}
use oksai_cc_api_server.Plugin.Dependencies.Termination.{Grows}

module _ (plugins : List Plugin) where
  abbrev pub Ordered : List String → Type 0
  Ordered [] = Unit
  Ordered (x ∷ done) =
      (includes x done ≡ false)
      × ((d : String) → Edge plugins x d → includes d done ≡ true)
      × Ordered done

  -- The visited names are those that are finished and those on the stack.
  pub record Tracks (s : Sets) (done : List String) : Type 0 where
    pub ordered : Ordered done
    pub split : (x : String) → includes x s.visited ≡ (includes x done || includes x s.stack)
    pub apart : (x : String) → includes x done ≡ true → includes x s.stack ≡ false

  -- What a negative verdict leaves behind, where `goal` holds of the names finished by then.
  abbrev pub Finished : (List String → Type 0) → Sets → List String → Verdict → Type 0
  Finished goal s done none = Unit
  Finished goal s done (some (true, s')) = Unit
  Finished goal s done (some (false, s')) =
      (more : List String) × Tracks s' more × goal more × Grows done more × (s'.stack ≡ s.stack)

  abbrev pub FinishingVisit : (String → List String → Sets → Verdict) → Type 0
  FinishingVisit visit =
      (name : String) (p : Plugin) (s : Sets) (done : List String)
      → lookup_plugin plugins name ≡ some p
      → Tracks s done
      → Finished (λ more. includes name more ≡ true) s done (visit name p.dependencies s)

  abbrev pub AllIn : List String → List String → Type 0
  AllIn ds more =
      (d : String)
      → includes d ds ≡ true
      → is_some (lookup_plugin plugins d) ≡ true
      → includes d more ≡ true

  Finished-unless_found :
      (ds : List String) (d : String) (s : Sets) (done : List String) (r : Verdict)
      (k : Sets → Verdict)
      → Finished (λ more. includes d more ≡ true) s done r
      → ((s' : Sets) (more : List String) → Tracks s' more → Finished (AllIn ds) s' more (k s'))
      → Finished (AllIn (d ∷ ds)) s done (unless_found r k)
  Finished-unless_found ds d s done none k h f = tt
  Finished-unless_found ds d s done (some (true, s')) k h f = tt
  Finished-unless_found ds d s done (some (false, s')) k (more, t, here, g, same) f =
      again (k s') (f s' more t)
    where
      again : (r : Verdict) → Finished (AllIn ds) s' more r → Finished (AllIn (d ∷ ds)) s done r
      again none h = tt
      again (some (true, u)) h = tt
      again (some (false, u)) (most, t', all, g', same') = (
        most,
        t',
        (λ x i reg. elim (Bool-cases (d == x)) [
          | inl y ↦ rw (← ((eq_iff d x).0 y)) (g' d here)
          | inr o ↦ all x (ground arith) reg
        ]),
        (λ x i. g' x (g x i)),
        same' ∙ same,
      )

  Finished-skip :
      (ds : List String) (d : String) (s : Sets) (done : List String) (r : Verdict)
      → lookup_plugin plugins d ≡ none
      → Finished (AllIn ds) s done r
      → Finished (AllIn (d ∷ ds)) s done r
  Finished-skip ds d s done none e h = tt
  Finished-skip ds d s done (some (true, u)) e h = tt
  Finished-skip ds d s done (some (false, u)) e (more, t, all, g, same) = (
    more,
    t,
    (λ x i reg. elim (Bool-cases (d == x)) [
      | inl y ↦ absurd (ground (arith, (eq_iff d x).0 y))
      | inr o ↦ all x (ground arith) reg
    ]),
    g,
    same,
  )

  search_deps-Finished :
      (visit : String → List String → Sets → Verdict)
      → FinishingVisit visit
      → (ds : List String) (s : Sets) (done : List String) → Tracks s done
      → Finished (AllIn ds) s done (search_deps plugins visit ds s)
  unfolding search_deps
  search_deps-Finished visit good [] s done t = (done, t, (λ d i r. cc), (λ x i. i), refl)
  search_deps-Finished visit good (d ∷ ds) s done t =
      elim (Option-cases (lookup_plugin plugins d)) [
        | inl e ↦ rw e (
            Finished-skip ds d s done (search_deps plugins visit ds s) e
              (search_deps-Finished visit good ds s done t))
        | inr (q, e) ↦ rw e (
            Finished-unless_found ds d s done (visit d q.dependencies s)
              (search_deps plugins visit ds) (good d q s done e t)
              (λ s' more u. search_deps-Finished visit good ds s' more u))
      ]

  enter-Tracks :
      (name : String) (s : Sets) (done : List String)
      → includes name s.visited ≡ false
      → Tracks s done
      → Tracks (enter name s) done
  enter-Tracks name s done n t = record {
    ordered = t.ordered;
    split = λ x. ground (arith, t.split x);
    apart = λ x i. ground (arith, t.split name, t.apart x i, eq_iff name x);
  }

  leave-Tracks :
      (name : String) (p : Plugin) (s u : Sets) (more : List String)
      → lookup_plugin plugins name ≡ some p
      → includes name s.stack ≡ false
      → u.stack ≡ name ∷ s.stack
      → Tracks u more
      → AllIn p.dependencies more
      → Tracks (leave name u) (name ∷ more)
  leave-Tracks name p s u more at n k t all =
      let back : remove name u.stack ≡ s.stack =
        rw k (ground (arith, eq_iff name name, remove_absent name s.stack)) in
      record {
        ordered = (
          ground (arith, t.apart name, eq_iff name name),
          (λ d e. all d (ground (arith, e.found, e.listed)) e.registered),
          t.ordered,
        );
        split = λ x. rw back (ground (arith, t.split x));
        apart = λ x i. rw back (ground (arith, t.apart x, eq_iff name x));
      }

  Finished-leave :
      (name : String) (p : Plugin) (s : Sets) (done : List String) (r : Verdict)
      → lookup_plugin plugins name ≡ some p
      → includes name s.stack ≡ false
      → Finished (AllIn p.dependencies) (enter name s) done r
      → Finished
          (λ more. includes name more ≡ true)
          s
          done
          (unless_found r (λ s'. some (false, leave name s')))
  Finished-leave name p s done none at n h = tt
  Finished-leave name p s done (some (true, u)) at n h = tt
  Finished-leave name p s done (some (false, u)) at n (more, t, all, g, same) = (
    name ∷ more,
    leave-Tracks name p s u more at n same t all,
    ground (arith, eq_iff name name),
    (λ x i. rw (g x i) (or_true (name == x))),
    rw same (ground (arith, eq_iff name name, remove_absent name s.stack)),
  )

  pub check_circular-Finished : (fuel : ℕ) → FinishingVisit (check_circular plugins fuel)
  unfolding check_circular
  check_circular-Finished zero name p s done at t = tt
  check_circular-Finished (suc fuel) name p s done at t =
      let inner =
        search_deps-Finished (check_circular plugins fuel) (check_circular-Finished fuel)
          p.dependencies (enter name s) done in
      elim (Bool-cases (includes name s.stack)) [
        | inl y ↦ rw y tt
        | inr n ↦ elim (Bool-cases (includes name s.visited)) [
          | inl y ↦ rw (n, y) (done, t, ground (arith, t.split name), (λ x i. i), refl)
          | inr m ↦
              rw (n, m) (Finished-leave name p s done _ at n (inner (enter-Tracks name s done m t)))
        ]
      ]
