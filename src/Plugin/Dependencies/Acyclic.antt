-- ===== src/Plugin/Dependencies/Acyclic.antt =====
-- Orders of the names, for `checkCircularDependencies`.
use oksai_cc_api_server.Base.{
  String, true, List, [], ◌∷◌, includes, ◌==◌, string_eq, ◌≡◌, inl, inr, sym, arith, eq_iff,
  Bool-cases, subst,
}
use oksai_cc_api_server.Plugin.Types.{Plugin}
use oksai_cc_api_server.Plugin.Dependencies.Graph.{Edge, Reaches, edge, further, LeadsToCycle}
use oksai_cc_api_server.Plugin.Dependencies.Completeness.{Ordered}

module _ (plugins : List Plugin) where
  Ordered-Edge :
      (done : List String) (a b : String)
      → Ordered plugins done
      → includes a done ≡ true
      → Edge plugins a b
      → includes b done ≡ true
  Ordered-Edge [] a b o i e = cc
  Ordered-Edge (x ∷ done) a b (f, g, o) i e = elim (Bool-cases (x == a)) [
    | inl y ↦
        let at : x ≡ a = (eq_iff x a).0 y in
        ground (arith, g b (subst (λ z. Edge plugins z b) (sym at) e))
    | inr n ↦ ground (arith, Ordered-Edge done a b o (ground arith) e)
  ]

  Ordered-Reaches :
      (done : List String) {a b : String}
      → Ordered plugins done
      → includes a done ≡ true
      → Reaches plugins a b
      → includes b done ≡ true
  Ordered-Reaches done {a} {b} o i (edge e) = Ordered-Edge done a b o i e
  Ordered-Reaches done {a} o i (further {b} {c} r e) =
      Ordered-Edge done b c o (Ordered-Reaches done o i r) e

  -- What is reached from the head of the order stands behind it.
  Reaches-behind :
      (x : String) (done : List String) {b : String}
      → Ordered plugins (x ∷ done)
      → Reaches plugins x b
      → includes b done ≡ true
  Reaches-behind x done (f, g, o) (edge {b} e) = g b e
  Reaches-behind x done (f, g, o) (further {b} {c} r e) =
      Ordered-Edge done b c o (Reaches-behind x done (f, g, o) r) e

  no_loop :
      (done : List String) (a : String)
      → Ordered plugins done
      → includes a done ≡ true
      → ¬ (Reaches plugins a a)
  no_loop [] a o i r = cc
  no_loop (x ∷ done) a (f, g, o) i r = elim (Bool-cases (x == a)) [
    | inl y ↦
        let at : x ≡ a = (eq_iff x a).0 y in
        let behind =
          Reaches-behind x done (f, g, o) (subst (λ z. Reaches plugins z z) (sym at) r) in
        ground (arith, f, behind)
    | inr n ↦ no_loop done a o (ground arith) r
  ]

  pub Ordered-no_cycle :
      (done : List String) (name : String)
      → Ordered plugins done
      → includes name done ≡ true
      → ¬ (LeadsToCycle plugins name)
  Ordered-no_cycle done name o i c =
      no_loop done c.at o
        (elim c.leads [
          | inl here ↦ subst (λ z. includes z done ≡ true) here i
          | inr r ↦ Ordered-Reaches done o i r
        ])
        c.around
