-- ===== src/Plugin/Registry/Views.antt =====
-- The arrays that the services take from the registry's map.
use oksai_cc_api_server.Base.{
  String, some, List, [], ◌∷◌, Map, get, values, find, ◌==◌, string_eq, ◌≡◌, refl, arith, eq_iff,
  UniqueKeys, All, Bool-cases, inl, inr,
}
use oksai_cc_api_server.Plugin.Types.{Plugin, Host}
use oksai_cc_api_server.Plugin.Registry.{get_all}
use oksai_cc_api_server.Plugin.Registry.Invariant.{IsConsistent}

pub find-name :
    (name : String) (ps : List Plugin) (p : Plugin)
    → find (λ q. q.name == name) ps ≡ some p
    → p.name ≡ name
find-name name [] p e = cc
find-name name (q ∷ ps) p e = ground (arith, eq_iff q.name name, find-name name ps p)

find-get :
    (name : String) (m : Map String Plugin)
    → UniqueKeys m
    → ((n : String) (p : Plugin) → get n m ≡ some p → p.name ≡ n)
    → find (λ q. q.name == name) (values m) ≡ get name m
unfolding get
find-get name [] u k = refl
find-get name ((n, q) ∷ m) u k = ground (
  arith,
  k n q,
  eq_iff n n,
  find-get name m u.1 (λ j p e. k j p (ground (arith, eq_iff n j, e, u.0))),
)

-- Searching the array by name is looking the name up.
pub find-get_all :
    {Stray : String → Type 0}
    → (name : String) (h : Host) → IsConsistent Stray h
    → find (λ q. q.name == name) (get_all h) ≡ get name h.plugins
unfolding get_all
find-get_all name h c = find-get name h.plugins c.unique_plugins c.keyed

All-values :
    (P : Plugin → Type 0) (name : String) (m : Map String Plugin) (p : Plugin)
    → All P (values m)
    → get name m ≡ some p
    → P p
unfolding get
All-values P name [] p a e = absurd (ground arith)
All-values P name ((n, q) ∷ m) p a e = elim (Bool-cases (n == name)) [
  | inl same ↦ let at : q ≡ p = ground arith in rw (← at) a.0
  | inr other ↦ All-values P name m p a.1 (ground arith)
]

pub All-get_all :
    (P : Plugin → Type 0) (name : String) (h : Host) (p : Plugin)
    → All P (get_all h)
    → get name h.plugins ≡ some p
    → P p
unfolding get_all
All-get_all P name h p a e = All-values P name h.plugins p a e
