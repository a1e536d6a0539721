-- ===== src/Plugin/Tests/Searched.antt =====
-- The theorems on dependencies, on the sample host and on a cycle.
use oksai_cc_api_server.Base.{Bool, some, List, [], ◌∷◌, string_eq, ◌≡◌, ◌↔◌, refl, All}
use oksai_cc_api_server.Plugin.Types.{Plugin, feature}
use oksai_cc_api_server.Plugin.Registry.{get_all}
use oksai_cc_api_server.Plugin.Dependencies.{
  Sets, no_sets, check_circular, check_conflicts, Conflict,
}
use oksai_cc_api_server.Plugin.Dependencies.Termination.{check_circular-returns}
use oksai_cc_api_server.Plugin.Dependencies.Conflicts.{check_conflicts_iff, IsSound}
use oksai_cc_api_server.Plugin.Tests.{host, host-IsConsistent, object_of}

-- `a` and `b` need each other, `c` needs `a`.
abbrev knot : List Plugin
knot =
    object_of 1 "a" feature ("b" ∷ [])
    ∷ object_of 2 "b" feature ("a" ∷ [])
    ∷ object_of 3 "c" feature ("a" ∷ "gone" ∷ [])
    ∷ []

check_circular-returns_example :
    (v : Bool × Sets) × (check_circular knot 4 "c" ("a" ∷ "gone" ∷ []) no_sets ≡ some v)
check_circular-returns_example =
    check_circular-returns knot (object_of 3 "c" feature ("a" ∷ "gone" ∷ []))
      (object_of 3 "c" feature ("a" ∷ "gone" ∷ [])) refl

check_conflicts_iff_example :
    (cs : List Conflict) × (check_conflicts host ≡ some cs)
    × ((cs ≡ []) ↔ All (IsSound (get_all host)) (get_all host))
check_conflicts_iff_example = check_conflicts_iff host host-IsConsistent
