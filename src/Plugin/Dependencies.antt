-- ===== src/Plugin/Dependencies.antt =====
-- libs/plugin/src/services/plugin-loader.service.ts: `checkConflicts` and the depth-first search
-- `checkCircularDependencies`. The search takes fuel, and `none` means that the fuel ran out.
pub mod Graph
pub mod Termination
pub mod Soundness
pub mod Completeness
pub mod Acyclic
pub mod Conflicts
use oksai_cc_api_server.Base.{
  ℕ, zero, suc, ◌+◌, String, Bool, true, false, Option, none, some, List, [], ◌∷◌, ◌++◌, find,
  length, includes, remove, if◌then◌else◌, ◌==◌, string_eq, is_some, leb,
}
use Prim.Native.String.{◌++◌ as concat}
use oksai_cc_api_server.Plugin.Types.{Plugin, Host}
use oksai_cc_api_server.Plugin.Registry.{get_all}

-- the two sets that the recursive calls share
pub record Sets : Type 0 where
  pub stack : List String
  pub visited : List String

abbrev pub Verdict : Type 0
Verdict = Option (Bool × Sets)

-- a recursive call under `if (plugin && …) return true`
abbrev pub unless_found : Verdict → (Sets → Verdict) → Verdict
unless_found none k = none
unless_found (some (true, s)) k = some (true, s)
unless_found (some (false, s)) k = k s

abbrev pub verdict_of : Verdict → Option Bool
verdict_of none = none
verdict_of (some (b, s)) = some b

abbrev pub enter : String → Sets → Sets
enter name s = record { stack = name ∷ s.stack; visited = name ∷ s.visited }

abbrev pub leave : String → Sets → Sets
leave name s = record s { stack = remove name s.stack }

-- one round of the loop over `dependencies`: the registered plugin is visited, then the rest
abbrev pub search_dep :
    (String → List String → Sets → Verdict)
    → (Sets → Verdict)
    → String
    → Option Plugin
    → Sets
    → Verdict
search_dep visit rest d none s = rest s
search_dep visit rest d (some p) s = unless_found (visit d p.dependencies s) rest

abbrev pub no_sets : Sets
no_sets = record { stack = []; visited = [] }

module _ (plugins : List Plugin) where
  abbrev pub lookup_plugin : String → Option Plugin
  lookup_plugin name = find (λ p. p.name == name) plugins

  -- the loop over `dependencies`
  unfoldable pub search_deps :
      (String → List String → Sets → Verdict) → List String → Sets → Verdict
  search_deps visit [] s = some (false, s)
  search_deps visit (d ∷ ds) s = search_dep visit (search_deps visit ds) d (lookup_plugin d) s

  unfoldable pub check_circular : ℕ → String → List String → Sets → Verdict
  check_circular zero name deps s = none
  check_circular (suc fuel) name deps s =
      let inner = search_deps (check_circular fuel) deps (enter name s) in
      if includes name s.stack
      then some (true, s)
      else if includes name s.visited
      then some (false, s)
      else unless_found inner (λ s'. some (false, leave name s'))

  -- `hasCircular`, with fuel that is always enough
  unfoldable pub has_circular : Plugin → Option Bool
  has_circular p = verdict_of (check_circular (suc (length plugins)) p.name p.dependencies no_sets)

  unfoldable pub missing_deps : List String → List String
  missing_deps [] = []
  missing_deps (d ∷ ds) = if is_some (lookup_plugin d) then missing_deps ds else d ∷ missing_deps ds

pub record Conflict : Type 0 where
  pub plugin : String
  pub conflicts : List String
  pub has_circular_dependency : Bool

-- the entry for missing dependencies, and the one for a cycle
abbrev pub missing_entry : String → List String → List Conflict
missing_entry name [] = []
missing_entry name (d ∷ ds) =
    record { plugin = name; conflicts = d ∷ ds; has_circular_dependency = false } ∷ []

abbrev pub circular_entry : String → Bool → List Conflict
circular_entry name false = []
circular_entry name true =
    record { plugin = name; conflicts = concat name " (循环依赖)" ∷ []; has_circular_dependency = true }
    ∷ []

abbrev pub is_empty : List String → Bool
is_empty [] = true
is_empty (d ∷ ds) = false

abbrev pub entries : String → List String → Option Bool → Option (List Conflict)
entries name missing none = none
entries name missing (some b) = some (missing_entry name missing ++ circular_entry name b)

-- one round of the loop of `checkConflicts`
unfoldable pub conflicts_of : List Plugin → Plugin → Option (List Conflict)
conflicts_of plugins p =
    if is_empty p.dependencies
    then some []
    else entries p.name (missing_deps plugins p.dependencies) (has_circular plugins p)

abbrev pub append_found : Option (List Conflict) → Option (List Conflict) → Option (List Conflict)
append_found none r = none
append_found (some xs) none = none
append_found (some xs) (some ys) = some (xs ++ ys)

unfoldable pub conflicts_loop : List Plugin → List Plugin → Option (List Conflict)
conflicts_loop plugins [] = some []
conflicts_loop plugins (p ∷ ps) = append_found (conflicts_of plugins p) (conflicts_loop plugins ps)

unfoldable pub check_conflicts : Host → Option (List Conflict)
unfolding conflicts_loop conflicts_of
check_conflicts h = conflicts_loop (get_all h) (get_all h)
