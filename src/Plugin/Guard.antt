-- ===== src/Plugin/Guard.antt =====
-- libs/plugin/src/guards/plugin-status.guard.ts. Text is the list of its code points. The metadata
-- that `Reflector` reads is the argument `is_public`.
pub mod Access
use oksai_cc_api_server.Base.{
  ◌||◌, ℕ, ◌+◌, ◌-◌, String, Bool, true, false, Option, none, some, List, [], ◌∷◌, Map, get,
  if◌then◌else◌, ◌==◌, string_eq, nat_eq, ◌≡◌, ◌≢◌, ◌⊎◌, ◌↔◌, ◌&&◌, leb, refl, arith, codes,
}
use oksai_cc_api_server.Base.Exec.{Result, ok, err}
use oksai_cc_api_server.Plugin.Types.{PluginStatus, initialized, is_initialized, Plugin, Host}

pub data GuardError : Type 0 where
  plugin_not_found status_not_found plugin_disabled : String → GuardError
  inherited_not_found : GuardError

-- `plugin.isProtected`, then the status
unfoldable pub check_status : String → Option PluginStatus → Result GuardError Bool
check_status name none = err (status_not_found name)
check_status name (some s) = if is_initialized s then ok true else err (plugin_disabled name)

unfoldable pub check_plugin : Host → String → Option Plugin → Result GuardError Bool
unfolding check_status
check_plugin h name none = err (plugin_not_found name)
check_plugin h name (some p) =
    if p.is_protected then ok true else check_status name (get name h.plugin_statuses)

-- `[^\/]+`: the text up to the next slash
unfoldable pub first_segment : List ℕ → List ℕ
first_segment [] = []
first_segment (c ∷ cs) = if c == b'/' then [] else c ∷ first_segment cs

-- `toLowerCase` on the letters A to Z. Other letters have no counterpart among the keys below, but
-- for U+212A, which JavaScript maps to `k`; no key holds a `k`.
unfoldable pub to_lower : List ℕ → List ℕ
to_lower [] = []
to_lower (c ∷ cs) = (if leb b'A' c && leb c b'Z' then c + 32 else c) ∷ to_lower cs

-- the rest of the text behind a prefix
unfoldable pub strip_prefix : List ℕ → List ℕ → Option (List ℕ)
strip_prefix [] cs = some cs
strip_prefix (p ∷ ps) [] = none
strip_prefix (p ∷ ps) (c ∷ cs) = if c == p then strip_prefix ps cs else none

abbrev pub mapping : List (List ℕ × String)
mapping =
    (codes "auth", "auth")
    ∷ (codes "tenants", "tenant")
    ∷ (codes "users", "user")
    ∷ (codes "organizations", "organization")
    ∷ (codes "roles", "roles")
    ∷ (codes "permissions", "permissions")
    ∷ (codes "audit", "audit")
    ∷ (codes "analytics", "analytics")
    ∷ (codes "reporting", "reporting")
    ∷ []

unfoldable pub same_text : List ℕ → List ℕ → Bool
same_text [] [] = true
same_text [] (d ∷ ds) = false
same_text (c ∷ cs) [] = false
same_text (c ∷ cs) (d ∷ ds) = c == d && same_text cs ds

unfoldable pub lookup_path : List ℕ → List (List ℕ × String) → Option String
unfolding same_text
lookup_path path [] = none
lookup_path path ((k, name) ∷ rest) = if same_text k path then some name else lookup_path path rest

-- What `pluginMapping[path] || null` yields: nothing, a plugin's name, or a property that the plain
-- object inherits, which is no string. Of the inherited names only two are in lower case.
pub data Extracted : Type 0 where
  nothing : Extracted
  named : String → Extracted
  inherited : List ℕ → Extracted

abbrev pub or_inherited : List ℕ → Option String → Extracted
or_inherited path (some name) = named name
or_inherited path none =
    if same_text (codes "constructor") path || same_text (codes "__proto__") path
    then inherited path
    else nothing

unfoldable pub lookup_mapping : List ℕ → Extracted
unfolding lookup_path
lookup_mapping path = or_inherited path (lookup_path path mapping)

abbrev pub behind_prefix : Option (List ℕ) → Extracted
behind_prefix none = nothing
behind_prefix (some rest) = lookup_mapping (to_lower (first_segment rest))

unfoldable pub extract_plugin_name : List ℕ → Extracted
unfolding strip_prefix lookup_mapping to_lower first_segment
extract_plugin_name url = behind_prefix (strip_prefix (codes "/api/") url)

unfoldable pub check_named : Host → Extracted → Result GuardError Bool
unfolding check_plugin
check_named h nothing = ok true
check_named h (named name) = check_plugin h name (get name h.plugins)
check_named h (inherited path) = err inherited_not_found

unfoldable pub can_activate : Bool → List ℕ → Host → Result GuardError Bool
unfolding check_named
can_activate is_public url h =
    if is_public then ok true else check_named h (extract_plugin_name url)
