-- ===== src/Plugin/Guard/Access.antt =====
-- Which requests the status guard lets through.
use oksai_cc_api_server.Base.{
  ℕ, ◌+◌, ◌<◌, ◌≤◌, inl, inr, Option-cases, Bool-cases, ap, ◌∙◌, String, Bool, true, false, none,
  some, List, [], ◌∷◌, ◌++◌, get, string_eq, nat_eq, ◌≡◌, ◌⊎◌, ◌↔◌, refl, arith, codes, includes,
  All,
}
use oksai_cc_api_server.Base.Exec.{ok}
use oksai_cc_api_server.Plugin.Types.{initialized, Plugin, Host}
use oksai_cc_api_server.Plugin.Guard.{
  first_segment, to_lower, mapping, same_text, lookup_path, lookup_mapping, nothing, named,
  strip_prefix, lookup_path, extract_plugin_name, can_activate,
}

-- The path segments that belong to a plugin, in lower case, and the name of the plugin.
pub data Route : List ℕ → String → Type 0 where
  auth : Route (codes "auth") "auth"
  tenants : Route (codes "tenants") "tenant"
  users : Route (codes "users") "user"
  organizations : Route (codes "organizations") "organization"
  roles : Route (codes "roles") "roles"
  permissions : Route (codes "permissions") "permissions"
  audit : Route (codes "audit") "audit"
  analytics : Route (codes "analytics") "analytics"
  reporting : Route (codes "reporting") "reporting"

-- The segment is the key, some of whose small letters may be capital ones.
pub data Spells : List ℕ → List ℕ → Type 0 where
  end : Spells [] []
  small :
      {c : ℕ} {segment key : List ℕ}
      → b'a' ≤ c
      → c ≤ b'z'
      → Spells segment key
      → Spells (c ∷ segment) (c ∷ key)
  capital :
      {c : ℕ} {segment key : List ℕ}
      → b'A' ≤ c
      → c ≤ b'Z'
      → Spells segment key
      → Spells (c ∷ segment) ((c + 32) ∷ key)

-- What may follow the segment: nothing, or a slash and more.
pub data Behind : List ℕ → Type 0 where
  nothing_more : Behind []
  slash : (more : List ℕ) → Behind (b'/' ∷ more)

to_lower-Spells :
    {segment key rest : List ℕ}
    → Spells segment key
    → Behind rest
    → to_lower (first_segment (segment ++ rest)) ≡ key
unfolding to_lower first_segment
to_lower-Spells end nothing_more = refl
to_lower-Spells end (slash more) = refl
to_lower-Spells (small low high s) b = ground (arith, low, high, to_lower-Spells s b)
to_lower-Spells (capital low high s) b = ground (arith, low, high, to_lower-Spells s b)

lookup_mapping-Route :
    {key : List ℕ} {name : String} → Route key name → lookup_mapping key ≡ named name
unfolding lookup_mapping lookup_path same_text
lookup_mapping-Route auth = refl
lookup_mapping-Route tenants = refl
lookup_mapping-Route users = refl
lookup_mapping-Route organizations = refl
lookup_mapping-Route roles = refl
lookup_mapping-Route permissions = refl
lookup_mapping-Route audit = refl
lookup_mapping-Route analytics = refl
lookup_mapping-Route reporting = refl

extract_plugin_name-Route :
    {segment key rest : List ℕ} {name : String}
    → Route key name
    → Spells segment key
    → Behind rest
    → extract_plugin_name (codes "/api/" ++ (segment ++ rest)) ≡ named name
unfolding extract_plugin_name strip_prefix
extract_plugin_name-Route r s b = ap lookup_mapping (to_lower-Spells s b) ∙ lookup_mapping-Route r

-- A request whose URL is /api/ and a plugin's segment, in small or capital letters, with nothing
-- or a slash and more behind it, passes exactly when the route is public, or the plugin is
-- registered and is protected or has the status INITIALIZED.
pub can_activate_iff :
    {segment key rest : List ℕ} {name : String} (is_public : Bool) (h : Host)
    → Route key name
    → Spells segment key
    → Behind rest
    → (can_activate is_public (codes "/api/" ++ (segment ++ rest)) h ≡ ok true) ↔ (
        (is_public ≡ true)
        ⊎ ((p : Plugin) × (get name h.plugins ≡ some p)
            × ((p.is_protected ≡ true) ⊎ (get name h.plugin_statuses ≡ some initialized))))
unfolding can_activate
can_activate_iff {segment} {key} {rest} {name} is_public h r s b =
    rw (extract_plugin_name-Route r s b) (elim (Option-cases (get name h.plugins)) [
      | inl missing ↦ (
        (λ e. ground (arith, e, missing)),
        (λ c. elim c [
          | inl y ↦ ground (arith, y)
          | inr (p, g, q) ↦ absurd (ground (arith, g, missing))
        ]),
      )
      | inr (p, g) ↦ (
        (λ e. elim (Bool-cases is_public) [
          | inl y ↦ inl y
          | inr n ↦ inr (p, g, ground (arith, e, n, g))
        ]),
        (λ c. elim c [
          | inl y ↦ ground (arith, y)
          | inr (q, at, ready) ↦
              let same : q ≡ p = ground (arith, at, g) in ground (arith, at, ready)
        ]),
      )
    ])

-- No key of the mapping and no inherited name holds a question mark.
same_text-includes :
    (k path : List ℕ) (c : ℕ)
    → includes c path ≡ true
    → includes c k ≡ false
    → same_text k path ≡ false
unfolding same_text
same_text-includes [] [] c i n = cc
same_text-includes [] (d ∷ ds) c i n = refl
same_text-includes (b ∷ k) [] c i n = refl
same_text-includes (b ∷ k) (d ∷ ds) c i n = ground (arith, same_text-includes k ds c)

lookup_path-includes :
    (path : List ℕ) (c : ℕ) (m : List (List ℕ × String))
    → includes c path ≡ true
    → All (λ e. includes c e.0 ≡ false) m
    → lookup_path path m ≡ none
unfolding lookup_path
lookup_path-includes path c [] i a = refl
lookup_path-includes path c ((k, name) ∷ m) i a =
    rw (same_text-includes k path c i a.0) (lookup_path-includes path c m i a.1)

to_lower-includes :
    (c : ℕ) (cs : List ℕ) → c < b'A' → includes c cs ≡ true → includes c (to_lower cs) ≡ true
unfolding to_lower
to_lower-includes c [] l i = cc
to_lower-includes c (d ∷ ds) l i = ground (arith, to_lower-includes c ds)

includes-first_segment :
    (segment query : List ℕ)
    → includes b'/' segment ≡ false
    → includes b'?' (first_segment (segment ++ b'?' ∷ query)) ≡ true
unfolding first_segment
includes-first_segment [] query n = refl
includes-first_segment (c ∷ segment) query n = ground (arith, includes-first_segment segment query)

lookup_mapping-query : (path : List ℕ) → includes b'?' path ≡ true → lookup_mapping path ≡ nothing
unfolding lookup_mapping
lookup_mapping-query path i =
    rw
      (
        lookup_path-includes path b'?' mapping i
            (refl, (refl, (refl, (refl, (refl, (refl, (refl, (refl, (refl, tt))))))))),
        same_text-includes (codes "constructor") path b'?' i refl,
        same_text-includes (codes "__proto__") path b'?' i refl,
      )
      refl

-- A request whose first path segment is followed by a query string passes, whatever the plugin's
-- status: the query is read as a part of the segment, which then maps to no plugin.
pub query_passes :
    (is_public : Bool) (segment query : List ℕ) (h : Host)
    → includes b'/' segment ≡ false
    → can_activate is_public (codes "/api/" ++ (segment ++ b'?' ∷ query)) h ≡ ok true
unfolding can_activate extract_plugin_name
query_passes is_public segment query h n =
    rw
      (lookup_mapping-query (to_lower (first_segment (segment ++ b'?' ∷ query))) (
        to_lower-includes b'?' (first_segment (segment ++ b'?' ∷ query)) (omega arith)
          (includes-first_segment segment query n)))
      (ground arith)
