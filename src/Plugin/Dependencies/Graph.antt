-- ===== src/Plugin/Dependencies/Graph.antt =====
-- The graph of dependencies: what the search is about.
use oksai_cc_api_server.Base.{String, true, some, List, includes, string_eq, ◌≡◌, ◌⊎◌, is_some}
use oksai_cc_api_server.Plugin.Types.{Plugin}
use oksai_cc_api_server.Plugin.Dependencies.{lookup_plugin}

module _ (plugins : List Plugin) where
  -- `a` is registered and lists `b`, which is registered too.
  pub record Edge (a b : String) : Type 0 where
    pub from : Plugin
    pub found : lookup_plugin plugins a ≡ some from
    pub listed : includes b from.dependencies ≡ true
    pub registered : is_some (lookup_plugin plugins b) ≡ true

  -- One or more dependencies, one after the other.
  pub data Reaches (a : String) : String → Type 0 where
    edge : {b : String} → Edge a b → Reaches a b
    further : {b c : String} → Reaches a b → Edge b c → Reaches a c

  pub Reaches-trans : {a b c : String} → Reaches a b → Reaches b c → Reaches a c
  Reaches-trans r (edge e) = further r e
  Reaches-trans r (further s e) = further (Reaches-trans r s) e

  -- A cycle that `name` lies on or leads to.
  pub record LeadsToCycle (name : String) : Type 0 where
    pub at : String
    pub leads : (name ≡ at) ⊎ Reaches name at
    pub around : Reaches at at
