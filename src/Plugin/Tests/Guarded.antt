-- ===== src/Plugin/Tests/Guarded.antt =====
-- The theorems on the status guard on the sample host.
use oksai_cc_api_server.Base.{arith, true, false, some, get, string_eq, ◌≡◌, ◌↔◌, ◌⊎◌, refl, codes}
use oksai_cc_api_server.Base.Exec.{ok}
use oksai_cc_api_server.Plugin.Types.{initialized, Plugin}
use oksai_cc_api_server.Plugin.Guard.{can_activate}
use oksai_cc_api_server.Plugin.Guard.Access.{
  Route, small, capital, end, slash, can_activate_iff, query_passes,
}
use oksai_cc_api_server.Plugin.Tests.{host}

can_activate_iff_example : (can_activate false (codes "/api/Audit/logs") host ≡ ok true) ↔ (
    (false ≡ true)
    ⊎ ((p : Plugin) × (get "audit" host.plugins ≡ some p)
        × ((p.is_protected ≡ true) ⊎ (get "audit" host.plugin_statuses ≡ some initialized))))
can_activate_iff_example =
    can_activate_iff false host Route.audit
      (capital (omega arith) (omega arith) (
        small (omega arith) (omega arith) (
          small (omega arith) (omega arith)
            (small (omega arith) (omega arith) (small (omega arith) (omega arith) end)))))
      (slash (codes "logs"))

query_passes_example : can_activate false (codes "/api/audit?page=2") host ≡ ok true
query_passes_example = query_passes false (codes "audit") (codes "page=2") host refl
