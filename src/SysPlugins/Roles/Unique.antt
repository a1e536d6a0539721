-- ===== src/SysPlugins/Roles/Unique.antt =====
-- The service of roles as a state machine, and the slugs of the table.
use oksai_cc_api_server.Base.{String, true, false, List, string_eq}
use oksai_cc_api_server.Orm.{Repository, RepositoryLaws}
use oksai_cc_api_server.Orm.Unique.{Unique, Change-Unique}
use oksai_cc_api_server.SysPlugins.Roles.{
  Role, CreateRoleDto, UpdateRoleDto, create, other_with, update_unless, update, remove,
  assign_permissions, assign_to, revoke_permissions, revoke_from, enable, disable, set_enabled,
}
use oksai_cc_api_server.SysPlugins.Roles.Changes.{
  same_slug, same_slug_comm, Changed, create_step, found_step, update_step, remove_step,
  assign_step, revoke_step, enable_step,
}

module _ {S : Type 0} (repo : Repository Role S) (laws : RepositoryLaws (λ r. r.id) repo)
    (permissions : List String → S → List String) where
  pub data Step (s : S) : S → Type 0 where
    creating :
        (id : String) (dto : CreateRoleDto) (tenant_id : String)
        → Step s (create repo permissions id dto tenant_id s).1
    updating : (id : String) (dto : UpdateRoleDto) → Step s (update repo permissions id dto s).1
    removing : (id : String) → Step s (remove repo permissions id s).1
    assigning :
        (id : String) (ids : List String) → Step s (assign_permissions repo permissions id ids s).1
    revoking :
        (id : String) (ids : List String) → Step s (revoke_permissions repo permissions id ids s).1
    enabling : (id : String) → Step s (enable repo permissions id s).1
    disabling : (id : String) → Step s (disable repo permissions id s).1

  pub data Reachable (s : S) : S → Type 0 where
    start : Reachable s s
    next : {s' s'' : S} → Reachable s s' → Step s' s'' → Reachable s s''

  Step-Change :
      (s s' : S) → Unique laws same_slug s → Step s s' → Changed repo laws permissions s s'
  unfolding update assign_permissions revoke_permissions enable disable
  Step-Change s _ u (creating id dto tenant_id) =
      create_step repo laws permissions id dto tenant_id s
  Step-Change s _ u (updating id dto) =
      found_step repo laws permissions id
        (λ r s. update_unless repo permissions dto r (other_with repo permissions r dto.slug s) s) s
        (λ r at. update_step repo laws permissions dto r s u at)
  Step-Change s _ u (removing id) = remove_step repo laws permissions id s
  Step-Change s _ u (assigning id ids) =
      found_step repo laws permissions id (λ r. assign_to repo permissions r ids) s
        (λ r at. assign_step repo laws permissions ids r s u at)
  Step-Change s _ u (revoking id ids) =
      found_step repo laws permissions id (λ r. revoke_from repo permissions r ids) s
        (λ r at. revoke_step repo laws permissions ids r s u at)
  Step-Change s _ u (enabling id) =
      found_step repo laws permissions id (set_enabled repo permissions true) s
        (λ r at. enable_step repo laws permissions true r s u at)
  Step-Change s _ u (disabling id) =
      found_step repo laws permissions id (set_enabled repo permissions false) s
        (λ r at. enable_step repo laws permissions false r s u at)

  -- Whatever requests come, and whether or not their flushes go through, no two roles of a tenant
  -- get the same slug, where an empty slug does not count.
  pub Reachable-Unique_roles :
      (s s' : S) → Unique laws same_slug s → Reachable s s' → Unique laws same_slug s'
  Reachable-Unique_roles s _ u start = u
  Reachable-Unique_roles s s'' u (next {s' = before} r t) =
      let u' = Reachable-Unique_roles s before u r in
      Change-Unique laws same_slug before s'' same_slug_comm (Step-Change before s'' u' t) u'
