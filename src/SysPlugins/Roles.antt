-- ===== src/SysPlugins/Roles.antt =====
-- libs/sys-plugins/role/src/lib/role.service.ts. A role's permissions are their ids, in a collection
-- that is loaded or not, as the ORM hands the role out; `permissions` is the query of the other table, which finds those of the given ids
-- that exist. The id of a new role is an argument. `permissionIds` of the transfer object names no
-- property of the entity and has no effect. The query `findAll` only hands a filter to the
-- database and is left out.
pub mod Changes
pub mod Unique
pub mod Permissions
pub mod Guard
pub mod Passes
use oksai_cc_api_server.Base.{
  String, Bool, true, false, not, Option, none, some, List, [], ◌∷◌, ◌++◌, if◌then◌else◌, ◌==◌,
  string_eq, ◌&&◌, includes,
}
use oksai_cc_api_server.Base.Exec.{Result, ok, err, Exec, ◌>>=◌, continue}
use oksai_cc_api_server.Base.Http.{HttpError, bad_request, not_found, not_initialized}
use oksai_cc_api_server.Orm.{
  Repository, create_entity, store_entity, remove_entity, given, given_optional,
}
use Prim.Native.String.{◌++◌ as concat}

pub data RoleType : Type 0 where
  admin manager user guest : RoleType

-- a collection of permissions: not initialised, or with the ids that it holds
pub data Collection : Type 0 where
  unloaded : Collection
  loaded : List String → Collection

pub record Role : Type 0 where
  pub id : String
  pub name : String
  pub slug : String
  pub type : RoleType
  pub description : Option String
  pub tenant_id : String
  pub is_enabled : Bool
  pub permissions : Option Collection

pub record CreateRoleDto : Type 0 where
  pub name : String
  pub slug : String
  pub description : String
  pub type : RoleType

pub record UpdateRoleDto : Type 0 where
  pub name : Option String
  pub slug : Option String
  pub description : Option String
  pub type : Option RoleType

unfoldable pub new_role : String → CreateRoleDto → String → Role
new_role id dto tenant_id = record {
  id = id;
  name = dto.name;
  slug = dto.slug;
  type = dto.type;
  description = some dto.description;
  tenant_id = tenant_id;
  is_enabled = true;
  permissions = none;
}

-- `Object.assign(role, dto)`
unfoldable pub updated_role : UpdateRoleDto → Role → Role
updated_role dto r = record r {
  name = given dto.name r.name;
  slug = given dto.slug r.slug;
  description = given_optional dto.description r.description;
  type = given dto.type r.type;
}

abbrev pub slug_is_taken : HttpError
slug_is_taken = bad_request "已存在使用此角色标识的角色"

-- the loop of `assignPermissions`
unfoldable pub add_missing : List String → List String → List String
add_missing held [] = held
add_missing held (p ∷ ps) = add_missing (if includes p held then held else held ++ (p ∷ [])) ps

-- the loop of `revokePermissions`
unfoldable pub remove_id : String → List String → List String
remove_id p [] = []
remove_id p (q ∷ qs) = if q == p then remove_id p qs else q ∷ remove_id p qs

unfoldable pub remove_held : List String → List String → List String
unfolding remove_id
remove_held held [] = held
remove_held held (p ∷ ps) = remove_held (if includes p held then remove_id p held else held) ps

module _ {S : Type 0} (repo : Repository Role S) (permissions : List String → S → List String) where
  unfoldable pub create_unless :
      String → CreateRoleDto → String → Option Role → Exec HttpError S Role
  create_unless id dto tenant_id (some r) s = (err slug_is_taken, s)
  create_unless id dto tenant_id none s = create_entity repo (new_role id dto tenant_id) s

  unfoldable pub create : String → CreateRoleDto → String → Exec HttpError S Role
  unfolding create_unless
  create id dto tenant_id s =
      create_unless id dto tenant_id
        (repo.find_one (λ r. r.slug == dto.slug && r.tenant_id == tenant_id) s) s

  abbrev pub or_not_found : String → Option Role → Exec HttpError S Role
  or_not_found id none s = (err (not_found (concat (concat "未找到 ID 为 " id) " 的角色")), s)
  or_not_found id (some r) s = (ok r, s)

  unfoldable pub find_one : String → Exec HttpError S Role
  find_one id s = or_not_found id (repo.find_one (λ r. r.id == id) s) s

  unfoldable pub find_by_slug : String → String → Exec HttpError S Role
  find_by_slug slug tenant_id s =
      elim (repo.find_one (λ r. r.slug == slug && r.tenant_id == tenant_id) s) [
        | none ↦ (err (not_found (concat (concat "未找到标识为 " slug) " 的角色")), s)
        | some r ↦ (ok r, s)
      ]

  -- the role that `update` looks for, if the new slug is neither undefined, empty nor the old one
  abbrev pub other_with : Role → Option String → S → Option Role
  other_with r none s = none
  other_with r (some slug) s =
      if not (slug == "") && not (slug == r.slug)
      then repo.find_one (λ q. q.slug == slug && q.tenant_id == r.tenant_id) s
      else none

  unfoldable pub update_unless : UpdateRoleDto → Role → Option Role → Exec HttpError S Role
  update_unless dto r (some other) s = (err slug_is_taken, s)
  update_unless dto r none s = store_entity repo r.id (updated_role dto r) s

  unfoldable pub update : String → UpdateRoleDto → Exec HttpError S Role
  unfolding find_one update_unless
  update id dto = do r ← find_one id; λ s. update_unless dto r (other_with r dto.slug s) s

  unfoldable pub remove : String → Exec HttpError S Unit
  unfolding find_one
  remove id = do r ← find_one id; remove_entity repo r.id

  abbrev pub no_ids : HttpError
  no_ids = bad_request "至少需要提供一个权限 ID"

  -- a role with other permissions
  abbrev pub with_permissions : List String → Role → Role
  with_permissions held r = record r { permissions = some (loaded held) }

  -- the permissions that were found go into the collection, which is made where there is none;
  -- `contains` throws on the first of them if the collection is not loaded
  unfoldable pub add_found : Role → Option Collection → List String → Exec HttpError S Role
  unfolding add_missing
  add_found r none found s = store_entity repo r.id (with_permissions (add_missing [] found) r) s
  add_found r (some unloaded) [] s = store_entity repo r.id r s
  add_found r (some unloaded) (p ∷ ps) s = (err not_initialized, s)
  add_found r (some (loaded held)) found s =
      store_entity repo r.id (with_permissions (add_missing held found) r) s

  unfoldable pub assign_to : Role → List String → Exec HttpError S Role
  unfolding add_found
  assign_to r [] s = (err no_ids, s)
  assign_to r (p ∷ ps) s = add_found r r.permissions (permissions (p ∷ ps) s) s

  unfoldable pub assign_permissions : String → List String → Exec HttpError S Role
  unfolding find_one assign_to
  assign_permissions id ids = do r ← find_one id; assign_to r ids

  unfoldable pub remove_found : Role → Collection → List String → Exec HttpError S Role
  unfolding remove_held
  remove_found r unloaded [] s = store_entity repo r.id r s
  remove_found r unloaded (p ∷ ps) s = (err not_initialized, s)
  remove_found r (loaded held) found s =
      store_entity repo r.id (with_permissions (remove_held held found) r) s

  unfoldable pub revoke_held : Role → List String → Option Collection → Exec HttpError S Role
  unfolding remove_found
  revoke_held r ids none s = (ok r, s)
  revoke_held r ids (some c) s = remove_found r c (permissions ids s) s

  unfoldable pub revoke_from : Role → List String → Exec HttpError S Role
  unfolding revoke_held
  revoke_from r [] s = (err no_ids, s)
  revoke_from r (p ∷ ps) s = revoke_held r (p ∷ ps) r.permissions s

  unfoldable pub revoke_permissions : String → List String → Exec HttpError S Role
  unfolding find_one revoke_from
  revoke_permissions id ids = do r ← find_one id; revoke_from r ids

  unfoldable pub set_enabled : Bool → Role → Exec HttpError S Role
  set_enabled true r s =
      if r.is_enabled then (ok r, s) else store_entity repo r.id (record r { is_enabled = true }) s
  set_enabled false r s =
      if r.is_enabled then store_entity repo r.id (record r { is_enabled = false }) s else (ok r, s)

  unfoldable pub enable : String → Exec HttpError S Role
  unfolding find_one set_enabled
  enable id = do r ← find_one id; set_enabled true r

  unfoldable pub disable : String → Exec HttpError S Role
  unfolding find_one set_enabled
  disable id = do r ← find_one id; set_enabled false r
