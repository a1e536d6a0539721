-- ===== src/SysPlugins/Permissions.antt =====
-- libs/sys-plugins/auth/src/lib/permissions.service.ts. A role holds the ids of its permissions and a
-- user those of its roles; the methods below ask for these collections to be loaded. Left out are
-- `assignPermissionToRole` and `assignRolesToUser`, which read a collection that they do not load,
-- the timestamps, and the queries `findAllRoles` and `findAllPermissions`, which only ask the database for a whole table.
pub mod Granted
mod Tests
use oksai_cc_api_server.Base.{
  String, Bool, true, false, Option, none, some, List, [], ◌∷◌, ◌++◌, if◌then◌else◌, ◌==◌,
  string_eq, includes,
}
use oksai_cc_api_server.Base.Exec.{Result, ok, err, Exec, ◌>>=◌, continue}
use oksai_cc_api_server.Base.Http.{HttpError, bad_request, not_found}
use oksai_cc_api_server.Orm.{
  Repository, create_entity, store_entity, remove_entity, given, given_optional, flushed,
}

pub data Effect : Type 0 where
  allow deny : Effect

pub record Role : Type 0 where
  pub id : String
  pub code : String
  pub name : String
  pub description : Option String
  pub permissions : List String

pub record Permission : Type 0 where
  pub id : String
  pub code : String
  pub name : String
  pub description : Option String
  pub resource : String
  pub action : String
  pub effect : Option Effect
  pub conditions : Option String

-- what the service reads and writes of a user
pub record RoleUser : Type 0 where
  pub id : String
  pub roles : List String

pub record CreateRoleDto : Type 0 where
  pub code : String
  pub name : String
  pub description : Option String

pub record UpdateRoleDto : Type 0 where
  pub name : Option String
  pub description : Option String

pub record CreatePermissionDto : Type 0 where
  pub code : String
  pub name : String
  pub description : Option String
  pub resource : String
  pub action : String
  pub effect : Option Effect
  pub conditions : Option String

pub record UpdatePermissionDto : Type 0 where
  pub name : Option String
  pub description : Option String
  pub effect : Option Effect
  pub conditions : Option String

unfoldable pub new_role : String → CreateRoleDto → Role
new_role id dto = record {
  id = id;
  code = dto.code;
  name = dto.name;
  description = dto.description;
  permissions = [];
}

unfoldable pub updated_role : UpdateRoleDto → Role → Role
updated_role dto r = record r {
  name = given dto.name r.name;
  description = given_optional dto.description r.description;
}

unfoldable pub new_permission : String → CreatePermissionDto → Permission
new_permission id dto = record {
  id = id;
  code = dto.code;
  name = dto.name;
  description = dto.description;
  resource = dto.resource;
  action = dto.action;
  effect = some (given dto.effect allow);
  conditions = dto.conditions;
}

unfoldable pub updated_permission : UpdatePermissionDto → Permission → Permission
updated_permission dto p = record p {
  name = given dto.name p.name;
  description = given_optional dto.description p.description;
  effect = given_optional dto.effect p.effect;
  conditions = given_optional dto.conditions p.conditions;
}

abbrev pub no_role : HttpError
no_role = not_found "未找到该角色"

abbrev pub no_permission : HttpError
no_permission = not_found "未找到该权限"

abbrev pub no_user : HttpError
no_user = not_found "未找到该用户"

-- `list.splice(list.indexOf(x), 1)`, where the list has `x`
unfoldable pub remove_first : String → List String → List String
remove_first k [] = []
remove_first k (j ∷ js) = let rest = remove_first k js in if j == k then js else j ∷ rest

-- `if (!found) throw`
abbrev pub found_or : {S A : Type 0} → HttpError → Option A → Exec HttpError S A
found_or x none s = (err x, s)
found_or x (some a) s = (ok a, s)

-- `if (existing) throw`
abbrev pub unless_found :
    {S A B : Type 0} → HttpError → Option A → Exec HttpError S B → Exec HttpError S B
unless_found x none f s = f s
unless_found x (some a) f s = (err x, s)

module _ {S : Type 0} (roles : Repository Role S) (permissions : Repository Permission S)
    (users : Repository RoleUser S) where
  abbrev pub role_of : String → S → Option Role
  role_of id s = roles.find_one (λ r. r.id == id) s

  unfoldable pub create_role : String → CreateRoleDto → Exec HttpError S Role
  unfolding new_role
  create_role id dto s =
      unless_found (bad_request "角色代码已存在") (roles.find_one (λ r. r.code == dto.code) s)
        (create_entity roles (new_role id dto)) s

  unfoldable pub update_role : String → UpdateRoleDto → Exec HttpError S Role
  unfolding updated_role
  update_role id dto = do
    r ← λ s. found_or no_role (role_of id s) s
    store_entity roles r.id (updated_role dto r)

  unfoldable pub delete_role : String → Exec HttpError S Unit
  delete_role id = do r ← λ s. found_or no_role (role_of id s) s; remove_entity roles r.id

  unfoldable pub find_role_by_code : String → S → Option Role
  find_role_by_code code s = roles.find_one (λ r. r.code == code) s

  abbrev pub permission_of : String → S → Option Permission
  permission_of id s = permissions.find_one (λ p. p.id == id) s

  unfoldable pub create_permission : String → CreatePermissionDto → Exec HttpError S Permission
  unfolding new_permission
  create_permission id dto s =
      unless_found (bad_request "权限代码已存在") (permissions.find_one (λ p. p.code == dto.code) s)
        (create_entity permissions (new_permission id dto)) s

  unfoldable pub update_permission : String → UpdatePermissionDto → Exec HttpError S Permission
  unfolding updated_permission
  update_permission id dto = do
    p ← λ s. found_or no_permission (permission_of id s) s
    store_entity permissions p.id (updated_permission dto p)

  unfoldable pub delete_permission : String → Exec HttpError S Unit
  delete_permission id = do
    p ← λ s. found_or no_permission (permission_of id s) s
    remove_entity permissions p.id

  unfoldable pub find_permission_by_code : String → S → Option Permission
  find_permission_by_code code s = permissions.find_one (λ p. p.code == code) s

  -- a role with a changed collection
  abbrev pub store_permissions : Role → List String → Exec HttpError S Unit
  store_permissions r held s =
      flushed tt (roles.update_row r.id (record r { permissions = held }) s)

  unfoldable pub remove_permission_from_role : String → String → Exec HttpError S Unit
  unfolding remove_first
  remove_permission_from_role role_id permission_id = do
    r ← λ s. found_or no_role (role_of role_id s) s
    λ s.
        if includes permission_id r.permissions
        then store_permissions r (remove_first permission_id r.permissions) s
        else (ok tt, s)

  abbrev pub user_of : String → S → Option RoleUser
  user_of id s = users.find_one (λ u. u.id == id) s

  abbrev pub store_roles : RoleUser → List String → Exec HttpError S Unit
  store_roles u held s = flushed tt (users.update_row u.id (record u { roles = held }) s)

  unfoldable pub remove_role_from_user : String → String → Exec HttpError S Unit
  unfolding remove_first
  remove_role_from_user user_id role_id = do
    u ← λ s. found_or no_user (user_of user_id s) s
    λ s.
        if includes role_id u.roles
        then store_roles u (remove_first role_id u.roles) s
        else (ok tt, s)

  unfoldable pub get_role_permissions : String → Exec HttpError S (List String)
  get_role_permissions role_id = do
    r ← λ s. found_or no_role (role_of role_id s) s
    λ s. (ok r.permissions, s)

  unfoldable pub get_user_roles : String → Exec HttpError S (List String)
  get_user_roles user_id = do u ← λ s. found_or no_user (user_of user_id s) s; λ s. (ok u.roles, s)

  abbrev pub permissions_in : Option Role → List String
  permissions_in none = []
  permissions_in (some r) = r.permissions

  -- the loop of `getUserPermissions`
  unfoldable pub permissions_of_roles : List String → S → List String
  permissions_of_roles [] s = []
  permissions_of_roles (id ∷ ids) s = permissions_in (role_of id s) ++ permissions_of_roles ids s

  unfoldable pub get_user_permissions : String → Exec HttpError S (List String)
  unfolding get_user_roles permissions_of_roles
  get_user_permissions user_id = do
    ids ← get_user_roles user_id
    λ s. (ok (permissions_of_roles ids s), s)
