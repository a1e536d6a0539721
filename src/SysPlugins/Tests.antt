-- ===== src/SysPlugins/Tests.antt =====
-- The services of users and roles on tables in memory.
use oksai_cc_api_server.Base.{
  String, true, none, some, List, [], ◌∷◌, codes, string_eq, ◌≡◌, ◌↔◌, ◌⊎◌, refl, arith, eq_iff,
}
use oksai_cc_api_server.Base.Exec.{ok}
use oksai_cc_api_server.Orm.{Repository}
use oksai_cc_api_server.Orm.Table.{table, table-RepositoryLaws, look_up}
use oksai_cc_api_server.Orm.Unique.{Unique, empty-Unique}
use oksai_cc_api_server.SysPlugins.PlainPasswords.{plain_passwords}
use oksai_cc_api_server.SysPlugins.Users
use oksai_cc_api_server.SysPlugins.Users.{User, CreateUserDto}
use oksai_cc_api_server.SysPlugins.Users.Changes
use oksai_cc_api_server.SysPlugins.Users.Changes.{same_email}
use oksai_cc_api_server.SysPlugins.Users.Isolation
use oksai_cc_api_server.SysPlugins.Users.Isolation.{Reachable-Unique_emails, Step-other_tenants}
use oksai_cc_api_server.SysPlugins.Roles
use oksai_cc_api_server.SysPlugins.Roles.{Role, RoleType, loaded, CreateRoleDto, assign_permissions}
use oksai_cc_api_server.SysPlugins.Roles.Unique as RoleSteps
use oksai_cc_api_server.SysPlugins.Roles.Changes.{same_slug}
use oksai_cc_api_server.SysPlugins.Roles.Unique.{Reachable-Unique_roles}
use oksai_cc_api_server.SysPlugins.Roles.Permissions.{Refused, Extended, holds-assign_permissions}
use oksai_cc_api_server.SysPlugins.Roles.Guard.{PermissionsMetadata, GuardUser, array, can_activate}
use oksai_cc_api_server.SysPlugins.Roles.Passes.{Passes, can_activate-Passes}

abbrev user_id : User → String
user_id u = u.id

abbrev users : Repository User (List User)
users = table user_id

abbrev ann : CreateUserDto
ann = record {
  email = "ann@one";
  password = codes "Passw0rd";
  first_name = "Ann";
  last_name = "Lee";
  details = record {
    role = none;
    is_active = none;
    avatar = none;
    phone_number = none;
    timezone = none;
    locale = none;
    preferred_language = none;
  };
}

no_users : Unique (table-RepositoryLaws user_id) same_email []
unfolding table
no_users = empty-Unique (table-RepositoryLaws user_id) same_email [] (λ p. refl)

abbrev one_user : List User
one_user = (Users.create users plain_passwords (some "t1") "u1" (codes "salt") ann []).1

Reachable-Unique_emails_example : Unique (table-RepositoryLaws user_id) same_email one_user
Reachable-Unique_emails_example =
    Reachable-Unique_emails users (table-RepositoryLaws user_id) plain_passwords [] one_user
      no_users
      (Isolation.next (some "t1") Isolation.start (Changes.creating "u1" (codes "salt") ann))

abbrev user_ann : User
user_ann = Users.new_user "u1" ann "t1" (codes "Passw0rd")

only_ann : Unique (table-RepositoryLaws user_id) same_email (user_ann ∷ [])
unfolding table-RepositoryLaws Users.new_user look_up
only_ann = λ a b ea eb c. ground (arith, eq_iff "u1" a.id, eq_iff "u1" b.id)

-- Another tenant cannot remove her.
Step-other_tenants_example :
    ((table-RepositoryLaws user_id).row user_ann.id (user_ann ∷ []) ≡ some user_ann) ↔ (
      (table-RepositoryLaws user_id).row user_ann.id
        (Users.remove users plain_passwords (some "t2") "u1" (user_ann ∷ [])).1
      ≡ some user_ann)
unfolding Users.new_user
Step-other_tenants_example =
    Step-other_tenants users (table-RepositoryLaws user_id) plain_passwords (some "t2")
      (user_ann ∷ []) (Users.remove users plain_passwords (some "t2") "u1" (user_ann ∷ [])).1
      user_ann only_ann (λ e. ground (arith, eq_iff "t2" "t1")) (Changes.removing "u1")

abbrev role_id : Role → String
role_id r = r.id

abbrev roles : Repository Role (List Role)
roles = table role_id

-- every permission exists
abbrev all_exist : List String → List Role → List String
all_exist ids s = ids

abbrev editor : CreateRoleDto
editor = record { name = "Editor"; slug = "editor"; description = "edits"; type = RoleType.user }

no_roles : Unique (table-RepositoryLaws role_id) same_slug []
unfolding table
no_roles = empty-Unique (table-RepositoryLaws role_id) same_slug [] (λ p. refl)

Reachable-Unique_roles_example :
    Unique
      (table-RepositoryLaws role_id)
      same_slug
      (Roles.create roles all_exist "r1" editor "t1" []).1
Reachable-Unique_roles_example =
    Reachable-Unique_roles roles (table-RepositoryLaws role_id) all_exist []
      (Roles.create roles all_exist "r1" editor "t1" []).1 no_roles
      (RoleSteps.next RoleSteps.start (RoleSteps.creating "r1" editor "t1"))

abbrev one_role : List Role
one_role = Roles.new_role "r1" editor "t1" ∷ []

abbrev changed_role : Role
changed_role = record (Roles.new_role "r1" editor "t1") { permissions = some (loaded ("p1" ∷ [])) }

holds-assign_permissions_example :
    Refused roles
      (table-RepositoryLaws role_id)
      all_exist
      (some (loaded ("p1" ∷ [])))
      ("p2" ∷ [])
      (assign_permissions roles all_exist "r1" ("p2" ∷ []) (changed_role ∷ []))
      (changed_role ∷ [])
    ⊎ Extended roles
        (table-RepositoryLaws role_id)
        all_exist
        "r1"
        (some (loaded ("p1" ∷ [])))
        ("p2" ∷ [])
        (assign_permissions roles all_exist "r1" ("p2" ∷ []) (changed_role ∷ []))
unfolding Roles.new_role table
holds-assign_permissions_example =
    holds-assign_permissions roles (table-RepositoryLaws role_id) all_exist "r1" "p2" []
      changed_role (changed_role ∷ []) refl (λ e same. rw same refl)

abbrev edit_users : PermissionsMetadata
edit_users = record { type = "USER"; action = "EDIT"; resource = some "user" }

abbrev editing_user : GuardUser
editing_user = record {
  role = "USER";
  permissions = some (record { type = "USER"; action = "EDIT"; resource = some "user" } ∷ []);
}

can_activate-Passes_example :
    (can_activate (array (edit_users ∷ [])) (some editing_user) ≡ ok true)
    ↔ Passes (array (edit_users ∷ [])) (some editing_user)
can_activate-Passes_example = can_activate-Passes (array (edit_users ∷ [])) (some editing_user)
