-- ===== src/SysPlugins/Permissions/Tests.antt =====
-- The service of permissions on tables in memory.
use oksai_cc_api_server.Base.{
  String, true, none, some, List, [], ◌∷◌, string_eq, includes, ◌≡◌, ◌↔◌, refl,
}
use oksai_cc_api_server.Orm.{Repository}
use oksai_cc_api_server.Orm.Table.{table}
use oksai_cc_api_server.Orm.Pair.{on_left, on_right}
use oksai_cc_api_server.SysPlugins.Permissions.{
  Role, Permission, RoleUser, user_of, get_user_permissions,
}
use oksai_cc_api_server.SysPlugins.Permissions.Granted.{HeldBy, get_user_permissions-HeldBy}

abbrev Tables : Type 0
Tables = List Role × (List Permission × List RoleUser)

abbrev roles : Repository Role Tables
roles = on_left (table (λ r. r.id))

abbrev permissions : Repository Permission Tables
permissions = on_right (on_left (table (λ p. p.id)))

abbrev users : Repository RoleUser Tables
users = on_right (on_right (table (λ u. u.id)))

abbrev editor : Role
editor = record {
  id = "r1";
  code = "editor";
  name = "Editor";
  description = none;
  permissions = "read" ∷ "write" ∷ [];
}

abbrev after : Tables
after = (editor ∷ [], ([], record { id = "u1"; roles = "r1" ∷ [] } ∷ []))

get_user_permissions-HeldBy_example :
    (includes {A = String} "write" ("read" ∷ "write" ∷ []) ≡ true) ↔ (
      (u : RoleUser) × (user_of roles permissions users "u1" after ≡ some u)
      × HeldBy roles permissions users "write" u.roles after)
unfolding get_user_permissions on_left on_right table
get_user_permissions-HeldBy_example =
    get_user_permissions-HeldBy roles permissions users "u1" "write" ("read" ∷ "write" ∷ []) after
      after refl
