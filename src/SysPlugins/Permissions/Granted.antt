-- ===== src/SysPlugins/Permissions/Granted.antt =====
-- The permissions that a user has by its roles.
use oksai_cc_api_server.Base.{
  String, true, some, List, [], ◌∷◌, ◌++◌, ◌==◌, string_eq, includes, ◌||◌, ◌≡◌, ◌↔◌, refl, sym, ap,
  ◌∙◌, arith, eq_iff, Option-cases, Bool-cases, inl, inr, subst,
}
use oksai_cc_api_server.Base.Exec.{ok}
use oksai_cc_api_server.Orm.{Repository}
use oksai_cc_api_server.SysPlugins.Permissions.{
  Role, Permission, RoleUser, role_of, user_of, permissions_in, permissions_of_roles,
  get_user_permissions,
}

includes-++ :
    (k : String) (xs ys : List String) → includes k (xs ++ ys) ≡ (includes k xs || includes k ys)
includes-++ k [] ys = refl
includes-++ k (x ∷ xs) ys = ground (arith, includes-++ k xs ys)

module _ {S : Type 0} (roles : Repository Role S) (permissions : Repository Permission S)
    (users : Repository RoleUser S) where
  -- One of the roles exists and holds the permission.
  abbrev pub HeldBy : String → List String → S → Type 0
  HeldBy p ids s =
      (id : String) × (r : Role) × (includes id ids ≡ true)
      × (role_of roles permissions users id s ≡ some r)
      × (includes p r.permissions ≡ true)

  permissions_of_roles-HeldBy :
      (p : String) (ids : List String) (s : S)
      → includes p (permissions_of_roles roles permissions users ids s) ≡ true
      → HeldBy p ids s
  unfolding permissions_of_roles
  permissions_of_roles-HeldBy p [] s h = ground arith
  permissions_of_roles-HeldBy p (id ∷ ids) s h =
      let own = permissions_in roles permissions users (role_of roles permissions users id s) in
      let rest = permissions_of_roles roles permissions users ids s in
      elim (Bool-cases (includes p own)) [
        | inl here ↦ elim (Option-cases (role_of roles permissions users id s)) [
          | inl missing ↦ absurd (ground (arith, here, missing))
          | inr (r, found) ↦
              (id, r, ground (arith, eq_iff id id), found, ground (arith, here, found))
        ]
        | inr n ↦
            let (j, r, at, found, holds) =
              permissions_of_roles-HeldBy p ids s (ground (arith, n, includes-++ p own rest)) in
            (j, r, ground (arith, at), found, holds)
      ]

  HeldBy-permissions_of_roles :
      (p : String) (ids : List String) (s : S)
      → HeldBy p ids s
      → includes p (permissions_of_roles roles permissions users ids s) ≡ true
  unfolding permissions_of_roles
  HeldBy-permissions_of_roles p [] s (j, r, at, found, holds) = ground (arith, at)
  HeldBy-permissions_of_roles p (id ∷ ids) s (j, r, at, found, holds) =
      let own = permissions_in roles permissions users (role_of roles permissions users id s) in
      let rest = permissions_of_roles roles permissions users ids s in
      elim (Bool-cases (id == j)) [
        | inl same ↦
            let here : role_of roles permissions users id s ≡ some r =
              ap (λ i. role_of roles permissions users i s) (ground (arith, same, eq_iff id j))
              ∙ found in
            includes-++ p own rest
            ∙ ap (λ o. includes p (permissions_in roles permissions users o) || includes p rest)
                here
            ∙ rw holds refl
        | inr other ↦
            let there =
              HeldBy-permissions_of_roles p ids s (j, r, ground (arith, at, other), found, holds) in
            ground (arith, includes-++ p own rest, there)
      ]

  -- `getUserPermissions` lists a permission exactly when the user has a role that exists and holds
  -- it.
  pub get_user_permissions-HeldBy :
      (user_id p : String) (ps : List String) (s s' : S)
      → get_user_permissions roles permissions users user_id s ≡ (ok ps, s')
      → (includes p ps ≡ true) ↔ (
          (u : RoleUser) × (user_of roles permissions users user_id s ≡ some u)
          × HeldBy p u.roles s)
  unfolding get_user_permissions
  get_user_permissions-HeldBy user_id p ps s s' went =
      elim (Option-cases (user_of roles permissions users user_id s)) [
        | inl missing ↦ absurd (ground (arith, went, missing))
        | inr (u, found) ↦
            let same : ps ≡ permissions_of_roles roles permissions users u.roles s =
              ground (arith, went, found) in
            (
              λ h. (
                u,
                found,
                permissions_of_roles-HeldBy p u.roles s (sym (ap (includes p) same) ∙ h),
              ),
              λ (v, there, held).
                  let same_user : v ≡ u = ground (arith, there, found) in
                  ap (includes p) same
                  ∙ HeldBy-permissions_of_roles p u.roles s
                      (subst (λ (w : RoleUser). HeldBy p w.roles s) same_user held),
            )
      ]
