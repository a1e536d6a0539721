-- ===== src/SysPlugins/Users/Requests.antt =====
-- Each request to the service of users and the table.
use oksai_cc_api_server.Base.{
  ℕ, suc, String, Bool, true, false, Option, some, List, ◌==◌, string_eq, ◌&&◌, ◌≡◌, refl, sym,
  arith, eq_iff, Option-cases, Bool-cases, inl, inr,
}
use oksai_cc_api_server.Core.Password.{validate_password_strength}
use oksai_cc_api_server.Orm.{Repository, RepositoryLaws}
use oksai_cc_api_server.Orm.Unique.{Unique}
use oksai_cc_api_server.SysPlugins.Passwords.{Passwords}
use oksai_cc_api_server.SysPlugins.Users.{
  User, CreateUserDto, new_user, create, create_unless, remove, change_user, update_avatar,
  deactivate, activate, update_last_login, update_password,
}
use oksai_cc_api_server.SysPlugins.Users.Changes.{
  same_email, Step, creating, updating, removing, new_avatar, new_password, deactivating,
  activating, logged_in, Replaces, UserChange, kept, deleted, create-UserChange, store-UserChange,
  find_one-cases,
}
use oksai_cc_api_server.SysPlugins.Users.Updates.{update_step}

module _ {S : Type 0} (repo : Repository User S) (laws : RepositoryLaws (λ u. u.id) repo)
    (passwords : Passwords) (current : Option String) where
  -- An entity that keeps its id, tenant and e-mail.
  keeping :
      (u e : User) (s : S)
      → Unique laws same_email s
      → laws.row u.id s ≡ some u
      → current ≡ some u.tenant_id
      → e.id ≡ u.id
      → e.tenant_id ≡ u.tenant_id
      → e.email ≡ u.email
      → Replaces repo laws passwords current s u e
  keeping u e s unique at own i t m = record {
    there = at;
    of_tenant = own;
    same_id = i;
    same_tenant = t;
    apart = λ b there c. sym (unique u b at there (ground arith));
  }

  change_user-UserChange :
      (id : String) (f : User → User) (s : S)
      → ((u : User) → ((f u).id ≡ u.id) × ((f u).tenant_id ≡ u.tenant_id) × ((f u).email ≡ u.email))
      → Unique laws same_email s
      → UserChange repo laws passwords current s (change_user repo passwords current id f s).1
  unfolding change_user
  change_user-UserChange id f s same unique =
      elim (find_one-cases repo laws passwords current id s) [
        | inl (x, e) ↦ rw e (kept (λ k. refl))
        | inr (u, e, at, own) ↦
            let (i, t, m) = same u in
            rw e (
              store-UserChange repo laws passwords current u (f u) s
                (keeping u (f u) s unique at own i t m))
      ]

  create_in :
      (id : String) (salt : List ℕ) (dto : CreateUserDto) (t : String) (s : S)
      → UserChange repo laws passwords
          (some t)
          s
          (create_unless repo passwords current id salt dto t
            (repo.find_one (λ u. u.email == dto.email && u.tenant_id == t) s)
            s).1
  unfolding create_unless new_user
  create_in id salt dto t s =
      let taken_by : User → Bool = λ u. u.email == dto.email && u.tenant_id == t in
      elim (Option-cases (repo.find_one taken_by s)) [
        | inr (u, taken) ↦ rw taken (kept (λ k. refl))
        | inl free ↦ elim (Bool-cases (validate_password_strength dto.password).valid) [
          | inr weak ↦ rw (free, weak) (kept (λ k. refl))
          | inl strong ↦
              let hashed = passwords.hash_password salt dto.password in
              rw (free, strong)
                (create-UserChange repo laws passwords (some t) (new_user id dto t hashed) s refl
                  (λ b at. ground (
                    arith,
                    laws.find_one_none taken_by s b.id b free at,
                    eq_iff dto.email b.email,
                    eq_iff b.email dto.email,
                    eq_iff t b.tenant_id,
                    eq_iff b.tenant_id t,
                  )))
        ]
      ]

  create_step :
      (id : String) (salt : List ℕ) (dto : CreateUserDto) (s : S)
      → UserChange repo laws passwords current s (create repo passwords current id salt dto s).1
  unfolding create new_user
  create_step id salt dto s = elim (Option-cases current) [
    | inl absent ↦ rw absent (kept (λ k. refl))
    | inr (t, of_tenant) ↦ elim (Bool-cases (t == "")) [
      | inl y ↦ rw (of_tenant, y) (kept (λ k. refl))
      | inr n ↦ rw (of_tenant, n) (create_in id salt dto t s)
    ]
  ]

  remove_step :
      (id : String) (s : S)
      → UserChange repo laws passwords current s (remove repo passwords current id s).1
  unfolding remove
  remove_step id s = elim (find_one-cases repo laws passwords current id s) [
    | inl (x, e) ↦ rw e (kept (λ k. refl))
    | inr (u, e, at, own) ↦ elim (Bool-cases (repo.delete_row u.id s).0) [
      | inl y ↦ rw (e, y) (deleted u at own (λ k. laws.row-delete u.id s k y))
      | inr n ↦ rw (e, n) (kept (λ k. laws.delete_failed u.id s k n))
    ]
  ]

  password_step :
      (id : String) (salt : List ℕ) (old new : List ℕ) (s : S)
      → Unique laws same_email s
      → UserChange repo laws passwords current s
          (update_password repo passwords current id salt old new s).1
  unfolding update_password
  password_step id salt old new s unique = elim (find_one-cases repo laws passwords current id s) [
    | inl (x, e) ↦ rw e (kept (λ k. refl))
    | inr (u, e, at, own) ↦ elim (Bool-cases (passwords.verify_password old u.password)) [
      | inr wrong ↦ rw (e, wrong) (kept (λ k. refl))
      | inl right ↦ elim (Bool-cases (validate_password_strength new).valid) [
        | inr weak ↦ rw (e, right, weak) (kept (λ k. refl))
        | inl strong ↦
            let v : User = record u { password = passwords.hash_password salt new } in
            rw (e, right, strong)
              (store-UserChange repo laws passwords current u v s
                (keeping u v s unique at own refl refl refl))
      ]
    ]
  ]

  -- A request changes at most one row, which is of the request's tenant.
  pub Step-UserChange :
      (s s' : S)
      → Unique laws same_email s
      → Step repo laws passwords current s s'
      → UserChange repo laws passwords current s s'
  unfolding update_avatar deactivate activate update_last_login
  Step-UserChange s _ u (creating id salt dto) = create_step id salt dto s
  Step-UserChange s _ u (updating id salt dto) =
      update_step repo laws passwords current id salt dto s u
  Step-UserChange s _ u (removing id) = remove_step id s
  Step-UserChange s _ u (new_avatar id avatar) =
      change_user-UserChange id (λ v. record v { avatar = some avatar }) s (λ v. (refl, refl, refl))
        u
  Step-UserChange s _ u (new_password id salt old new) = password_step id salt old new s u
  Step-UserChange s _ u (deactivating id) =
      change_user-UserChange id (λ v. record v { is_active = false }) s (λ v. (refl, refl, refl)) u
  Step-UserChange s _ u (activating id) =
      change_user-UserChange id (λ v. record v { is_active = true }) s (λ v. (refl, refl, refl)) u
  Step-UserChange s _ u (logged_in id now) =
      change_user-UserChange id
        (λ v. record v { last_login_at = some now; login_count = suc v.login_count }) s
        (λ v. (refl, refl, refl)) u
