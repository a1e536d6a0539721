-- ===== src/SysPlugins/Users/Updates.antt =====
-- `update` of the service of users and the table.
use oksai_cc_api_server.Base.{
  ℕ, String, Bool, not, Option, none, some, List, ◌==◌, string_eq, ◌&&◌, ◌≡◌, refl, sym, arith,
  eq_iff, Option-cases, Bool-cases, inl, inr,
}
use oksai_cc_api_server.Core.Password.{validate_password_strength}
use oksai_cc_api_server.Orm.{Repository, RepositoryLaws}
use oksai_cc_api_server.Orm.Unique.{Unique}
use oksai_cc_api_server.SysPlugins.Passwords.{Passwords}
use oksai_cc_api_server.SysPlugins.Users.{
  User, UpdateUserDto, updated_user, other_with, update_unless, update,
}
use oksai_cc_api_server.SysPlugins.Users.Changes.{
  same_email, Replaces, UserChange, kept, store-UserChange,
}

module _ {S : Type 0} (repo : Repository User S) (laws : RepositoryLaws (λ u. u.id) repo)
    (passwords : Passwords) (current : Option String) where
  updated :
      (id : String) (dto : UpdateUserDto) (hashed : Option (List ℕ)) (u : User) (t : String) (s : S)
      → Unique laws same_email s
      → laws.row u.id s ≡ some u
      → u.tenant_id ≡ t
      → u.id ≡ id
      → other_with repo passwords current id t dto.email s ≡ none
      → Replaces repo laws passwords (some t) s u (updated_user dto hashed u)
  unfolding updated_user
  updated id dto hashed u t s unique at own same free = record {
    there = at;
    of_tenant = rw own refl;
    same_id = refl;
    same_tenant = refl;
    apart = λ b there c. elim (Option-cases dto.email) [
      | inl absent ↦ sym (unique u b at there (ground arith))
      | inr (email, new) ↦ ground (
        arith,
        eq_iff email b.email,
        eq_iff b.email email,
        eq_iff b.tenant_id t,
        eq_iff u.tenant_id b.tenant_id,
        eq_iff b.id id,
        laws.find_one_none (λ v. v.email == email && v.tenant_id == t && not (v.id == id)) s b.id b,
      )
    ];
  }

  update_found :
      (id : String) (salt : List ℕ) (dto : UpdateUserDto) (u : User) (t : String) (s : S)
      → Unique laws same_email s
      → laws.row u.id s ≡ some u
      → u.tenant_id ≡ t
      → u.id ≡ id
      → UserChange repo laws passwords
          (some t)
          s
          (update_unless repo passwords current salt dto u
            (other_with repo passwords current id t dto.email s)
            s).1
  unfolding update_unless updated_user
  update_found id salt dto u t s unique at own same =
      elim (Option-cases (other_with repo passwords current id t dto.email s)) [
        | inr (other, taken) ↦ rw taken (kept (λ k. refl))
        | inl free ↦ elim (Option-cases dto.password) [
          | inl absent ↦
              rw (free, absent)
                (store-UserChange repo laws passwords (some t) u (updated_user dto none u) s
                  (updated id dto none u t s unique at own same free))
          | inr (password, new) ↦ elim (Bool-cases (validate_password_strength password).valid) [
            | inr weak ↦ rw (free, new, weak) (kept (λ k. refl))
            | inl strong ↦
                let hashed = some (passwords.hash_password salt password) in
                rw (free, new, strong)
                  (store-UserChange repo laws passwords (some t) u (updated_user dto hashed u) s
                    (updated id dto hashed u t s unique at own same free))
          ]
        ]
      ]

  pub update_step :
      (id : String) (salt : List ℕ) (dto : UpdateUserDto) (s : S)
      → Unique laws same_email s
      → UserChange repo laws passwords current s (update repo passwords current id salt dto s).1
  unfolding update
  update_step id salt dto s unique = elim (Option-cases current) [
    | inl absent ↦ rw absent (kept (λ k. refl))
    | inr (t, of_tenant) ↦ elim (Bool-cases (t == "")) [
      | inl y ↦ rw (of_tenant, y) (kept (λ k. refl))
      | inr n ↦
          let wanted : User → Bool = λ u. u.id == id && u.tenant_id == t in
          elim (Option-cases (repo.find_one wanted s)) [
            | inl missing ↦ rw (of_tenant, n, missing) (kept (λ k. refl))
            | inr (u, found) ↦
                let (at, own) = laws.find_one_some wanted s u found in
                rw (of_tenant, n, found)
                  (update_found id salt dto u t s unique at
                    (ground (arith, own, eq_iff u.tenant_id t))
                    (ground (arith, own, eq_iff u.id id)))
          ]
    ]
  ]
