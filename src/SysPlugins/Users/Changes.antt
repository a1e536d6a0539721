-- ===== src/SysPlugins/Users/Changes.antt =====
-- What a request to the service of users may do to the table.
use oksai_cc_api_server.Base.{
  ℕ, String, Bool, false, not, Option, none, some, List, if◌then◌else◌, ◌==◌, string_eq, ◌&&◌, ◌≡◌,
  ◌⊎◌, refl, arith, eq_iff, Option-cases, Bool-cases, inl, inr,
}
use oksai_cc_api_server.Base.Exec.{ok, err}
use oksai_cc_api_server.Base.Http.{HttpError}
use oksai_cc_api_server.Orm.{Repository, RepositoryLaws, create_entity, store_entity}
use oksai_cc_api_server.Orm.Unique.{ClashesOnly}
use oksai_cc_api_server.SysPlugins.Passwords.{Passwords}
use oksai_cc_api_server.SysPlugins.Users.{
  User, CreateUserDto, UpdateUserDto, create, find_one, update, remove, update_avatar, deactivate,
  activate, update_last_login, update_password, no_tenant, no_user,
}

-- The same tenant and the same e-mail, which is not empty.
abbrev pub same_email : User → User → Bool
same_email a b = a.email == b.email && a.tenant_id == b.tenant_id && not (a.email == "")

module _ {S : Type 0} (repo : Repository User S) (laws : RepositoryLaws (λ u. u.id) repo)
    (passwords : Passwords) where
  pub data Step (current : Option String) (s : S) : S → Type 0 where
    creating :
        (id : String) (salt : List ℕ) (dto : CreateUserDto)
        → Step current s (create repo passwords current id salt dto s).1
    updating :
        (id : String) (salt : List ℕ) (dto : UpdateUserDto)
        → Step current s (update repo passwords current id salt dto s).1
    removing : (id : String) → Step current s (remove repo passwords current id s).1
    new_avatar :
        (id avatar : String) → Step current s (update_avatar repo passwords current id avatar s).1
    new_password :
        (id : String) (salt : List ℕ) (old new : List ℕ)
        → Step current s (update_password repo passwords current id salt old new s).1
    deactivating : (id : String) → Step current s (deactivate repo passwords current id s).1
    activating : (id : String) → Step current s (activate repo passwords current id s).1
    logged_in :
        (id : String) (now : ℕ)
        → Step current s (update_last_login repo passwords current id now s).1

  -- `e` is what a user of the request's tenant may become.
  pub record Replaces (current : Option String) (s : S) (u e : User) : Type 0 where
    pub there : laws.row u.id s ≡ some u
    pub of_tenant : current ≡ some u.tenant_id
    pub same_id : e.id ≡ u.id
    pub same_tenant : e.tenant_id ≡ u.tenant_id
    pub apart : ClashesOnly laws same_email u.id e s

  pub data UserChange (current : Option String) (s : S) : S → Type 0 where
    kept : {s' : S} → ((k : String) → laws.row k s' ≡ laws.row k s) → UserChange current s s'
    added :
        {s' : S} (e : User)
        → current ≡ some e.tenant_id
        → laws.row e.id s ≡ none
        → ((b : User) → laws.row b.id s ≡ some b → same_email e b ≡ false)
        → ((k : String) → laws.row k s' ≡ (if e.id == k then some e else laws.row k s))
        → UserChange current s s'
    replaced :
        {s' : S} (u e : User)
        → Replaces current s u e
        → ((k : String)
            → laws.row k s'
              ≡ (if e.id == k then some e else if u.id == k then none else laws.row k s))
        → UserChange current s s'
    deleted :
        {s' : S} (u : User)
        → laws.row u.id s ≡ some u
        → current ≡ some u.tenant_id
        → ((k : String) → laws.row k s' ≡ (if u.id == k then none else laws.row k s))
        → UserChange current s s'

  pub create-UserChange :
      (current : Option String) (e : User) (s : S)
      → current ≡ some e.tenant_id
      → ((b : User) → laws.row b.id s ≡ some b → same_email e b ≡ false)
      → UserChange current s (create_entity repo e s).1
  create-UserChange current e s own apart = elim (Bool-cases (repo.insert e s).0) [
    | inl y ↦ rw y (added e own (laws.insert_fresh e s y) apart (λ k. laws.row-insert e s k y))
    | inr n ↦ rw n (kept (λ k. laws.insert_failed e s k n))
  ]

  pub store-UserChange :
      (current : Option String) (u e : User) (s : S)
      → Replaces current s u e
      → UserChange current s (store_entity repo u.id e s).1
  store-UserChange current u e s r = elim (Bool-cases (repo.update_row u.id e s).0) [
    | inl y ↦ rw y (replaced u e r (λ k. laws.row-update u.id e s k y))
    | inr n ↦ rw n (kept (λ k. laws.update_failed u.id e s k n))
  ]

  -- What `findOne` of the service finds, if it finds a user.
  pub find_one-cases :
      (current : Option String) (id : String) (s : S)
      → ((x : HttpError) × (find_one repo passwords current id s ≡ (err x, s)))
        ⊎ ((u : User) × (find_one repo passwords current id s ≡ (ok u, s))
            × (laws.row u.id s ≡ some u)
            × (current ≡ some u.tenant_id))
  unfolding find_one
  find_one-cases none id s = inl (no_tenant, refl)
  find_one-cases (some t) id s = elim (Bool-cases (t == "")) [
    | inl y ↦ inl (no_tenant, rw y refl)
    | inr n ↦ elim (Option-cases (repo.find_one (λ u. u.id == id && u.tenant_id == t) s)) [
      | inl missing ↦ inl (no_user id, rw (n, missing) refl)
      | inr (u, found) ↦
          let (at, own) = laws.find_one_some (λ u. u.id == id && u.tenant_id == t) s u found in
          inr (u, rw (n, found) refl, at, ground (arith, own, eq_iff u.tenant_id t))
    ]
  ]
