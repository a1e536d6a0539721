-- ===== src/SysPlugins/Roles/Changes.antt =====
-- What each request of the service of roles does to the slugs of the table.
use oksai_cc_api_server.Base.{
  String, Bool, true, false, not, Option, none, some, List, [], ◌∷◌, if◌then◌else◌, ◌==◌, string_eq,
  ◌&&◌, ◌≡◌, refl, sym, subst, arith, eq_iff, Option-cases, Bool-cases, inl, inr,
}
use oksai_cc_api_server.Base.Exec.{ok, Exec, continue}
use oksai_cc_api_server.Base.Http.{HttpError}
use oksai_cc_api_server.Orm.{Repository, RepositoryLaws, store_entity}
use oksai_cc_api_server.Orm.Unique.{
  Unique, ClashesOnly, Change, kept, same-ClashesOnly, create-Change, store-Change, remove-Change,
}
use oksai_cc_api_server.SysPlugins.Roles.{
  Collection, unloaded, loaded, add_found, remove_found, revoke_held, Role, CreateRoleDto,
  UpdateRoleDto, new_role, updated_role, create, find_one, other_with, update_unless, remove,
  assign_to, revoke_from, add_missing, remove_held, with_permissions, set_enabled,
}

-- The same slug, which is not empty, in one tenant.
abbrev pub same_slug : Role → Role → Bool
same_slug a b = a.slug == b.slug && a.tenant_id == b.tenant_id && not (a.slug == "")

pub same_slug_comm : (a b : Role) → same_slug a b ≡ same_slug b a
same_slug_comm a b = ground (
  arith,
  eq_iff a.slug b.slug,
  eq_iff b.slug a.slug,
  eq_iff a.tenant_id b.tenant_id,
  eq_iff b.tenant_id a.tenant_id,
)

module _ {S : Type 0} (repo : Repository Role S) (laws : RepositoryLaws (λ r. r.id) repo)
    (permissions : List String → S → List String) where
  abbrev pub Changed : S → S → Type 0
  Changed s s' = Change laws same_slug s s'

  pub create_step :
      (id : String) (dto : CreateRoleDto) (tenant_id : String) (s : S)
      → Changed s (create repo permissions id dto tenant_id s).1
  unfolding create new_role
  create_step id dto tenant_id s =
      let taken_by : Role → Bool = λ r. r.slug == dto.slug && r.tenant_id == tenant_id in
      elim (Option-cases (repo.find_one taken_by s)) [
        | inr (r, taken) ↦ rw taken (kept (λ k. refl))
        | inl free ↦ rw free (
            create-Change laws same_slug (new_role id dto tenant_id) s (λ b at. ground (
              arith,
              laws.find_one_none taken_by s b.id b free at,
              eq_iff dto.slug b.slug,
              eq_iff b.slug dto.slug,
              eq_iff tenant_id b.tenant_id,
              eq_iff b.tenant_id tenant_id,
            )))
      ]

  -- a role that keeps its slug and its tenant
  keeping :
      (r e : Role) (s : S)
      → Unique laws same_slug s
      → laws.row r.id s ≡ some r
      → e.slug ≡ r.slug
      → e.tenant_id ≡ r.tenant_id
      → Changed s (store_entity repo r.id e s).1
  keeping r e s unique at slug tenant =
      store-Change laws same_slug r.id e s
        (same-ClashesOnly laws same_slug r e s unique at (λ b. ground arith))

  -- the methods that find the role first
  pub found_step :
      (id : String) (f : Role → Exec HttpError S Role) (s : S)
      → ((r : Role) → laws.row r.id s ≡ some r → Changed s (f r s).1)
      → Changed s
          (continue (find_one repo permissions id s).0 f (find_one repo permissions id s).1).1
  unfolding find_one
  found_step id f s step = elim (Option-cases (repo.find_one (λ r. r.id == id) s)) [
    | inl missing ↦ rw missing (kept (λ k. refl))
    | inr (r, found) ↦ rw found (step r (laws.find_one_some (λ r. r.id == id) s r found).0)
  ]

  renamed :
      (dto : UpdateRoleDto) (r : Role) (s : S)
      → Unique laws same_slug s
      → laws.row r.id s ≡ some r
      → other_with repo permissions r dto.slug s ≡ none
      → ClashesOnly laws same_slug r.id (updated_role dto r) s
  unfolding updated_role
  renamed dto r s unique at free = λ b there c. elim (Option-cases dto.slug) [
    | inl absent ↦ sym (unique r b at there (ground arith))
    | inr (slug, new) ↦ elim (Bool-cases (slug == r.slug)) [
      | inl same ↦ sym (unique r b at there (ground (arith, eq_iff slug r.slug, same)))
      | inr moved ↦ ground (
        arith,
        laws.find_one_none (λ q. q.slug == slug && q.tenant_id == r.tenant_id) s b.id b,
        eq_iff slug b.slug,
        eq_iff b.slug slug,
        eq_iff r.tenant_id b.tenant_id,
        eq_iff b.tenant_id r.tenant_id,
        moved,
      )
    ]
  ]

  pub update_step :
      (dto : UpdateRoleDto) (r : Role) (s : S)
      → Unique laws same_slug s
      → laws.row r.id s ≡ some r
      → Changed s
          (update_unless repo permissions dto r (other_with repo permissions r dto.slug s) s).1
  unfolding update_unless
  update_step dto r s unique at = elim (Option-cases (other_with repo permissions r dto.slug s)) [
    | inr (q, taken) ↦ rw taken (kept (λ k. refl))
    | inl free ↦
        rw free
          (store-Change laws same_slug r.id (updated_role dto r) s (renamed dto r s unique at free))
  ]

  add_found_step :
      (c : Option Collection) (found : List String) (r : Role) (s : S)
      → Unique laws same_slug s
      → laws.row r.id s ≡ some r
      → Changed s (add_found repo permissions r c found s).1
  unfolding add_found
  add_found_step none found r s unique at =
      keeping r (with_permissions repo permissions (add_missing [] found) r) s unique at refl refl
  add_found_step (some unloaded) [] r s unique at = keeping r r s unique at refl refl
  add_found_step (some unloaded) (p ∷ ps) r s unique at = kept (λ k. refl)
  add_found_step (some (loaded held)) found r s unique at =
      keeping r (with_permissions repo permissions (add_missing held found) r) s unique at refl refl

  remove_found_step :
      (c : Collection) (found : List String) (r : Role) (s : S)
      → Unique laws same_slug s
      → laws.row r.id s ≡ some r
      → Changed s (remove_found repo permissions r c found s).1
  unfolding remove_found
  remove_found_step unloaded [] r s unique at = keeping r r s unique at refl refl
  remove_found_step unloaded (p ∷ ps) r s unique at = kept (λ k. refl)
  remove_found_step (loaded held) found r s unique at =
      keeping r (with_permissions repo permissions (remove_held held found) r) s unique at refl refl

  revoke_held_step :
      (c : Option Collection) (ids : List String) (r : Role) (s : S)
      → Unique laws same_slug s
      → laws.row r.id s ≡ some r
      → Changed s (revoke_held repo permissions r ids c s).1
  unfolding revoke_held
  revoke_held_step none ids r s unique at = kept (λ k. refl)
  revoke_held_step (some c) ids r s unique at =
      remove_found_step c (permissions ids s) r s unique at

  pub assign_step :
      (ids : List String) (r : Role) (s : S)
      → Unique laws same_slug s
      → laws.row r.id s ≡ some r
      → Changed s (assign_to repo permissions r ids s).1
  unfolding assign_to
  assign_step [] r s unique at = kept (λ k. refl)
  assign_step (p ∷ ps) r s unique at =
      add_found_step r.permissions (permissions (p ∷ ps) s) r s unique at

  pub revoke_step :
      (ids : List String) (r : Role) (s : S)
      → Unique laws same_slug s
      → laws.row r.id s ≡ some r
      → Changed s (revoke_from repo permissions r ids s).1
  unfolding revoke_from
  revoke_step [] r s unique at = kept (λ k. refl)
  revoke_step (p ∷ ps) r s unique at = revoke_held_step r.permissions (p ∷ ps) r s unique at

  pub enable_step :
      (b : Bool) (r : Role) (s : S)
      → Unique laws same_slug s
      → laws.row r.id s ≡ some r
      → Changed s (set_enabled repo permissions b r s).1
  unfolding set_enabled
  enable_step true r s unique at = elim (Bool-cases r.is_enabled) [
    | inl y ↦ rw y (kept (λ k. refl))
    | inr n ↦
        let changed = keeping r (record r { is_enabled = true }) s unique at refl refl in
        subst
          (λ c.
            Changed s
              (if c
                then (ok r, s)
                else store_entity repo r.id (record r { is_enabled = true }) s).1)
          (sym n) changed
  ]
  enable_step false r s unique at = elim (Bool-cases r.is_enabled) [
    | inr n ↦ rw n (kept (λ k. refl))
    | inl y ↦
        let changed = keeping r (record r { is_enabled = false }) s unique at refl refl in
        subst
          (λ c.
            Changed s
              (if c
                then store_entity repo r.id (record r { is_enabled = false }) s
                else (ok r, s)).1)
          (sym y) changed
  ]

  pub remove_step : (id : String) (s : S) → Changed s (remove repo permissions id s).1
  unfolding remove
  remove_step id s = elim (Option-cases (repo.find_one (λ r. r.id == id) s)) [
    | inl missing ↦ rw missing (kept (λ k. refl))
    | inr (r, found) ↦ rw found (remove-Change laws same_slug r.id s)
  ]
