-- ===== src/SysPlugins/Tenants/Unique.antt =====
-- The service of tenants and the slugs of the table.
use oksai_cc_api_server.Base.{
  String, Bool, not, none, some, ◌==◌, string_eq, ◌&&◌, ◌≡◌, refl, sym, arith, eq_iff, Option-cases,
  inl, inr,
}
use oksai_cc_api_server.Orm.{Repository, RepositoryLaws}
use oksai_cc_api_server.Orm.Unique.{
  Unique, ClashesOnly, Change, kept, Change-Unique, create-Change, store-Change, remove-Change,
}
use oksai_cc_api_server.SysPlugins.Tenants.{
  Tenant, CreateTenantDto, UpdateTenantDto, new_tenant, updated_tenant, create, other_with, update,
  remove, suspend, activate, active, suspended,
}

-- The same slug, which is not empty.
abbrev pub same_slug : Tenant → Tenant → Bool
same_slug a b = a.slug == b.slug && not (a.slug == "")

same_slug_comm : (a b : Tenant) → same_slug a b ≡ same_slug b a
same_slug_comm a b = ground (arith, eq_iff a.slug b.slug, eq_iff b.slug a.slug)

module _ {S : Type 0} (repo : Repository Tenant S) (laws : RepositoryLaws (λ t. t.id) repo) where
  pub data Step (s : S) : S → Type 0 where
    creating : (id : String) (dto : CreateTenantDto) → Step s (create repo id dto s).1
    updating : (id : String) (dto : UpdateTenantDto) → Step s (update repo id dto s).1
    removing : (id : String) → Step s (remove repo id s).1
    suspending : (id : String) → Step s (suspend repo id s).1
    activating : (id : String) → Step s (activate repo id s).1

  pub data Reachable (s : S) : S → Type 0 where
    start : Reachable s s
    next : {s' s'' : S} → Reachable s s' → Step s' s'' → Reachable s s''

  create-Change_slug :
      (id : String) (dto : CreateTenantDto) (s : S)
      → Change laws same_slug s (create repo id dto s).1
  unfolding create new_tenant
  create-Change_slug id dto s = elim (Option-cases (repo.find_one (λ t. t.slug == dto.slug) s)) [
    | inl free ↦ rw free (
        create-Change laws same_slug (new_tenant id dto) s (λ b at. ground (
          arith,
          laws.find_one_none (λ t. t.slug == dto.slug) s b.id b free at,
          eq_iff dto.slug b.slug,
          eq_iff b.slug dto.slug,
        )))
    | inr (t, taken) ↦ rw taken (kept (λ k. refl))
  ]

  -- what a found tenant becomes, if its slug stays or is not another's
  keeping :
      (t e : Tenant) (s : S)
      → Unique laws same_slug s
      → laws.row t.id s ≡ some t
      → e.slug ≡ t.slug
      → ClashesOnly laws same_slug t.id e s
  keeping t e s u at same = λ b there c. sym (u t b at there (ground arith))

  store_found :
      (id : String) (f : Tenant → Tenant) (s : S)
      → ((t : Tenant) → (f t).slug ≡ t.slug)
      → Unique laws same_slug s
      → (t : Tenant) → repo.find_one (λ t. t.id == id) s ≡ some t
      → ClashesOnly laws same_slug t.id (f t) s
  store_found id f s same u t found =
      keeping t (f t) s u (laws.find_one_some (λ t. t.id == id) s t found).0 (same t)

  moved :
      (id : String) (dto : UpdateTenantDto) (t : Tenant) (s : S)
      → Unique laws same_slug s
      → laws.row t.id s ≡ some t
      → t.id ≡ id
      → other_with repo id dto.slug s ≡ none
      → ClashesOnly laws same_slug t.id (updated_tenant dto t) s
  unfolding updated_tenant
  moved id dto t s u at own free = λ b there c. elim (Option-cases dto.slug) [
    | inl absent ↦ sym (u t b at there (ground arith))
    | inr (slug, new) ↦ ground (
      arith,
      laws.find_one_none (λ t. t.slug == slug && not (t.id == id)) s b.id b,
      eq_iff b.id id,
      eq_iff slug b.slug,
      eq_iff b.slug slug,
    )
  ]

  Step-Change : (s s' : S) → Unique laws same_slug s → Step s s' → Change laws same_slug s s'
  unfolding update remove suspend activate
  Step-Change s _ u (creating id dto) = create-Change_slug id dto s
  Step-Change s _ u (updating id dto) = elim (Option-cases (repo.find_one (λ t. t.id == id) s)) [
    | inl missing ↦ rw missing (kept (λ k. refl))
    | inr (t, found) ↦
        let (at, own) = laws.find_one_some (λ t. t.id == id) s t found in
        elim (Option-cases (other_with repo id dto.slug s)) [
          | inl free ↦
              rw (found, free)
                (store-Change laws same_slug t.id (updated_tenant dto t) s
                  (moved id dto t s u at (ground (arith, own, eq_iff t.id id)) free))
          | inr (other, taken) ↦ rw (found, taken) (kept (λ k. refl))
        ]
  ]
  Step-Change s _ u (removing id) = elim (Option-cases (repo.find_one (λ t. t.id == id) s)) [
    | inl missing ↦ rw missing (kept (λ k. refl))
    | inr (t, found) ↦ rw found (remove-Change laws same_slug t.id s)
  ]
  Step-Change s _ u (suspending id) = elim (Option-cases (repo.find_one (λ t. t.id == id) s)) [
    | inl missing ↦ rw missing (kept (λ k. refl))
    | inr (t, found) ↦ rw found (
        store-Change laws same_slug t.id (record t { status = suspended }) s
          (store_found id (λ t. record t { status = suspended }) s (λ t. refl) u t found))
  ]
  Step-Change s _ u (activating id) = elim (Option-cases (repo.find_one (λ t. t.id == id) s)) [
    | inl missing ↦ rw missing (kept (λ k. refl))
    | inr (t, found) ↦ rw found (
        store-Change laws same_slug t.id (record t { status = active }) s
          (store_found id (λ t. record t { status = active }) s (λ t. refl) u t found))
  ]

  -- Whatever requests come, and whether or not their flushes go through, no two tenants get the
  -- same slug, where an empty slug does not count.
  pub Reachable-Unique_slugs :
      (s s' : S) → Unique laws same_slug s → Reachable s s' → Unique laws same_slug s'
  Reachable-Unique_slugs s _ u start = u
  Reachable-Unique_slugs s s'' u (next {s' = before} r t) =
      let u' = Reachable-Unique_slugs s before u r in
      Change-Unique laws same_slug before s'' same_slug_comm (Step-Change before s'' u' t) u'
