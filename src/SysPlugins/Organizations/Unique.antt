-- ===== src/SysPlugins/Organizations/Unique.antt =====
-- The service of organizations and the slugs of the table.
use oksai_cc_api_server.Base.{
  String, Bool, not, none, some, ◌==◌, string_eq, ◌&&◌, ◌≡◌, refl, sym, arith, eq_iff, Option-cases,
  Bool-cases, inl, inr,
}
use oksai_cc_api_server.Orm.{Repository, RepositoryLaws}
use oksai_cc_api_server.Orm.Unique.{
  Unique, ClashesOnly, Change, kept, Change-Unique, create-Change, store-Change, remove-Change,
}
use oksai_cc_api_server.SysPlugins.Organizations.{
  Organization, CreateOrganizationDto, UpdateOrganizationDto, new_organization, assign_organization,
  create, other_with, update, remove, suspend, activate, active, suspended,
}

-- The same tenant and the same slug, which is not empty.
abbrev pub same_slug : Organization → Organization → Bool
same_slug a b = a.slug == b.slug && a.tenant_id == b.tenant_id && not (a.slug == "")

same_slug_comm : (a b : Organization) → same_slug a b ≡ same_slug b a
same_slug_comm a b = ground (
  arith,
  eq_iff a.slug b.slug,
  eq_iff b.slug a.slug,
  eq_iff a.tenant_id b.tenant_id,
  eq_iff b.tenant_id a.tenant_id,
)

module _ {S : Type 0} (repo : Repository Organization S)
    (laws : RepositoryLaws (λ t. t.id) repo) where
  pub data Step (s : S) : S → Type 0 where
    creating :
        (id tenant_id : String) (dto : CreateOrganizationDto)
        → Step s (create repo id dto tenant_id s).1
    updating : (id : String) (dto : UpdateOrganizationDto) → Step s (update repo id dto s).1
    removing : (id : String) → Step s (remove repo id s).1
    suspending : (id : String) → Step s (suspend repo id s).1
    activating : (id : String) → Step s (activate repo id s).1

  pub data Reachable (s : S) : S → Type 0 where
    start : Reachable s s
    next : {s' s'' : S} → Reachable s s' → Step s' s'' → Reachable s s''

  create-Change_slug :
      (id tenant_id : String) (dto : CreateOrganizationDto) (s : S)
      → Change laws same_slug s (create repo id dto tenant_id s).1
  unfolding create new_organization
  create-Change_slug id tenant_id dto s =
      let taken_by : Organization → Bool = λ o. o.slug == dto.slug && o.tenant_id == tenant_id in
      elim (Option-cases (repo.find_one taken_by s)) [
        | inl free ↦ rw free (
            create-Change laws same_slug (new_organization id dto tenant_id) s (λ b at. ground (
              arith,
              laws.find_one_none taken_by s b.id b free at,
              eq_iff dto.slug b.slug,
              eq_iff b.slug dto.slug,
              eq_iff tenant_id b.tenant_id,
              eq_iff b.tenant_id tenant_id,
            )))
        | inr (o, taken) ↦ rw taken (kept (λ k. refl))
      ]

  -- what a found tenant becomes, if its slug stays or is not another's
  keeping :
      (t e : Organization) (s : S)
      → Unique laws same_slug s
      → laws.row t.id s ≡ some t
      → e.slug ≡ t.slug
      → e.tenant_id ≡ t.tenant_id
      → ClashesOnly laws same_slug t.id e s
  keeping t e s u at same stays = λ b there c. sym (u t b at there (ground arith))

  store_found :
      (id : String) (f : Organization → Organization) (s : S)
      → ((t : Organization) → ((f t).slug ≡ t.slug) × ((f t).tenant_id ≡ t.tenant_id))
      → Unique laws same_slug s
      → (t : Organization) → repo.find_one (λ t. t.id == id) s ≡ some t
      → ClashesOnly laws same_slug t.id (f t) s
  store_found id f s same u t found =
      keeping t (f t) s u (laws.find_one_some (λ t. t.id == id) s t found).0 (same t).0 (same t).1

  moved :
      (dto : UpdateOrganizationDto) (t : Organization) (s : S)
      → Unique laws same_slug s
      → laws.row t.id s ≡ some t
      → other_with repo t dto.slug s ≡ none
      → ClashesOnly laws same_slug t.id (assign_organization dto t) s
  unfolding assign_organization
  moved dto t s u at free = λ b there c. elim (Option-cases dto.slug) [
    | inl absent ↦ sym (u t b at there (ground arith))
    | inr (slug, new) ↦ elim (Bool-cases (slug == t.slug)) [
      | inl same ↦ sym (u t b at there (ground (arith, eq_iff slug t.slug)))
      | inr other ↦ ground (
        arith,
        laws.find_one_none (λ q. q.slug == slug && q.tenant_id == t.tenant_id) s b.id b,
        eq_iff slug b.slug,
        eq_iff b.slug slug,
        eq_iff t.tenant_id b.tenant_id,
        eq_iff b.tenant_id t.tenant_id,
      )
    ]
  ]

  Step-Change : (s s' : S) → Unique laws same_slug s → Step s s' → Change laws same_slug s s'
  unfolding update remove suspend activate
  Step-Change s _ u (creating id tenant_id dto) = create-Change_slug id tenant_id dto s
  Step-Change s _ u (updating id dto) = elim (Option-cases (repo.find_one (λ t. t.id == id) s)) [
    | inl missing ↦ rw missing (kept (λ k. refl))
    | inr (t, found) ↦
        let (at, _) = laws.find_one_some (λ t. t.id == id) s t found in
        elim (Option-cases (other_with repo t dto.slug s)) [
          | inl free ↦
              rw (found, free)
                (store-Change laws same_slug t.id (assign_organization dto t) s
                  (moved dto t s u at free))
          | inr (other, taken) ↦ rw (found, taken) (kept (λ k. refl))
        ]
  ]
  Step-Change s _ u (removing id) = elim (Option-cases (repo.find_one (λ t. t.id == id) s)) [
    | inl missing ↦ rw missing (kept (λ k. refl))
    | inr (t, found) ↦ rw found (remove-Change laws same_slug t.id s)
  ]
  Step-Change s _ u (suspending id) = elim (Option-cases (repo.find_one (λ t. t.id == id) s)) [
    | inl missing ↦ rw missing (kept (λ k. refl))
    | inr (t, found) ↦ rw found (
        store-Change laws same_slug t.id (record t { status = suspended }) s
          (store_found id (λ t. record t { status = suspended }) s (λ t. (refl, refl)) u t found))
  ]
  Step-Change s _ u (activating id) = elim (Option-cases (repo.find_one (λ t. t.id == id) s)) [
    | inl missing ↦ rw missing (kept (λ k. refl))
    | inr (t, found) ↦ rw found (
        store-Change laws same_slug t.id (record t { status = active }) s
          (store_found id (λ t. record t { status = active }) s (λ t. (refl, refl)) u t found))
  ]

  -- Whatever requests come, and whether or not their flushes go through, no two
  -- organizations of one tenant get the same slug, where an empty slug does not count.
  pub Reachable-Unique_organizations :
      (s s' : S) → Unique laws same_slug s → Reachable s s' → Unique laws same_slug s'
  Reachable-Unique_organizations s _ u start = u
  Reachable-Unique_organizations s s'' u (next {s' = before} r t) =
      let u' = Reachable-Unique_organizations s before u r in
      Change-Unique laws same_slug before s'' same_slug_comm (Step-Change before s'' u' t) u'
