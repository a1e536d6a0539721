-- ===== src/SysPlugins/Roles/Permissions.antt =====
-- The permissions of a role after `assignPermissions`.
use oksai_cc_api_server.Base.{
  String, Bool, true, false, Option, none, some, List, [], ◌∷◌, ◌++◌, ◌==◌, string_eq, ◌||◌,
  includes, ◌≡◌, ◌≢◌, ◌⊎◌, refl, subst, arith, eq_iff, Bool-cases, inl, inr,
}
use oksai_cc_api_server.Base.Exec.{Result, ok, err}
use oksai_cc_api_server.Base.Http.{HttpError, not_initialized}
use oksai_cc_api_server.Orm.{Repository, RepositoryLaws, store_entity}
use oksai_cc_api_server.SysPlugins.Roles.{
  Role, Collection, unloaded, loaded, assign_permissions, add_found, add_missing, with_permissions,
}

includes-++ :
    (k p : String) (xs : List String) → includes k (xs ++ (p ∷ [])) ≡ (includes k xs || p == k)
includes-++ k p [] = ground arith
includes-++ k p (x ∷ xs) = ground (arith, includes-++ k p xs)

includes-add_missing :
    (k : String) (held ps : List String)
    → includes k (add_missing held ps) ≡ (includes k held || includes k ps)
unfolding add_missing
includes-add_missing k held [] = ground arith
includes-add_missing k held (p ∷ ps) = elim (Bool-cases (includes p held)) [
  | inl there ↦ rw there (ground (arith, includes-add_missing k held ps, eq_iff p k, there))
  | inr new ↦
      rw new (ground (arith, includes-add_missing k (held ++ (p ∷ [])) ps, includes-++ k p held))
]

-- the permissions of a collection, as far as they are loaded
abbrev pub held_ids : Option Collection → List String
held_ids (some (loaded held)) = held
held_ids _ = []

-- the permissions of the role of an id
abbrev pub holds : String → Option Role → Bool
holds k none = false
holds k (some r) = includes k (held_ids r.permissions)

module _ {S : Type 0} (repo : Repository Role S) (laws : RepositoryLaws (λ r. r.id) repo)
    (permissions : List String → S → List String) where
  stored_role :
      (r e : Role) (s : S)
      → (repo.update_row r.id e s).0 ≡ true
      → e.id ≡ r.id
      → ((store_entity repo r.id e s).0 ≡ ok e)
        × (laws.row r.id (store_entity repo r.id e s).1 ≡ some e)
  stored_role r e s y same =
      (ground (arith, y), ground (arith, y, laws.row-update r.id e s r.id y, eq_iff e.id r.id))

  -- The call throws because the collection is not loaded, or it goes through.
  abbrev pub Refused : Option Collection → List String → Result HttpError Role × S → S → Type 0
  Refused c found done s = (c ≡ some unloaded) × (found ≢ []) × (done ≡ (err not_initialized, s))

  abbrev pub Extended :
      String → Option Collection → List String → Result HttpError Role × S → Type 0
  Extended id c found done =
      ((c ≢ some unloaded) ⊎ (found ≡ []))
      × ((e : Role) × (done.0 ≡ ok e))
      × ((k : String)
          → holds k (laws.row id done.1) ≡ (includes k (held_ids c) || includes k found))

  stored-Extended :
      (r : Role) (old found : List String) (c : Option Collection) (s : S)
      → (repo.update_row r.id (with_permissions repo permissions (add_missing old found) r) s).0
        ≡ true
      → c ≢ some unloaded
      → held_ids c ≡ old
      → Extended r.id c found
          (store_entity repo r.id (with_permissions repo permissions (add_missing old found) r) s)
  stored-Extended r old found c s y ready own =
      let e = with_permissions repo permissions (add_missing old found) r in
      let (went, there) = stored_role r e s y refl in
      (inl ready, (e, went), (λ k. rw (there, own) (includes-add_missing k old found)))

  add_found_lem :
      (r : Role) (c : Option Collection) (found : List String) (s : S)
      → r.permissions ≡ c
      → ((e : Role) → e.id ≡ r.id → (repo.update_row r.id e s).0 ≡ true)
      → Refused c found (add_found repo permissions r c found s) s
        ⊎ Extended r.id c found (add_found repo permissions r c found s)
  unfolding add_found
  add_found_lem r none found s own y =
      inr (stored-Extended r [] found none s (y _ refl) (λ e. cc) refl)
  add_found_lem r (some unloaded) [] s own y =
      let (went, there) = stored_role r r s (y r refl) refl in
      inr (inr refl, (r, went), (λ k. rw (there, own) refl))
  add_found_lem r (some unloaded) (p ∷ ps) s own y = inl (refl, (λ e. cc), refl)
  add_found_lem r (some (loaded held)) found s own y =
      inr (stored-Extended r held found (some (loaded held)) s (y _ refl) (λ e. cc) refl)

  -- If the role is found, a permission is named and the flush does not fail, `assignPermissions`
  -- throws and changes nothing where the role's collection is not loaded and one of the named
  -- permissions exists. Otherwise it goes through, and the role in the table then holds what it held
  -- before and the named permissions that exist, and nothing else.
  pub holds-assign_permissions :
      (id p : String) (ps : List String) (r : Role) (s : S)
      → repo.find_one (λ r. r.id == id) s ≡ some r
      → ((e : Role) → e.id ≡ r.id → (repo.update_row r.id e s).0 ≡ true)
      → let done = assign_permissions repo permissions id (p ∷ ps) s in
        let found = permissions (p ∷ ps) s in
        Refused r.permissions found done s ⊎ Extended id r.permissions found done
  unfolding assign_permissions
  holds-assign_permissions id p ps r s found y =
      let own : r.id ≡ id =
        ground (arith, (laws.find_one_some (λ r. r.id == id) s r found).1, eq_iff r.id id) in
      let done = add_found_lem r r.permissions (permissions (p ∷ ps) s) s refl y in
      rw found (
        subst
          (λ i.
            Refused r.permissions (permissions (p ∷ ps) s)
              (add_found repo permissions r r.permissions (permissions (p ∷ ps) s) s) s
            ⊎ Extended i r.permissions (permissions (p ∷ ps) s)
                (add_found repo permissions r r.permissions (permissions (p ∷ ps) s) s))
          own done)
