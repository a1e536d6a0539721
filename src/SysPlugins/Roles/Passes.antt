-- ===== src/SysPlugins/Roles/Passes.antt =====
-- The guard of permissions and what it requires.
use oksai_cc_api_server.Base.{
  true, Option, none, some, List, [], ◌∷◌, ◌==◌, string_eq, ◌≡◌, ◌↔◌, ◌⊎◌, refl, sym, ap, ◌∙◌,
  subst, arith, eq_iff, Bool-cases, Option-cases, inl, inr,
}
use oksai_cc_api_server.Base.Exec.{ok}
use oksai_cc_api_server.Orm.{given}
use oksai_cc_api_server.SysPlugins.Roles.Guard.{
  PermissionsMetadata, Metadata, undefined, array, single, UserPermission, GuardUser, fits,
  some_fits, has_permission, check_all, can_activate,
}

abbrev pub Listed : {A : Type 0} → A → List A → Type 0
Listed a [] = ⊥
Listed a (x ∷ xs) = (x ≡ a) ⊎ Listed a xs

-- The type, the action and the resource are the required ones, where the requirement names one.
abbrev pub Fits : PermissionsMetadata → UserPermission → Type 0
Fits p own =
    ((p.type ≡ "") ⊎ (own.type ≡ p.type))
    × ((p.action ≡ "") ⊎ (own.action ≡ p.action))
    × ((given p.resource "" ≡ "") ⊎ (own.resource ≡ p.resource))

-- The user is an administrator, or has a permission that fits.
abbrev pub Permitted : GuardUser → PermissionsMetadata → Type 0
Permitted u p =
    (u.role ≡ "ADMIN") ⊎ ((own : UserPermission) × Listed own (given u.permissions []) × Fits p own)

-- What lets a request pass: nothing is required, or the user is there and permitted all of it.
abbrev pub Passes : Metadata → Option GuardUser → Type 0
Passes undefined user = Unit
Passes (array []) user = Unit
Passes (array (p ∷ ps)) none = ⊥
Passes (array (p ∷ ps)) (some u) = (q : PermissionsMetadata) → Listed q (p ∷ ps) → Permitted u q
Passes (single p) user = ⊥

fits-Fits : (p : PermissionsMetadata) (own : UserPermission) → fits p own ≡ true → Fits p own
unfolding fits
fits-Fits p own h = elim (Option-cases p.resource) [
  | inl n ↦ ground (
    arith,
    eq_iff p.type "",
    eq_iff own.type p.type,
    eq_iff p.action "",
    eq_iff own.action p.action,
  )
  | inr (w, e) ↦ elim (Option-cases own.resource) [
    | inl n ↦ ground (
      arith,
      eq_iff p.type "",
      eq_iff own.type p.type,
      eq_iff p.action "",
      eq_iff own.action p.action,
      eq_iff w "",
    )
    | inr (o, f) ↦ ground (
      arith,
      eq_iff p.type "",
      eq_iff own.type p.type,
      eq_iff p.action "",
      eq_iff own.action p.action,
      eq_iff w "",
      eq_iff o w,
    )
  ]
]

Fits-fits : (p : PermissionsMetadata) (own : UserPermission) → Fits p own → fits p own ≡ true
unfolding fits
Fits-fits p own h = elim (Option-cases p.resource) [
  | inl n ↦ ground (
    arith,
    eq_iff p.type "",
    eq_iff own.type p.type,
    eq_iff p.action "",
    eq_iff own.action p.action,
  )
  | inr (w, e) ↦ elim (Option-cases own.resource) [
    | inl n ↦ ground (
      arith,
      eq_iff p.type "",
      eq_iff own.type p.type,
      eq_iff p.action "",
      eq_iff own.action p.action,
      eq_iff w "",
    )
    | inr (o, f) ↦ ground (
      arith,
      eq_iff p.type "",
      eq_iff own.type p.type,
      eq_iff p.action "",
      eq_iff own.action p.action,
      eq_iff w "",
      eq_iff o w,
    )
  ]
]

some_fits-Listed :
    (p : PermissionsMetadata) (owns : List UserPermission)
    → some_fits p owns ≡ true
    → (own : UserPermission) × Listed own owns × Fits p own
unfolding some_fits
some_fits-Listed p [] h = ground arith
some_fits-Listed p (x ∷ owns) h = elim (Bool-cases (fits p x)) [
  | inl y ↦ (x, inl refl, fits-Fits p x y)
  | inr n ↦ let (own, l, f) = some_fits-Listed p owns (ground (arith, n)) in (own, inr l, f)
]

Listed-some_fits :
    (p : PermissionsMetadata) (owns : List UserPermission) (own : UserPermission)
    → Listed own owns
    → Fits p own
    → some_fits p owns ≡ true
unfolding some_fits
Listed-some_fits p [] own l f = absurd l
Listed-some_fits p (x ∷ owns) own (inl e) f =
    let here = Fits-fits p x (subst (Fits p) (sym e) f) in rw here refl
Listed-some_fits p (x ∷ owns) own (inr l) f =
    let there = Listed-some_fits p owns own l f in
    elim (Bool-cases (fits p x)) [ inl y ↦ rw y refl | inr n ↦ rw n there ]

has_permission-Permitted :
    (u : GuardUser) (p : PermissionsMetadata) → has_permission u p ≡ true → Permitted u p
unfolding has_permission
has_permission-Permitted u p h = elim (Bool-cases (u.role == "ADMIN")) [
  | inl y ↦ inl (ground (arith, y, eq_iff u.role "ADMIN"))
  | inr n ↦ elim (Option-cases u.permissions) [
    | inl e ↦ absurd (ground (arith, n, e))
    | inr (owns, e) ↦
        let (own, l, f) = some_fits-Listed p owns (ground (arith, n, e)) in inr (own, rw e l, f)
  ]
]

Permitted-has_permission :
    (u : GuardUser) (p : PermissionsMetadata) → Permitted u p → has_permission u p ≡ true
unfolding has_permission
Permitted-has_permission u p (inl e) = ground (arith, eq_iff u.role "ADMIN")
Permitted-has_permission u p (inr (own, l, f)) = elim (Option-cases u.permissions) [
  | inl e ↦ absurd (subst (λ o. Listed own (given o [])) e l)
  | inr (owns, e) ↦
      ground (arith, e, Listed-some_fits p owns own (subst (λ o. Listed own (given o [])) e l) f)
]

check_all-Permitted :
    (u : GuardUser) (ps : List PermissionsMetadata)
    → check_all u ps ≡ ok true
    → (q : PermissionsMetadata) → Listed q ps
    → Permitted u q
unfolding check_all
check_all-Permitted u [] h q l = absurd l
check_all-Permitted u (p ∷ ps) h q l = elim (Bool-cases (has_permission u p)) [
  | inr n ↦ absurd (ground (arith, n))
  | inl y ↦ elim l [
    | inl e ↦ has_permission-Permitted u q (ap (has_permission u) (sym e) ∙ y)
    | inr r ↦ check_all-Permitted u ps (ground (arith, y)) q r
  ]
]

Permitted-check_all :
    (u : GuardUser) (ps : List PermissionsMetadata)
    → ((q : PermissionsMetadata) → Listed q ps → Permitted u q)
    → check_all u ps ≡ ok true
unfolding check_all
Permitted-check_all u [] h = refl
Permitted-check_all u (p ∷ ps) h = ground (
  arith,
  Permitted-has_permission u p (h p (inl refl)),
  Permitted-check_all u ps (λ q l. h q (inr l)),
)

-- The guard lets a request pass exactly when nothing is required, or the requirements are an array,
-- the user is there and is for each of them an administrator or has a permission that fits. Where
-- the requirement is no array, it never does.
pub can_activate-Passes :
    (m : Metadata) (user : Option GuardUser) → (can_activate m user ≡ ok true) ↔ Passes m user
unfolding can_activate
can_activate-Passes undefined user = (λ h. tt, λ h. refl)
can_activate-Passes (array []) user = (λ h. tt, λ h. refl)
can_activate-Passes (array (p ∷ ps)) none = (λ h. ground arith, λ h. absurd h)
can_activate-Passes (array (p ∷ ps)) (some u) =
    (check_all-Permitted u (p ∷ ps), Permitted-check_all u (p ∷ ps))
can_activate-Passes (single p) none = (λ h. ground arith, λ h. absurd h)
can_activate-Passes (single p) (some u) = (λ h. ground arith, λ h. absurd h)
