-- ===== src/SysPlugins/Users/Isolation.antt =====
-- Tenants and the users of others.
use oksai_cc_api_server.Base.{
  String, Option, some, string_eq, ◌≡◌, ◌≢◌, sym, arith, eq_iff, ◌∙◌, ◌↔◌,
}
use oksai_cc_api_server.Orm.{Repository, RepositoryLaws}
use oksai_cc_api_server.Orm.Unique.{Unique, Change, Change-Unique}
use oksai_cc_api_server.SysPlugins.Passwords.{Passwords}
use oksai_cc_api_server.SysPlugins.Users.{User}
use oksai_cc_api_server.SysPlugins.Users.Changes.{
  same_email, Step, UserChange, kept, added, replaced, deleted,
}
use oksai_cc_api_server.SysPlugins.Users.Requests.{Step-UserChange}

same_email_comm : (a b : User) → same_email a b ≡ same_email b a
same_email_comm a b = ground (
  arith,
  eq_iff a.email b.email,
  eq_iff b.email a.email,
  eq_iff a.tenant_id b.tenant_id,
  eq_iff b.tenant_id a.tenant_id,
)

module _ {S : Type 0} (repo : Repository User S) (laws : RepositoryLaws (λ u. u.id) repo)
    (passwords : Passwords) where
  UserChange-Change :
      (current : Option String) (s s' : S)
      → UserChange repo laws passwords current s s'
      → Change laws same_email s s'
  UserChange-Change current s s' (kept same) = Change.kept same
  UserChange-Change current s s' (added e own fresh apart rows) = Change.added e fresh apart rows
  UserChange-Change current s s' (replaced u e r rows) = Change.replaced u.id e r.apart rows
  UserChange-Change current s s' (deleted u at own rows) = Change.deleted u.id rows

  -- Requests of any tenants, one after the other.
  pub data Reachable (s : S) : S → Type 0 where
    start : Reachable s s
    next :
        {s' s'' : S} (current : Option String)
        → Reachable s s'
        → Step repo laws passwords current s' s''
        → Reachable s s''

  -- Whatever requests come from whichever tenants, and whether or not their flushes go through, no
  -- two users of one tenant get the same e-mail, where an empty e-mail does not count.
  pub Reachable-Unique_emails :
      (s s' : S) → Unique laws same_email s → Reachable s s' → Unique laws same_email s'
  Reachable-Unique_emails s _ u start = u
  Reachable-Unique_emails s s'' u (next {s' = before} current r t) =
      let u' = Reachable-Unique_emails s before u r in
      Change-Unique laws same_email before s'' same_email_comm
        (UserChange-Change current before s''
          (Step-UserChange repo laws passwords current before s'' u' t))
        u'

  UserChange-others :
      (current : Option String) (s s' : S) (u : User)
      → current ≢ some u.tenant_id
      → UserChange repo laws passwords current s s'
      → (laws.row u.id s ≡ some u) ↔ (laws.row u.id s' ≡ some u)
  UserChange-others current s s' u foreign (kept same) =
      (λ h. same u.id ∙ h, λ h. sym (same u.id) ∙ h)
  UserChange-others current s s' u foreign (added e own fresh apart rows) =
      ground (arith, rows u.id, eq_iff e.id u.id)
  UserChange-others current s s' u foreign (replaced v e r rows) = ground (
    arith,
    rows u.id,
    eq_iff e.id u.id,
    eq_iff v.id u.id,
    r.there,
    r.same_id,
    r.same_tenant,
    r.of_tenant,
  )
  UserChange-others current s s' u foreign (deleted v at own rows) =
      ground (arith, rows u.id, eq_iff v.id u.id)

  -- A request of one tenant leaves the users of every other tenant as they are: a user of another
  -- tenant is in the table after it if and only if the same user was there before.
  pub Step-other_tenants :
      (current : Option String) (s s' : S) (u : User)
      → Unique laws same_email s
      → current ≢ some u.tenant_id
      → Step repo laws passwords current s s'
      → (laws.row u.id s ≡ some u) ↔ (laws.row u.id s' ≡ some u)
  Step-other_tenants current s s' u unique foreign t =
      UserChange-others current s s' u foreign
        (Step-UserChange repo laws passwords current s s' unique t)
