-- ===== src/SysPlugins/Auth/Cleared.antt =====
-- The OAuth accounts after the primary ones of a user were cleared, and after an insertion.
use oksai_cc_api_server.Base.{
  String, Bool, true, false, Option, none, some, if◌then◌else◌, ◌==◌, string_eq, ◌&&◌, ◌||◌, ◌≡◌,
  refl, sym, ◌∙◌, arith, eq_iff, Bool-cases, inl, inr, ap, subst,
}
use oksai_cc_api_server.Orm.{state-flushed}
use oksai_cc_api_server.Orm.Unique.{Unique, Change, kept, deleted, Change-Unique, create-Change}
use oksai_cc_api_server.SysPlugins.Auth.{AuthStore, AuthStoreLaws, OAuthAccount, not_primary}
use oksai_cc_api_server.SysPlugins.Auth.Accounts.{provider_value}

-- The same identity at a provider, or two primary accounts of one user.
abbrev pub same_account : OAuthAccount → OAuthAccount → Bool
same_account a b =
    (provider_value a.provider == provider_value b.provider && a.provider_id == b.provider_id)
    || (a.user_id == b.user_id && a.is_primary && b.is_primary)

pub same_account_comm : (a b : OAuthAccount) → same_account a b ≡ same_account b a
same_account_comm a b = ground (
  arith,
  eq_iff (provider_value a.provider) (provider_value b.provider),
  eq_iff (provider_value b.provider) (provider_value a.provider),
  eq_iff a.provider_id b.provider_id,
  eq_iff b.provider_id a.provider_id,
  eq_iff a.user_id b.user_id,
  eq_iff b.user_id a.user_id,
)

-- what is left of an account after the primary ones of a user were cleared
pub record Cleared (user_id : String) (b a : OAuthAccount) : Type 0 where
  pub same_id : a.id ≡ b.id
  pub same_user : a.user_id ≡ b.user_id
  pub same_provider : a.provider ≡ b.provider
  pub same_provider_id : a.provider_id ≡ b.provider_id
  pub primary : a.is_primary ≡ (if b.user_id == user_id then false else b.is_primary)

not_primary-Cleared :
    (user_id : String) (o : Option OAuthAccount) (a : OAuthAccount)
    → not_primary user_id o ≡ some a
    → (b : OAuthAccount) × (o ≡ some b) × Cleared user_id b a
not_primary-Cleared user_id none a h = ground arith
not_primary-Cleared user_id (some b) a h = (
  b,
  refl,
  record {
    same_id = ground arith;
    same_user = ground arith;
    same_provider = ground arith;
    same_provider_id = ground arith;
    primary = ground arith;
  },
)

module _ {S : Type 0} (store : AuthStore S) (laws : AuthStoreLaws store) where
  abbrev pub UniqueAccounts : S → Type 0
  UniqueAccounts s = Unique laws.accounts same_account s

  pub row_before :
      (user_id : String) (s : S) (a : OAuthAccount)
      → (store.clear_primary user_id s).0 ≡ true
      → laws.accounts.row a.id (store.clear_primary user_id s).1 ≡ some a
      → (b : OAuthAccount) × (laws.accounts.row b.id s ≡ some b) × Cleared user_id b a
  row_before user_id s a y at =
      let (b, there, c) =
        not_primary-Cleared user_id (laws.accounts.row a.id s) a
          (sym (laws.row-clear_primary user_id s a.id y) ∙ at) in
      (b, ap (λ k. laws.accounts.row k s) (sym c.same_id) ∙ there, c)

  pub clear_primary-Unique :
      (user_id : String) (s : S)
      → UniqueAccounts s
      → UniqueAccounts (store.clear_primary user_id s).1
  clear_primary-Unique user_id s unique = λ a b ea eb clash.
      elim (Bool-cases (store.clear_primary user_id s).0) [
        | inr n ↦
            unique a b (sym (laws.clear_primary_failed user_id s a.id n) ∙ ea)
              (sym (laws.clear_primary_failed user_id s b.id n) ∙ eb) clash
        | inl y ↦
            let (a0, ta, ca) = row_before user_id s a y ea in
            let (b0, tb, cb) = row_before user_id s b y eb in
            let same = unique a0 b0 ta tb (
              ground (
                arith, ca.same_user, cb.same_user, ca.same_provider, cb.same_provider,
                ca.same_provider_id, cb.same_provider_id, ca.primary, cb.primary,
              )) in
            ca.same_id ∙ same ∙ sym cb.same_id
      ]

  pub insert-Unique :
      (a : OAuthAccount) (s : S)
      → ((b : OAuthAccount) → laws.accounts.row b.id s ≡ some b → same_account a b ≡ false)
      → UniqueAccounts s
      → UniqueAccounts (store.accounts.insert a s).1
  insert-Unique a s apart unique =
      Change-Unique laws.accounts same_account s (store.accounts.insert a s).1 same_account_comm
        (subst (λ s'. Change laws.accounts same_account s s')
          (state-flushed a (store.accounts.insert a s))
          (create-Change laws.accounts same_account a s apart))
        unique

  pub delete-Unique :
      (id : String) (s : S) → UniqueAccounts s → UniqueAccounts (store.accounts.delete_row id s).1
  delete-Unique id s unique = elim (Bool-cases (store.accounts.delete_row id s).0) [
    | inl y ↦
        Change-Unique laws.accounts same_account s (store.accounts.delete_row id s).1
          same_account_comm (deleted id (λ k. laws.accounts.row-delete id s k y)) unique
    | inr n ↦
        Change-Unique laws.accounts same_account s (store.accounts.delete_row id s).1
          same_account_comm (kept (λ k. laws.accounts.delete_failed id s k n)) unique
  ]
