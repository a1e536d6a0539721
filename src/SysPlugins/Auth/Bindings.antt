-- ===== src/SysPlugins/Auth/Bindings.antt =====
-- The OAuth accounts that users bind.
use oksai_cc_api_server.Base.{
  String, Bool, true, false, Option, none, some, ◌==◌, string_eq, ◌&&◌, ◌≡◌, refl, arith, eq_iff,
  Option-cases, Bool-cases, inl, inr,
}
use oksai_cc_api_server.Orm.{state-flushed, given}
use oksai_cc_api_server.SysPlugins.Auth.{
  User, AuthStore, AuthStoreLaws, OAuthAccount, OAuthProvider,
}
use oksai_cc_api_server.SysPlugins.Auth.Accounts.{
  bind_oauth_account, bind_unless, unbind_oauth_account, unbind_found, provider_named,
  provider_value, is_account, new_account,
}
use oksai_cc_api_server.SysPlugins.Auth.Cleared.{
  same_account, UniqueAccounts, row_before, clear_primary-Unique, insert-Unique, delete-Unique,
}
use oksai_cc_api_server.SysPlugins.Auth.Steps.{AuthConfig}

module _ {S : Type 0} (store : AuthStore S) (laws : AuthStoreLaws store) (c : AuthConfig) where
  free_after :
      (id user_id : String) (p : OAuthProvider) (provider_id : String) (s : S)
      → store.accounts.find_one (is_account store c.upper p provider_id) s ≡ none
      → (store.clear_primary user_id s).0 ≡ true
      → (b : OAuthAccount) → laws.accounts.row b.id (store.clear_primary user_id s).1 ≡ some b
      → same_account (new_account id user_id p provider_id (some true)) b ≡ false
  unfolding new_account
  free_after id user_id p provider_id s free y b at =
      let (b0, there, cleared) = row_before store laws user_id s b y at in
      let other =
        laws.accounts.find_one_none (is_account store c.upper p provider_id) s b0.id b0 free
          there in
      ground (
        arith,
        other,
        cleared.same_user,
        cleared.same_provider,
        cleared.same_provider_id,
        cleared.primary,
        eq_iff (provider_value p) (provider_value b0.provider),
        eq_iff (provider_value b0.provider) (provider_value p),
        eq_iff provider_id b0.provider_id,
        eq_iff b0.provider_id provider_id,
        eq_iff user_id b0.user_id,
        eq_iff b0.user_id user_id,
      )

  free_here :
      (id user_id : String) (p : OAuthProvider) (provider_id : String) (is_primary : Option Bool)
      (s : S)
      → store.accounts.find_one (is_account store c.upper p provider_id) s ≡ none
      → given is_primary false ≡ false
      → (b : OAuthAccount) → laws.accounts.row b.id s ≡ some b
      → same_account (new_account id user_id p provider_id is_primary) b ≡ false
  unfolding new_account
  free_here id user_id p provider_id is_primary s free second b at = ground (
    arith,
    laws.accounts.find_one_none (is_account store c.upper p provider_id) s b.id b free at,
    eq_iff (provider_value p) (provider_value b.provider),
    eq_iff (provider_value b.provider) (provider_value p),
    eq_iff provider_id b.provider_id,
    eq_iff b.provider_id provider_id,
  )

  bind_free :
      (id user_id : String) (p : OAuthProvider) (provider_id : String) (is_primary : Option Bool)
      (s : S)
      → store.accounts.find_one (is_account store c.upper p provider_id) s ≡ none
      → UniqueAccounts store laws s
      → UniqueAccounts store laws
          (bind_unless store c.upper id user_id p provider_id is_primary none s).1
  unfolding bind_unless
  bind_free id user_id p provider_id none s free unique = rw state-flushed (
      insert-Unique store laws (new_account id user_id p provider_id none) s
        (free_here id user_id p provider_id none s free refl) unique)
  bind_free id user_id p provider_id (some false) s free unique = rw state-flushed (
      insert-Unique store laws (new_account id user_id p provider_id (some false)) s
        (free_here id user_id p provider_id (some false) s free refl) unique)
  bind_free id user_id p provider_id (some true) s free unique =
      let u = clear_primary-Unique store laws user_id s unique in
      elim (Bool-cases (store.clear_primary user_id s).0) [
        | inr n ↦ rw n u
        | inl y ↦
            rw (y, state-flushed)
              (insert-Unique store laws (new_account id user_id p provider_id (some true))
                (store.clear_primary user_id s).1 (free_after id user_id p provider_id s free y) u)
      ]

  pub bind_step :
      (id user_id name provider_id : String) (is_primary : Option Bool) (s : S)
      → UniqueAccounts store laws s
      → UniqueAccounts store laws
          (bind_oauth_account store c.upper id user_id name provider_id is_primary s).1
  unfolding bind_oauth_account bind_unless
  bind_step id user_id name provider_id is_primary s unique =
      elim (Option-cases (store.users.find_one (λ u. u.id == user_id) s)) [
        | inl missing ↦ rw missing unique
        | inr (u, found) ↦ elim (Option-cases (provider_named (c.upper name))) [
          | inl unknown ↦ rw (found, unknown) unique
          | inr (p, known) ↦
              elim (Option-cases
                (store.accounts.find_one (is_account store c.upper p provider_id) s)) [
                  | inr (a, taken) ↦ rw (found, known, taken) unique
                  | inl free ↦
                      rw (found, known, free)
                        (bind_free id user_id p provider_id is_primary s free unique)
                ]
        ]
      ]

  unbind_found_step :
      (u : User) (o : Option OAuthAccount) (s : S)
      → UniqueAccounts store laws s
      → UniqueAccounts store laws (unbind_found store c.upper u o s).1
  unfolding unbind_found
  unbind_found_step u none s unique = unique
  unbind_found_step u (some a) s unique =
      elim (Bool-cases (a.is_primary && given u.require_password_setup false)) [
        | inl y ↦ rw y unique
        | inr n ↦ rw (n, state-flushed) (delete-Unique store laws a.id s unique)
      ]

  pub unbind_step :
      (user_id name provider_id : String) (s : S)
      → UniqueAccounts store laws s
      → UniqueAccounts store laws (unbind_oauth_account store c.upper user_id name provider_id s).1
  unfolding unbind_oauth_account
  unbind_step user_id name provider_id s unique =
      elim (Option-cases (store.users.find_one (λ u. u.id == user_id) s)) [
        | inl missing ↦ rw missing unique
        | inr (u, found) ↦ elim (Option-cases (provider_named (c.upper name))) [
          | inl unknown ↦ rw (found, unknown) unique
          | inr (p, known) ↦
              rw (found, known)
                (unbind_found_step u
                  (store.accounts.find_one
                    (λ a. a.user_id == user_id && is_account store c.upper p provider_id a) s)
                  s unique)
        ]
      ]
