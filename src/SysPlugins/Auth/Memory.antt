-- ===== src/SysPlugins/Auth/Memory.antt =====
-- A database in memory for the service of authentication. Its mail queue forgets.
use oksai_cc_api_server.Base.{
  String, Bool, true, false, Option, none, some, List, [], ◌∷◌, if◌then◌else◌, ◌==◌, string_eq, ◌≡◌,
  refl, arith, Bool-cases, inl, inr,
}
use oksai_cc_api_server.Orm.Table.{
  table, table-RepositoryLaws, look_up, look_up-put, put_failed, put,
}
use oksai_cc_api_server.Orm.Pair.{
  on_left, on_right, on_left-RepositoryLaws, on_right-RepositoryLaws,
}
use oksai_cc_api_server.SysPlugins.Auth.{User, OAuthAccount, AuthStore, AuthStoreLaws, not_primary}

abbrev pub Database : Type 0
Database = List User × List OAuthAccount

abbrev pub user_id_of : User → String
user_id_of u = u.id

abbrev pub account_id_of : OAuthAccount → String
account_id_of a = a.id

unfoldable pub cleared : String → List OAuthAccount → List OAuthAccount
cleared user_id [] = []
cleared user_id (a ∷ xs) =
    record a { is_primary = if a.user_id == user_id then false else a.is_primary }
    ∷ cleared user_id xs

pub look_up-cleared :
    (user_id k : String) (xs : List OAuthAccount)
    → look_up account_id_of k (cleared user_id xs)
      ≡ not_primary user_id (look_up account_id_of k xs)
unfolding look_up cleared
look_up-cleared user_id k [] = refl
look_up-cleared user_id k (a ∷ xs) = elim (Bool-cases (a.id == k)) [
  | inl y ↦ rw y refl
  | inr n ↦ rw n (look_up-cleared user_id k xs)
]

unfoldable pub save : Option User → Database → Bool × Database
unfolding put
save none s = (true, s)
save (some u) s = ((put user_id_of u.id u s.0).0, ((put user_id_of u.id u s.0).1, s.1))

pub kept_accounts :
    (u : Option User) (s : Database) (k : String)
    → look_up account_id_of k (save u s).1.1 ≡ look_up account_id_of k s.1
unfolding save
kept_accounts none s k = refl
kept_accounts (some u) s k = refl

unfoldable pub memory : AuthStore Database
unfolding table on_left on_right save cleared
memory = record {
  users = on_left (table user_id_of);
  accounts = on_right (table account_id_of);
  save_login = λ h u s. save u s;
  clear_primary = λ id s. (true, (s.0, cleared id s.1));
  add_mail = λ m s. (true, s);
}

pub save_row :
    (u : User) (s : Database) (k : String)
    → (put user_id_of u.id u s.0).0 ≡ true
    → look_up user_id_of k (put user_id_of u.id u s.0).1
      ≡ (if u.id == k then some u else look_up user_id_of k s.0)
save_row u s k y = ground (arith, look_up-put user_id_of u.id u s.0 k y)

pub clear_always :
    (id : String) (s : Database) (k : String)
    → true ≡ false
    → look_up account_id_of k (cleared id s.1) ≡ look_up account_id_of k s.1
clear_always id s k h = ground arith

unfoldable pub memory-AuthStoreLaws : AuthStoreLaws memory
unfolding memory on_left-RepositoryLaws on_right-RepositoryLaws table-RepositoryLaws
memory-AuthStoreLaws = record {
  users = on_left-RepositoryLaws (table-RepositoryLaws user_id_of);
  accounts = on_right-RepositoryLaws (table-RepositoryLaws account_id_of);
  history_only = λ h s k. refl;
  login_failed = λ h u s. put_failed user_id_of u.id u s.0;
  row-save_login = λ h. save_row;
  row-add_mail = λ m s k. refl;
  clear_primary_failed = clear_always;
  row-clear_primary = λ id s k y. look_up-cleared id k s.1;
  user-insert_account = λ a s k. refl;
  user-delete_account = λ id s k. refl;
  user-clear_primary = λ id s k. refl;
  account-insert_user = λ u s k. refl;
  account-update_user = λ id u s k. refl;
  account-save_login = λ h. kept_accounts;
  account-add_mail = λ m s k. refl;
}
