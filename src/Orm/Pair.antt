-- ===== src/Orm/Pair.antt =====
-- Two tables of one database.
use oksai_cc_api_server.Base.{String}
use oksai_cc_api_server.Orm.{Repository, RepositoryLaws}

module _ {E A B : Type 0} where
  unfoldable pub on_left : Repository E A → Repository E (A × B)
  on_left repo = record {
    find_one = λ p s. repo.find_one p s.0;
    insert = λ e s. ((repo.insert e s.0).0, ((repo.insert e s.0).1, s.1));
    update_row = λ id e s. ((repo.update_row id e s.0).0, ((repo.update_row id e s.0).1, s.1));
    delete_row = λ id s. ((repo.delete_row id s.0).0, ((repo.delete_row id s.0).1, s.1));
  }

  unfoldable pub on_right : Repository E B → Repository E (A × B)
  on_right repo = record {
    find_one = λ p s. repo.find_one p s.1;
    insert = λ e s. ((repo.insert e s.1).0, (s.0, (repo.insert e s.1).1));
    update_row = λ id e s. ((repo.update_row id e s.1).0, (s.0, (repo.update_row id e s.1).1));
    delete_row = λ id s. ((repo.delete_row id s.1).0, (s.0, (repo.delete_row id s.1).1));
  }

  unfoldable pub on_left-RepositoryLaws :
      {id_of : E → String} {repo : Repository E A}
      → RepositoryLaws id_of repo
      → RepositoryLaws id_of (on_left repo)
  unfolding on_left
  on_left-RepositoryLaws laws = record {
    row = λ k s. laws.row k s.0;
    row_id = λ k s. laws.row_id k s.0;
    find_one_some = λ p s. laws.find_one_some p s.0;
    find_one_none = λ p s. laws.find_one_none p s.0;
    insert_failed = λ e s. laws.insert_failed e s.0;
    insert_fresh = λ e s. laws.insert_fresh e s.0;
    row-insert = λ e s. laws.row-insert e s.0;
    update_failed = λ id e s. laws.update_failed id e s.0;
    update_fresh = λ id e s. laws.update_fresh id e s.0;
    row-update = λ id e s. laws.row-update id e s.0;
    delete_failed = λ id s. laws.delete_failed id s.0;
    row-delete = λ id s. laws.row-delete id s.0;
  }

  unfoldable pub on_right-RepositoryLaws :
      {id_of : E → String} {repo : Repository E B}
      → RepositoryLaws id_of repo
      → RepositoryLaws id_of (on_right repo)
  unfolding on_right
  on_right-RepositoryLaws laws = record {
    row = λ k s. laws.row k s.1;
    row_id = λ k s. laws.row_id k s.1;
    find_one_some = λ p s. laws.find_one_some p s.1;
    find_one_none = λ p s. laws.find_one_none p s.1;
    insert_failed = λ e s. laws.insert_failed e s.1;
    insert_fresh = λ e s. laws.insert_fresh e s.1;
    row-insert = λ e s. laws.row-insert e s.1;
    update_failed = λ id e s. laws.update_failed id e s.1;
    update_fresh = λ id e s. laws.update_fresh id e s.1;
    row-update = λ id e s. laws.row-update id e s.1;
    delete_failed = λ id s. laws.delete_failed id s.1;
    row-delete = λ id s. laws.row-delete id s.1;
  }
