-- ===== src/Orm/Finding.antt =====
-- `findOne` where only one row can meet the filter.
use oksai_cc_api_server.Base.{String, Bool, true, some, ◌≡◌, arith, Option-cases, inl, inr, ap}
use oksai_cc_api_server.Orm.{Repository, RepositoryLaws}

module _ {E S : Type 0} {id_of : E → String} {repo : Repository E S}
    (laws : RepositoryLaws id_of repo) where
  pub find_one-only :
      (p : E → Bool) (e : E) (s : S)
      → laws.row (id_of e) s ≡ some e
      → p e ≡ true
      → ((b : E) → laws.row (id_of b) s ≡ some b → p b ≡ true → id_of b ≡ id_of e)
      → repo.find_one p s ≡ some e
  find_one-only p e s at holds only = elim (Option-cases (repo.find_one p s)) [
    | inl missing ↦ ground (arith, laws.find_one_none p s (id_of e) e missing at)
    | inr (b, found) ↦
        let (there, same) = laws.find_one_some p s b found in
        ground (arith, only b there same, ap (λ k. laws.row k s) (only b there same))
  ]
