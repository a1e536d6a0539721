-- ===== src/Orm/Unique.antt =====
-- What one request may do to a table, with regard to a test of two entities that clash.
use oksai_cc_api_server.Base.{
  String, Bool, true, false, none, some, if◌then◌else◌, ◌==◌, string_eq, ◌≡◌, inl, inr, arith,
  eq_iff, Bool-cases, sym, ◌∙◌,
}
use oksai_cc_api_server.Orm.{Repository, RepositoryLaws, create_entity, store_entity, remove_entity}

module _ {E S : Type 0} {id_of : E → String} {repo : Repository E S}
    (laws : RepositoryLaws id_of repo) (clash : E → E → Bool) where
  -- No two rows clash.
  abbrev pub Unique : S → Type 0
  Unique s =
      (a b : E)
      → laws.row (id_of a) s ≡ some a
      → laws.row (id_of b) s ≡ some b
      → clash a b ≡ true
      → id_of a ≡ id_of b

  -- The rows with which `e` clashes are at most the one under `id`.
  abbrev pub ClashesOnly : String → E → S → Type 0
  ClashesOnly id e s = (b : E) → laws.row (id_of b) s ≡ some b → clash e b ≡ true → id_of b ≡ id

  pub data Change (s : S) : S → Type 0 where
    kept : {s' : S} → ((k : String) → laws.row k s' ≡ laws.row k s) → Change s s'
    added :
        {s' : S} (e : E)
        → laws.row (id_of e) s ≡ none
        → ((b : E) → laws.row (id_of b) s ≡ some b → clash e b ≡ false)
        → ((k : String) → laws.row k s' ≡ (if id_of e == k then some e else laws.row k s))
        → Change s s'
    replaced :
        {s' : S} (id : String) (e : E)
        → ClashesOnly id e s
        → ((k : String)
            → laws.row k s'
              ≡ (if id_of e == k then some e else if id == k then none else laws.row k s))
        → Change s s'
    deleted :
        {s' : S} (id : String)
        → ((k : String) → laws.row k s' ≡ (if id == k then none else laws.row k s))
        → Change s s'

  pub Change-Unique :
      (s s' : S) → ((a b : E) → clash a b ≡ clash b a) → Change s s' → Unique s → Unique s'
  Change-Unique s s' sym_clash (kept same) u =
      λ a b ea eb c. u a b (sym (same (id_of a)) ∙ ea) (sym (same (id_of b)) ∙ eb) c
  Change-Unique s s' sym_clash (added e fresh apart rows) u = λ a b ea eb c. ground (
    arith,
    rows (id_of a),
    rows (id_of b),
    apart a,
    apart b,
    u a b,
    eq_iff (id_of e) (id_of a),
    eq_iff (id_of e) (id_of b),
    sym_clash e a,
    sym_clash e b,
  )
  Change-Unique s s' sym_clash (replaced id e apart rows) u = λ a b ea eb c. ground (
    arith,
    rows (id_of a),
    rows (id_of b),
    apart a,
    apart b,
    u a b,
    eq_iff (id_of e) (id_of a),
    eq_iff (id_of e) (id_of b),
    eq_iff id (id_of a),
    eq_iff id (id_of b),
    sym_clash e a,
    sym_clash e b,
  )
  Change-Unique s s' sym_clash (deleted id rows) u =
      λ a b ea eb c. ground (arith, rows (id_of a), rows (id_of b), u a b)

  pub create-Change :
      (e : E) (s : S)
      → ((b : E) → laws.row (id_of b) s ≡ some b → clash e b ≡ false)
      → Change s (create_entity repo e s).1
  create-Change e s apart = elim (Bool-cases (repo.insert e s).0) [
    | inl y ↦ rw y (added e (laws.insert_fresh e s y) apart (λ k. laws.row-insert e s k y))
    | inr n ↦ rw n (kept (λ k. laws.insert_failed e s k n))
  ]

  pub store-Change :
      (id : String) (e : E) (s : S) → ClashesOnly id e s → Change s (store_entity repo id e s).1
  store-Change id e s apart = elim (Bool-cases (repo.update_row id e s).0) [
    | inl y ↦ rw y (replaced id e apart (λ k. laws.row-update id e s k y))
    | inr n ↦ rw n (kept (λ k. laws.update_failed id e s k n))
  ]

  pub remove-Change : (id : String) (s : S) → Change s (remove_entity repo id s).1
  remove-Change id s = elim (Bool-cases (repo.delete_row id s).0) [
    | inl y ↦ rw y (deleted id (λ k. laws.row-delete id s k y))
    | inr n ↦ rw n (kept (λ k. laws.delete_failed id s k n))
  ]

  pub Change-same :
      (s s' s'' : S) → ((k : String) → laws.row k s'' ≡ laws.row k s') → Change s s' → Change s s''
  Change-same s s' s'' same (kept rows) = kept (λ k. same k ∙ rows k)
  Change-same s s' s'' same (added e fresh apart rows) = added e fresh apart (λ k. same k ∙ rows k)
  Change-same s s' s'' same (replaced id e apart rows) = replaced id e apart (λ k. same k ∙ rows k)
  Change-same s s' s'' same (deleted id rows) = deleted id (λ k. same k ∙ rows k)

  -- A changed entity that clashes with the same ones as before.
  pub same-ClashesOnly :
      (u e : E) (s : S)
      → Unique s
      → laws.row (id_of u) s ≡ some u
      → ((b : E) → clash e b ≡ clash u b)
      → ClashesOnly (id_of u) e s
  same-ClashesOnly u e s unique at same = λ b there c. sym (unique u b at there (sym (same b) ∙ c))

  pub empty-Unique : (s : S) → ((p : E → Bool) → repo.find_one p s ≡ none) → Unique s
  empty-Unique s empty = λ a b ea eb c.
      ground (arith, laws.find_one_none (λ e. true) s (id_of a) a (empty (λ e. true)) ea)
