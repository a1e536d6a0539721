-- ===== src/Orm.antt =====
-- The part of the object-relational mapper that the services of libs/sys-plugins call, as a
-- parameter: `findOne` with a filter, which stands here as a test, and `persist` or `remove`
-- followed by `flush`. The Boolean says whether the flush went through; an exception of `findOne`
-- itself is left out.
pub mod Unique
pub mod Table
pub mod Finding
pub mod Pair
use oksai_cc_api_server.Base.{
  String, Bool, true, false, Option, none, some, if◌then◌else◌, ◌==◌, string_eq, ◌≡◌, ◌≢◌, refl,
  arith,
}
use oksai_cc_api_server.Base.Exec.{Result, ok, err, Exec}
use oksai_cc_api_server.Base.Http.{HttpError, database_failed}

pub record Repository (E S : Type 0) : Type 0 where
  pub find_one : (E → Bool) → S → Option E
  pub insert : E → S → Bool × S
  -- the row that was loaded under the given id becomes the entity
  pub update_row : String → E → S → Bool × S
  pub delete_row : String → S → Bool × S

-- The documented behaviour, by the table's rows: a flush is a transaction, and ids are unique.
pub record RepositoryLaws {E S : Type 0} (id_of : E → String) (repo : Repository E S) : Type 0 where
  pub row : String → S → Option E
  pub row_id : (k : String) (s : S) (e : E) → row k s ≡ some e → id_of e ≡ k
  pub find_one_some :
      (p : E → Bool) (s : S) (e : E)
      → repo.find_one p s ≡ some e
      → (row (id_of e) s ≡ some e) × (p e ≡ true)
  pub find_one_none :
      (p : E → Bool) (s : S) (k : String) (e : E)
      → repo.find_one p s ≡ none
      → row k s ≡ some e
      → p e ≡ false
  pub insert_failed :
      (e : E) (s : S) (k : String)
      → (repo.insert e s).0 ≡ false
      → row k (repo.insert e s).1 ≡ row k s
  pub insert_fresh : (e : E) (s : S) → (repo.insert e s).0 ≡ true → row (id_of e) s ≡ none
  pub row-insert :
      (e : E) (s : S) (k : String)
      → (repo.insert e s).0 ≡ true
      → row k (repo.insert e s).1 ≡ (if id_of e == k then some e else row k s)
  pub update_failed :
      (id : String) (e : E) (s : S) (k : String)
      → (repo.update_row id e s).0 ≡ false
      → row k (repo.update_row id e s).1 ≡ row k s
  pub update_fresh :
      (id : String) (e : E) (s : S)
      → (repo.update_row id e s).0 ≡ true
      → id_of e ≢ id
      → row (id_of e) s ≡ none
  pub row-update :
      (id : String) (e : E) (s : S) (k : String)
      → (repo.update_row id e s).0 ≡ true
      → row k (repo.update_row id e s).1
        ≡ (if id_of e == k then some e else if id == k then none else row k s)
  pub delete_failed :
      (id : String) (s : S) (k : String)
      → (repo.delete_row id s).0 ≡ false
      → row k (repo.delete_row id s).1 ≡ row k s
  pub row-delete :
      (id : String) (s : S) (k : String)
      → (repo.delete_row id s).0 ≡ true
      → row k (repo.delete_row id s).1 ≡ (if id == k then none else row k s)

-- An answer, once the flush went through.
abbrev pub flushed : {S A : Type 0} → A → Bool × S → Result HttpError A × S
flushed a (true, s) = (ok a, s)
flushed a (false, s) = (err database_failed, s)

-- what a method returns or throws after a call, by whether the call went through
abbrev pub settled :
    {S A : Type 0} → Result HttpError A → HttpError → Bool × S → Result HttpError A × S
settled r x (true, s) = (r, s)
settled r x (false, s) = (err x, s)

module _ {E S : Type 0} (repo : Repository E S) where
  abbrev pub create_entity : E → Exec HttpError S E
  create_entity e s = flushed e (repo.insert e s)

  abbrev pub store_entity : String → E → Exec HttpError S E
  store_entity id e s = flushed e (repo.update_row id e s)

  abbrev pub remove_entity : String → Exec HttpError S Unit
  remove_entity id s = flushed tt (repo.delete_row id s)

-- `if (value !== undefined) field = value`
abbrev pub given : {A : Type 0} → Option A → A → A
given none old = old
given (some a) old = a

abbrev pub given_optional : {A : Type 0} → Option A → Option A → Option A
given_optional none old = old
given_optional (some a) old = some a

pub state-settled :
    {S A : Type 0}
    → (r : Result HttpError A) (x : HttpError) (p : Bool × S) → (settled r x p).1 ≡ p.1
state-settled r x (true, s) = refl
state-settled r x (false, s) = refl

pub state-flushed : {S A : Type 0} → (a : A) (p : Bool × S) → (flushed a p).1 ≡ p.1
state-flushed a (true, s) = refl
state-flushed a (false, s) = refl

pub flushed-ok :
    {S A : Type 0} → (a b : A) (p : Bool × S) → (flushed a p).0 ≡ ok b → (p.0 ≡ true) × (a ≡ b)
flushed-ok a b (true, s) h = (refl, ground arith)
flushed-ok a b (false, s) h = ground arith
