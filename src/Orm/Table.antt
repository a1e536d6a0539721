-- ===== src/Orm/Table.antt =====
-- A table in memory, which meets what the services rely on of the database: a list of entities,
-- where an earlier one hides those of the same id after it.
use oksai_cc_api_server.Base.{
  String, Bool, true, false, not, Option, none, some, List, [], ◌∷◌, if◌then◌else◌, ◌==◌, string_eq,
  ◌&&◌, ◌≡◌, ◌≢◌, arith, eq_iff, is_some,
}
use oksai_cc_api_server.Orm.{Repository, RepositoryLaws}

module _ {E : Type 0} (id_of : E → String) where
  unfoldable pub look_up : String → List E → Option E
  look_up k [] = none
  look_up k (e ∷ es) = if id_of e == k then some e else look_up k es

  unfoldable pub first : (E → Bool) → List E → Option E
  first p [] = none
  first p (e ∷ es) = if p e then some e else first (λ x. p x && not (id_of x == id_of e)) es

  unfoldable pub without : String → List E → List E
  without id [] = []
  without id (e ∷ es) = if id_of e == id then without id es else e ∷ without id es

  unfoldable pub add : E → List E → Bool × List E
  unfolding look_up
  add e es = if is_some (look_up (id_of e) es) then (false, es) else (true, e ∷ es)

  unfoldable pub put : String → E → List E → Bool × List E
  unfolding look_up without
  put id e es =
      if not (id_of e == id) && is_some (look_up (id_of e) es)
      then (false, es)
      else (true, e ∷ without id es)

  unfoldable pub table : Repository E (List E)
  unfolding first add put without
  table = record {
    find_one = first;
    insert = add;
    update_row = put;
    delete_row = λ id es. (true, without id es);
  }

  pub look_up-id_of : (k : String) (es : List E) (e : E) → look_up k es ≡ some e → id_of e ≡ k
  unfolding look_up
  look_up-id_of k [] e h = ground arith
  look_up-id_of k (x ∷ es) e h = ground (arith, eq_iff (id_of x) k, look_up-id_of k es e)

  pub first-some :
      (p : E → Bool) (es : List E) (e : E)
      → first p es ≡ some e
      → (look_up (id_of e) es ≡ some e) × (p e ≡ true)
  unfolding look_up first
  first-some p [] e h = ground arith
  first-some p (x ∷ es) e h = ground (
    arith,
    eq_iff (id_of x) (id_of e),
    eq_iff (id_of e) (id_of x),
    eq_iff (id_of x) (id_of x),
    first-some (λ y. p y && not (id_of y == id_of x)) es e,
  )

  pub first-none :
      (p : E → Bool) (es : List E) (k : String) (e : E)
      → first p es ≡ none
      → look_up k es ≡ some e
      → p e ≡ false
  unfolding look_up first
  first-none p [] k e n h = ground arith
  first-none p (x ∷ es) k e n h = ground (
    arith,
    eq_iff (id_of x) k,
    eq_iff (id_of e) (id_of x),
    look_up-id_of k es e,
    first-none (λ y. p y && not (id_of y == id_of x)) es k e,
  )

  pub look_up-without :
      (id k : String) (es : List E)
      → look_up k (without id es) ≡ (if id == k then none else look_up k es)
  unfolding look_up without
  look_up-without id k [] = ground arith
  look_up-without id k (x ∷ es) =
      ground (arith, eq_iff (id_of x) k, eq_iff (id_of x) id, eq_iff id k, look_up-without id k es)

  pub add_failed :
      (e : E) (s : List E) (k : String) → (add e s).0 ≡ false → look_up k (add e s).1 ≡ look_up k s
  unfolding add
  add_failed e s k h = ground arith

  pub add_fresh : (e : E) (s : List E) → (add e s).0 ≡ true → look_up (id_of e) s ≡ none
  unfolding add
  add_fresh e s h = ground arith

  pub look_up-add :
      (e : E) (s : List E) (k : String)
      → (add e s).0 ≡ true
      → look_up k (add e s).1 ≡ (if id_of e == k then some e else look_up k s)
  unfolding add
  look_up-add e s k h = ground arith

  pub put_failed :
      (id : String) (e : E) (s : List E) (k : String)
      → (put id e s).0 ≡ false
      → look_up k (put id e s).1 ≡ look_up k s
  unfolding put
  put_failed id e s k h = ground arith

  pub put_fresh :
      (id : String) (e : E) (s : List E)
      → (put id e s).0 ≡ true
      → id_of e ≢ id
      → look_up (id_of e) s ≡ none
  unfolding put
  put_fresh id e s h d = ground (arith, eq_iff (id_of e) id)

  pub look_up-put :
      (id : String) (e : E) (s : List E) (k : String)
      → (put id e s).0 ≡ true
      → look_up k (put id e s).1
        ≡ (if id_of e == k then some e else if id == k then none else look_up k s)
  unfolding put look_up
  look_up-put id e s k h = ground (arith, look_up-without id k s)

  pub deleted_always :
      (id : String) (s : List E) (k : String)
      → true ≡ false
      → look_up k (without id s) ≡ look_up k s
  deleted_always id s k h = ground arith

  unfoldable pub table-RepositoryLaws : RepositoryLaws id_of table
  unfolding table
  table-RepositoryLaws = record {
    row = look_up;
    row_id = look_up-id_of;
    find_one_some = first-some;
    find_one_none = first-none;
    insert_failed = add_failed;
    insert_fresh = add_fresh;
    row-insert = look_up-add;
    update_failed = put_failed;
    update_fresh = put_fresh;
    row-update = look_up-put;
    delete_failed = deleted_always;
    row-delete = λ id s k h. look_up-without id k s;
  }
