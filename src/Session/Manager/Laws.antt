-- ===== src/Session/Manager/Laws.antt =====
-- How a session lives under its manager, over any storage that obeys the storage's laws.
use oksai_cc_api_server.Base.{
  ℕ, suc, ◌-◌, String, true, Option, none, some, [], ◌∷◌, false, Map, get, set, if◌then◌else◌, ◌==◌,
  string_eq, ltb, ◌≡◌, ◌≢◌, refl, arith, eq_iff, get-set, UniqueKeys,
}
use oksai_cc_api_server.Base.Exec.{ok}
use oksai_cc_api_server.Session.Storage.{Session, SessionStorage, StorageLaws}
use oksai_cc_api_server.Session.Memory.{is_expired}
use oksai_cc_api_server.Session.Manager.{
  ttl_or_default, or_null, or_empty, spread, new_session, create_session, check_expiry,
  find_session, get_session_data, set_session_data, merged, update_found, update_session,
}

-- The first of two values that is there.
abbrev pub or_else : {A : Type 0} → Option A → Option A → Option A
or_else none b = b
or_else (some a) b = some a

pub get-spread :
    {V : Type 0} (k : String) (old new : Map String V)
    → UniqueKeys new
    → get k (spread old new) ≡ or_else (get k new) (get k old)
unfolding spread get
get-spread k old [] u = refl
get-spread k old ((j, v) ∷ new) u =
    ground (arith, get-spread k (set j v old) new u.1, get-set j k v old, eq_iff j k)

module _ {V S : Type 0} (st : SessionStorage V S) (laws : StorageLaws V st) (ttl : Option ℕ) where
  -- What `find_session` finds is what is stored, unless it is expired.
  abbrev pub unless_expired : ℕ → Option (Session V) → Option (Session V)
  unless_expired now none = none
  unless_expired now (some x) = if is_expired now (ttl_or_default ttl) x then none else some x

  pub find_session_found :
      (now : ℕ) (id : String) (s : S)
      → (find_session st ttl now id s).0 ≡ unless_expired now (st.find_by_id id s)
  unfolding find_session check_expiry
  find_session_found now id s = ground arith

  -- Afterwards the storage finds under the id what the caller was given, so that an expired session
  -- is gone, and under every other id what it found before.
  pub find-find_session :
      (now : ℕ) (id other : String) (s : S)
      → st.find_by_id other (find_session st ttl now id s).1
        ≡ (if id == other then (find_session st ttl now id s).0 else st.find_by_id other s)
  unfolding find_session check_expiry
  find-find_session now id other s = ground (arith, laws.find-remove id other s, eq_iff id other)

  -- What the session keeps of an id that may be given: an empty one counts as none.
  pub data Kept : Option String → Option String → Type 0 where
    missing : Kept none none
    blank : Kept (some "") none
    text : {t : String} → t ≢ "" → Kept (some t) (some t)

  -- What the session starts with.
  pub data Contains : Option (Map String V) → Map String V → Type 0 where
    nothing_given : Contains none []
    all_given : {m : Map String V} → Contains (some m) m

  -- How long a session lives under a configured lifetime: half an hour if there is none or if it is
  -- zero.
  pub data Lifetime : Option ℕ → ℕ → Type 0 where
    not_set : Lifetime none 1800000
    zero_set : Lifetime (some 0) 1800000
    is_set : {t : ℕ} → Lifetime (some (suc t)) (suc t)

  ttl_or_default-Lifetime : {given : Option ℕ} {l : ℕ} → Lifetime given l → ttl_or_default given ≡ l
  unfolding ttl_or_default
  ttl_or_default-Lifetime not_set = refl
  ttl_or_default-Lifetime zero_set = refl
  ttl_or_default-Lifetime is_set = ground arith

  or_null-Kept : {given kept : Option String} → Kept given kept → or_null given ≡ kept
  or_null-Kept missing = refl
  or_null-Kept blank = refl
  or_null-Kept (text {t} n) = ground (arith, eq_iff t "")

  or_empty-Contains :
      {given : Option (Map String V)} {m : Map String V}
      → Contains given m
      → or_empty st ttl given ≡ m
  or_empty-Contains nothing_given = refl
  or_empty-Contains all_given = refl

  -- A created session is found at a later time exactly while no more than the configured lifetime,
  -- or half an hour if there is none, has passed: under its id, with the user, organization and tenant it was created for, of which an
  -- empty one counts as none, the data it was given or none, and the time of its creation.
  pub find-create_session :
      (now later : ℕ) (id : String) (user organization tenant : Option String)
      (contents : Option (Map String V)) (user' organization' tenant' : Option String)
      (start : Map String V) (lifetime : ℕ) (s : S)
      → Kept user user'
      → Kept organization organization'
      → Kept tenant tenant'
      → Contains contents start
      → Lifetime ttl lifetime
      → let made = create_session st ttl now id user organization tenant contents s in
        (made.0 ≡ ok id)
        × ((find_session st ttl later id made.1).0 ≡ (
            if ltb lifetime (later - now)
            then none
            else some (record {
              id = id;
              user_id = user';
              organization_id = organization';
              tenant_id = tenant';
              created_at = now;
              last_accessed_at = now;
              contents = start;
            })))
  unfolding create_session
  find-create_session now later id user organization tenant contents user' organization' tenant'
        start lifetime s own_user own_organization own_tenant own_contents own_lifetime =
      let x = new_session st ttl now id user organization tenant contents in
      let made = st.create x s in
      (
        ground (arith, laws.create_ok x s),
        ground (
          arith,
          laws.create_ok x s,
          laws.find-create x s id,
          eq_iff id id,
          find_session_found later id made.1,
          ttl_or_default-Lifetime own_lifetime,
          or_null-Kept own_user,
          or_null-Kept own_organization,
          or_null-Kept own_tenant,
          or_empty-Contains own_contents,
        ),
      )

  -- Updating a stored session succeeds although it may be expired, and makes it live again: it is
  -- found at a later time while no more than the lifetime has passed since the update.
  pub find-update_session :
      (now later : ℕ) (id : String) (contents : Option (Map String V)) (x : Session V) (s : S)
      → st.find_by_id id s ≡ some x
      → x.id ≡ id
      → let done = update_session st ttl now id contents s in
        (done.0 ≡ true)
        × ((find_session st ttl later id done.1).0 ≡ (
            if ltb (ttl_or_default ttl) (later - now)
            then none
            else some (record x {
              last_accessed_at = now;
              contents = merged st ttl x.contents contents;
            })))
  unfolding update_session update_found
  find-update_session now later id contents x s found own =
      let y : Session V = record x {
        last_accessed_at = now;
        contents = merged st ttl x.contents contents;
      } in
      rw found (
        ground (arith, laws.update_ok y s),
        ground (
          arith,
          laws.update_ok y s,
          laws.find-update y s id,
          eq_iff x.id id,
          find_session_found later id (st.update y s).1,
        ),
      )

  abbrev pub looked_up : String → Option (Map String V) → Option V
  looked_up k none = none
  looked_up k (some contents) = get k contents

  -- After data was set on a stored session, the session's data read within the lifetime hold under
  -- each key the value that was set, or else the one from before.
  pub get_session_data-set_session_data :
      (now later : ℕ) (id k : String) (contents : Map String V) (x : Session V) (s : S)
      → st.find_by_id id s ≡ some x
      → x.id ≡ id
      → ltb (ttl_or_default ttl) (later - now) ≡ false
      → UniqueKeys contents
      → looked_up k
          (get_session_data st ttl later id (set_session_data st ttl now id contents s).1).0
        ≡ or_else (get k contents) (get k x.contents)
  unfolding get_session_data set_session_data
  get_session_data-set_session_data now later id k contents x s found own live u =
      rw ((find-update_session now later id (some contents) x s found own).1, live)
        (get-spread k x.contents contents u)
