-- ===== src/Session/Manager.antt =====
-- libs/mcp-server/src/lib/session/session-manager.ts over any storage. The clock is the argument
-- `now`, and what `generateSessionId` returns the argument `id`; the logger is left out.
pub mod Laws
use oksai_cc_api_server.Base.{
  ℕ, ◌*◌, String, Bool, true, false, Option, none, some, List, [], ◌∷◌, Map, get, set,
  if◌then◌else◌, ◌==◌, string_eq, nat_eq,
}
use oksai_cc_api_server.Base.Exec.{Result, ok, err}
use oksai_cc_api_server.Session.Storage.{Session, SessionStats, SessionStorage}
use oksai_cc_api_server.Session.Memory.{is_expired, thirty_minutes}

pub data SessionError : Type 0 where
  creation_failed : SessionError

-- `config.ttl || 30 * 60 * 1000`
unfoldable pub ttl_or_default : Option ℕ → ℕ
ttl_or_default none = thirty_minutes
ttl_or_default (some t) = if t == 0 then thirty_minutes else t

-- `userId || null`
abbrev pub or_null : Option String → Option String
or_null none = none
or_null (some u) = if u == "" then none else some u

-- `{ ...old, ...new }`
unfoldable pub spread : {V : Type 0} → Map String V → Map String V → Map String V
spread old [] = old
spread old ((k, v) ∷ new) = spread (set k v old) new

module _ {V S : Type 0} (st : SessionStorage V S) (ttl : Option ℕ) where
  abbrev pub or_empty : Option (Map String V) → Map String V
  or_empty none = []
  or_empty (some d) = d

  abbrev pub new_session :
      ℕ → String → Option String → Option String → Option String → Option (Map String V) → Session V
  new_session now id user organization tenant contents = record {
    id = id;
    user_id = or_null user;
    organization_id = or_null organization;
    tenant_id = or_null tenant;
    created_at = now;
    last_accessed_at = now;
    contents = or_empty contents;
  }

  unfoldable pub create_session :
      ℕ
      → String
      → Option String
      → Option String
      → Option String
      → Option (Map String V)
      → S
      → Result SessionError String × S
  create_session now id user organization tenant contents s =
      let (created, s') = st.create (new_session now id user organization tenant contents) s in
      if created then (ok id, s') else (err creation_failed, s')

  unfoldable pub check_expiry : ℕ → String → Option (Session V) → S → Option (Session V) × S
  check_expiry now id none s = (none, s)
  check_expiry now id (some x) s =
      if is_expired now (ttl_or_default ttl) x then (none, (st.remove id s).1) else (some x, s)

  unfoldable pub find_session : ℕ → String → S → Option (Session V) × S
  unfolding check_expiry
  find_session now id s = check_expiry now id (st.find_by_id id s) s

  abbrev pub merged : Map String V → Option (Map String V) → Map String V
  merged old none = old
  merged old (some new) = spread old new

  unfoldable pub update_found : ℕ → Option (Map String V) → Option (Session V) → S → Bool × S
  update_found now contents none s = (false, s)
  update_found now contents (some x) s =
      st.update (record x { last_accessed_at = now; contents = merged x.contents contents }) s

  unfoldable pub update_session : ℕ → String → Option (Map String V) → S → Bool × S
  unfolding update_found
  update_session now id contents s = update_found now contents (st.find_by_id id s) s

  unfoldable pub set_session_data : ℕ → String → Map String V → S → Bool × S
  unfolding update_session
  set_session_data now id contents s = update_session now id (some contents) s

  unfoldable pub delete_session : String → S → Bool × S
  delete_session id s = st.remove id s

  unfoldable pub delete_user_sessions : String → S → ℕ × S
  delete_user_sessions user s = st.delete_by_user_id user s

  -- `session ? session.field : null`
  abbrev pub field_of : {A : Type 0} → (Session V → Option A) → Option (Session V) → Option A
  field_of f none = none
  field_of f (some x) = f x

  unfoldable pub get_session_data : ℕ → String → S → Option (Map String V) × S
  unfolding find_session
  get_session_data now id s =
      let (found, s') = find_session now id s in (field_of (λ x. some x.contents) found, s')

  unfoldable pub get_user_id : ℕ → String → S → Option String × S
  unfolding find_session
  get_user_id now id s =
      let (found, s') = find_session now id s in (field_of (λ x. x.user_id) found, s')

  unfoldable pub get_organization_id : ℕ → String → S → Option String × S
  unfolding find_session
  get_organization_id now id s =
      let (found, s') = find_session now id s in (field_of (λ x. x.organization_id) found, s')

  unfoldable pub get_tenant_id : ℕ → String → S → Option String × S
  unfolding find_session
  get_tenant_id now id s =
      let (found, s') = find_session now id s in (field_of (λ x. x.tenant_id) found, s')

  unfoldable pub clear_all_sessions : S → ℕ × S
  clear_all_sessions s = st.clear s

  unfoldable pub cleanup_expired_sessions : ℕ → S → ℕ × S
  cleanup_expired_sessions now s = st.cleanup_expired now (ttl_or_default ttl) s

  unfoldable pub get_session_stats : ℕ → S → SessionStats V
  get_session_stats now s = st.get_stats now s
