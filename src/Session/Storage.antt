-- ===== src/Session/Storage.antt =====
-- libs/mcp-server/src/lib/session/session-storage.ts: the session, and what a storage offers. Times
-- are milliseconds. The values of `data` are opaque.
use oksai_cc_api_server.Base.{
  ℕ, String, Bool, true, Option, none, some, List, Map, if◌then◌else◌, ◌==◌, string_eq, ◌≡◌,
  is_some, ◌&&◌,
}

module _ (V : Type 0) where
  pub record Session : Type 0 where
    pub id : String
    pub user_id : Option String
    pub organization_id : Option String
    pub tenant_id : Option String
    pub created_at : ℕ
    pub last_accessed_at : ℕ
    pub contents : Map String V

  pub record SessionStats : Type 0 where
    pub total : ℕ
    pub active : ℕ
    pub expired : ℕ

  -- `SessionStorage`: each method takes the storage's state, and those that read the clock the time.
  pub record SessionStorage (S : Type 0) : Type 0 where
    pub create : Session → S → Bool × S
    pub find_by_id : String → S → Option Session
    pub find_by_user_id : String → S → List Session
    pub update : Session → S → Bool × S
    pub remove : String → S → Bool × S
    pub delete_by_user_id : String → S → ℕ × S
    pub clear : S → ℕ × S
    pub cleanup_expired : ℕ → ℕ → S → ℕ × S
    pub get_stats : ℕ → S → SessionStats

  -- What the manager relies on.
  pub record StorageLaws {S : Type 0} (st : SessionStorage S) : Type 0 where
    pub create_ok : (x : Session) (s : S) → (st.create x s).0 ≡ true
    pub find-create :
        (x : Session) (s : S) (id : String)
        → st.find_by_id id (st.create x s).1 ≡ (if x.id == id then some x else st.find_by_id id s)
    pub update_ok : (x : Session) (s : S) → (st.update x s).0 ≡ is_some (st.find_by_id x.id s)
    pub find-update :
        (x : Session) (s : S) (id : String)
        → st.find_by_id id (st.update x s).1
          ≡ (if x.id == id && is_some (st.find_by_id x.id s) then some x else st.find_by_id id s)
    pub remove_ok : (id : String) (s : S) → (st.remove id s).0 ≡ is_some (st.find_by_id id s)
    pub find-remove :
        (gone id : String) (s : S)
        → st.find_by_id id (st.remove gone s).1 ≡ (if gone == id then none else st.find_by_id id s)
