-- ===== src/RateLimit/Cleanup.antt =====
-- The sweep over elapsed windows.
use oksai_cc_api_server.Base.{
  ℕ, ◌≤◌, String, Bool, false, Option, none, some, [], ◌∷◌, Map, get, delete, if◌then◌else◌, ◌==◌,
  string_eq, nat_eq, leb, ◌&&◌, ◌||◌, ◌≡◌, refl, sym, ◌∙◌, arith, eq_iff, inl, inr, Option-cases,
  get-delete, UniqueKeys, ap,
}
use oksai_cc_api_server.RateLimit.{
  RateLimitOptions, RateLimitInfo, RateLimiter, cleanup_loop, cleanup_expired_entries,
  handle_request, get_rate_limit_info,
}
use oksai_cc_api_server.RateLimit.Heap.{IsWellFormed, counted}
use oksai_cc_api_server.RateLimit.Window.{seen, seen_at, seen-handle_request}

abbrev is_over : ℕ → Option RateLimitInfo → Bool
is_over now none = false
is_over now (some i) = leb i.reset_time now

-- The list has an entry for the key whose window is over.
has_elapsed : ℕ → Map ℕ RateLimitInfo → String → Map String ℕ → Bool
has_elapsed now infos key [] = false
has_elapsed now infos key ((k, r) ∷ entries) =
    (k == key && is_over now (get r infos)) || has_elapsed now infos key entries

get-cleanup_loop :
    (now : ℕ) (entries : Map String ℕ) (key : String) (s : RateLimiter)
    → (get key (cleanup_loop now entries s).store
        ≡ (if has_elapsed now s.infos key entries then none else get key s.store))
      × ((cleanup_loop now entries s).infos ≡ s.infos)
unfolding cleanup_loop has_elapsed
get-cleanup_loop now [] key s = (refl, refl)
get-cleanup_loop now ((k, r) ∷ entries) key s = elim (Option-cases (get r s.infos)) [
  | inl gone ↦ ground (arith, get-cleanup_loop now entries key s)
  | inr (i, there) ↦ ground (
    arith,
    get-cleanup_loop now entries key s,
    get-delete k key s.store,
    get-cleanup_loop now entries key (record s { store = delete k s.store }),
  )
]

absent-has_elapsed :
    (now : ℕ) (infos : Map ℕ RateLimitInfo) (key : String) (m : Map String ℕ)
    → get key m ≡ none
    → has_elapsed now infos key m ≡ false
unfolding get has_elapsed
absent-has_elapsed now infos key [] e = refl
absent-has_elapsed now infos key ((k, r) ∷ m) e = ground (arith, absent-has_elapsed now infos key m)

has_elapsed_lem :
    (now : ℕ) (infos : Map ℕ RateLimitInfo) (key : String) (m : Map String ℕ) (r : ℕ)
    → UniqueKeys m
    → get key m ≡ some r
    → has_elapsed now infos key m ≡ is_over now (get r infos)
unfolding get has_elapsed
has_elapsed_lem now infos key [] r u e = cc
has_elapsed_lem now infos key ((k, q) ∷ m) r u e =
    ground (
      arith,
      eq_iff k key,
      absent-has_elapsed now infos key m,
      has_elapsed_lem now infos key m r u.1,
    )

-- What is left of a counter.
abbrev pub still_running : ℕ → Option RateLimitInfo → Option RateLimitInfo
still_running now none = none
still_running now (some i) = if leb i.reset_time now then none else some i

-- The sweep forgets exactly the counters whose window is over.
pub get_rate_limit_info-cleanup :
    (now : ℕ) (key : String) (s : RateLimiter)
    → IsWellFormed s
    → get_rate_limit_info key (cleanup_expired_entries now s)
      ≡ still_running now (get_rate_limit_info key s)
unfolding get_rate_limit_info cleanup_expired_entries
get_rate_limit_info-cleanup now key s w =
    let (left, same) = get-cleanup_loop now s.store key s in
    elim (Option-cases (get key s.store)) [
      | inl missing ↦ ground (arith, left)
      | inr (r, there) ↦ elim (Option-cases (get r s.infos)) [
        | inl gone ↦
            ground (arith, left, same, has_elapsed_lem now s.infos key s.store r w.unique there)
        | inr (i, found) ↦
            ground (arith, left, same, has_elapsed_lem now s.infos key s.store r w.unique there)
      ]
    ]

counted-still_running :
    (o : RateLimitOptions) (swept now : ℕ) (i : Option RateLimitInfo)
    → swept ≤ now
    → counted o now (still_running swept i) ≡ counted o now i
counted-still_running o swept now none before = refl
counted-still_running o swept now (some i) before = ground arith

-- The sweep is not seen: a request that comes no earlier than a sweep gets the reply it would have
-- got without the sweep.
pub handle_request-cleanup :
    (o : RateLimitOptions) (swept now : ℕ) (key : String) (s : RateLimiter)
    → IsWellFormed s
    → swept ≤ now
    → seen (handle_request o key now (cleanup_expired_entries swept s)).0
      ≡ seen (handle_request o key now s).0
handle_request-cleanup o swept now key s w before =
    seen-handle_request o key now (cleanup_expired_entries swept s)
    ∙ ap (seen_at o now) (
        ap (counted o now) (get_rate_limit_info-cleanup swept key s w)
        ∙ counted-still_running o swept now (get_rate_limit_info key s) before)
    ∙ sym (seen-handle_request o key now s)
