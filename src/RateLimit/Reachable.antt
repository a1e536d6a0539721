-- ===== src/RateLimit/Reachable.antt =====
-- The limiter as a state machine: requests, responses, sweeps and clearings.
use oksai_cc_api_server.Base.{
  ℕ, String, Option, none, some, [], ◌∷◌, Map, get, delete, ◌==◌, string_eq, nat_eq, arith,
  Bool-cases, inl, inr, get-delete, get-set, delete-UniqueKeys,
}
use oksai_cc_api_server.Base.Integers.{decrement}
use oksai_cc_api_server.RateLimit.{
  RateLimitOptions, RateLimitInfo, RateLimiter, deref, is_elapsed, cleanup_loop, send, decrement_at,
  cleanup_expired_entries, handle_request, clear_rate_limit,
}
use oksai_cc_api_server.RateLimit.Responses.{send_lem, is_skipped}
use oksai_cc_api_server.RateLimit.Heap.{IsWellFormed, handle_request-IsWellFormed}

pub data Step (o : RateLimitOptions) (s : RateLimiter) : RateLimiter → Type 0 where
  request : (key : String) (now : ℕ) → Step o s (handle_request o key now s).1
  response : (r status : ℕ) → Step o s (send o r status s)
  sweep : (now : ℕ) → Step o s (cleanup_expired_entries now s)
  clearing : (key : Option String) → Step o s (clear_rate_limit key s)

pub data Reachable (o : RateLimitOptions) (s : RateLimiter) : RateLimiter → Type 0 where
  start : Reachable o s s
  next : {s' s'' : RateLimiter} → Reachable o s s' → Step o s' s'' → Reachable o s s''

delete-IsWellFormed :
    (key : String) (s : RateLimiter)
    → IsWellFormed s
    → IsWellFormed (record s { store = delete key s.store })
delete-IsWellFormed key s w = record {
  unique = delete-UniqueKeys key s.store w.unique;
  allocated = λ k r e. ground (arith, get-delete key k s.store, w.allocated k r);
  older = λ k r e. ground (arith, get-delete key k s.store, w.older k r);
  apart = λ j k r e f.
      ground (arith, get-delete key k s.store, get-delete key j s.store, w.apart j k r);
}

empty-IsWellFormed : (s : RateLimiter) → IsWellFormed (record s { store = [] })
unfolding get
empty-IsWellFormed s = record {
  unique = tt;
  allocated = λ k r e. cc;
  older = λ k r e. cc;
  apart = λ j k r e f. cc;
}

clear_rate_limit-IsWellFormed :
    (key : Option String) (s : RateLimiter) → IsWellFormed s → IsWellFormed (clear_rate_limit key s)
unfolding clear_rate_limit
clear_rate_limit-IsWellFormed none s w = empty-IsWellFormed s
clear_rate_limit-IsWellFormed (some key) s w = elim (Bool-cases (key == "")) [
  | inl e ↦ rw e (empty-IsWellFormed s)
  | inr n ↦ rw n (delete-IsWellFormed key s w)
]

cleanup_loop-IsWellFormed :
    (now : ℕ) (entries : Map String ℕ) (s : RateLimiter)
    → IsWellFormed s
    → IsWellFormed (cleanup_loop now entries s)
unfolding cleanup_loop
cleanup_loop-IsWellFormed now [] s w = w
cleanup_loop-IsWellFormed now ((k, r) ∷ entries) s w =
    elim (Bool-cases (is_elapsed now (deref s (some r)))) [
      | inl e ↦ rw e (cleanup_loop-IsWellFormed now entries _ (delete-IsWellFormed k s w))
      | inr n ↦ rw n (cleanup_loop-IsWellFormed now entries s w)
    ]

decrement_at-IsWellFormed :
    (r : ℕ) (s : RateLimiter) → IsWellFormed s → IsWellFormed (decrement_at r (get r s.infos) s)
decrement_at-IsWellFormed r s w = go (get r s.infos)
  where
    go : (found : Option RateLimitInfo) → IsWellFormed (decrement_at r found s)
    go none = w
    go (some i) = record {
      unique = w.unique;
      allocated = λ k q e.
          ground
            (arith, get-set r q (record i { count = decrement i.count }) s.infos, w.allocated k q);
      older = w.older;
      apart = w.apart;
    }

send-IsWellFormed :
    (o : RateLimitOptions) (r status : ℕ) (s : RateLimiter)
    → IsWellFormed s
    → IsWellFormed (send o r status s)
send-IsWellFormed o r status s w = elim (Bool-cases (is_skipped o status)) [
  | inl y ↦ rw (send_lem o r status s, y) (decrement_at-IsWellFormed r s w)
  | inr n ↦ rw (send_lem o r status s, n) w
]

Step-IsWellFormed :
    (o : RateLimitOptions) (s s' : RateLimiter) → Step o s s' → IsWellFormed s → IsWellFormed s'
Step-IsWellFormed o s _ (request key now) w = handle_request-IsWellFormed o key now s w
Step-IsWellFormed o s _ (response r status) w = send-IsWellFormed o r status s w
Step-IsWellFormed o s _ (sweep now) w =
    unfold cleanup_expired_entries in cleanup_loop-IsWellFormed now s.store s w
Step-IsWellFormed o s _ (clearing key) w = clear_rate_limit-IsWellFormed key s w

-- Whatever requests, responses, sweeps and clearings come, in whatever order, every key of the
-- store points to a counter, and no two keys to the same one.
pub Reachable-IsWellFormed :
    (o : RateLimitOptions) (s s' : RateLimiter)
    → IsWellFormed s
    → Reachable o s s'
    → IsWellFormed s'
Reachable-IsWellFormed o s _ w start = w
Reachable-IsWellFormed o s s'' w (next {s' = before} r t) =
    Step-IsWellFormed o before s'' t (Reachable-IsWellFormed o s before w r)
