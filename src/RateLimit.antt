-- ===== src/RateLimit.antt =====
-- libs/common/src/lib/middleware/rate-limit.middleware.ts. The counting objects live in a heap, since
-- the wrapped `send` of a response keeps the object that its request was counted on. The clock and
-- the key that `keyGenerator` makes of a request are arguments.
pub mod Heap
pub mod Window
pub mod Responses
pub mod Cleanup
pub mod Reachable
pub mod Tests
use oksai_cc_api_server.Base.{
  ℕ, suc, ◌+◌, ◌-◌, ◌*◌, ◌/◌, String, Bool, true, false, Option, none, some, List, [], ◌∷◌, Map,
  get, set, delete, if◌then◌else◌, ◌==◌, string_eq, nat_eq, ltb, leb, ◌&&◌,
}
use oksai_cc_api_server.Base.Integers.{ℤ, pos, increment, decrement, exceeds, left_of}

-- the fields that the constructor sets
pub record RateLimitOptions : Type 0 where
  pub window_ms : ℕ
  pub max_requests : ℕ
  pub skip_successful_requests : Bool
  pub skip_failed_requests : Bool

-- `value || fallback`
abbrev pub or_default : Option ℕ → ℕ → ℕ
or_default none d = d
or_default (some n) d = if n == 0 then d else n

abbrev pub or_false : Option Bool → Bool
or_false none = false
or_false (some b) = b

unfoldable pub options_of : Option ℕ → Option ℕ → Option Bool → Option Bool → RateLimitOptions
options_of window requests successful unsuccessful = record {
  window_ms = or_default window 60000;
  max_requests = or_default requests 100;
  skip_successful_requests = or_false successful;
  skip_failed_requests = or_false unsuccessful;
}

pub record RateLimitInfo : Type 0 where
  pub count : ℤ
  pub reset_time : ℕ

-- `rateLimitStore` and the objects it points to
pub record RateLimiter : Type 0 where
  pub store : Map String ℕ
  pub infos : Map ℕ RateLimitInfo
  pub next_ref : ℕ

pub record Headers : Type 0 where
  pub limit : ℕ
  pub remaining : ℕ
  pub reset : ℕ

-- `next()` with the object that a wrapped `send` keeps, or the exception with its `Retry-After`
pub data Reply : Type 0 where
  passes : ℕ → Headers → Reply
  too_many_requests : ℕ → Headers → Reply

-- `Math.ceil(ms / 1000)`
abbrev pub ceil_seconds : ℕ → ℕ
ceil_seconds ms = (ms + 999) / 1000

-- `this.rateLimitStore.get(key)`, with the reference
abbrev pub deref : RateLimiter → Option ℕ → Option (ℕ × RateLimitInfo)
deref s none = none
deref s (some r) = elim (get r s.infos) [ none ↦ none | some i ↦ some (r, i) ]

-- the branch for a missing or elapsed window
unfoldable pub open_window :
    RateLimitOptions → String → ℕ → RateLimiter → (ℕ × RateLimitInfo) × RateLimiter
open_window o key now s =
    let info : RateLimitInfo = record { count = pos 1; reset_time = now + o.window_ms } in
    (
      (s.next_ref, info),
      record {
        store = set key s.next_ref s.store;
        infos = set s.next_ref info s.infos;
        next_ref = suc s.next_ref;
      },
    )

-- the object that the request is counted on
unfoldable pub count_request :
    RateLimitOptions
    → String
    → ℕ
    → Option (ℕ × RateLimitInfo)
    → RateLimiter
    → (ℕ × RateLimitInfo) × RateLimiter
unfolding open_window
count_request o key now none s = open_window o key now s
count_request o key now (some (r, i)) s =
    let counted : RateLimitInfo = record i { count = increment i.count } in
    if leb i.reset_time now
    then open_window o key now s
    else ((r, counted), record s { store = set key r s.store; infos = set r counted s.infos })

abbrev pub headers_of : RateLimitOptions → RateLimitInfo → Headers
headers_of o i = record {
  limit = o.max_requests;
  remaining = left_of o.max_requests i.count;
  reset = ceil_seconds i.reset_time;
}

unfoldable pub reply_of : RateLimitOptions → ℕ → ℕ × RateLimitInfo → Reply
reply_of o now (r, i) =
    if exceeds i.count o.max_requests
    then too_many_requests (ceil_seconds (i.reset_time - now)) (headers_of o i)
    else passes r (headers_of o i)

-- `use`
unfoldable pub handle_request : RateLimitOptions → String → ℕ → RateLimiter → Reply × RateLimiter
unfolding count_request reply_of
handle_request o key now s =
    let (at, s') = count_request o key now (deref s (get key s.store)) s in (reply_of o now at, s')

-- `info.count--`
abbrev pub decrement_at : ℕ → Option RateLimitInfo → RateLimiter → RateLimiter
decrement_at r none s = s
decrement_at r (some i) s = record s {
  infos = set r (record i { count = decrement i.count }) s.infos;
}

-- One call of the response's `send`, as wrapped by a request that passed: the wrapper for failed
-- requests is the outer one.
unfoldable pub send : RateLimitOptions → ℕ → ℕ → RateLimiter → RateLimiter
send o r status s =
    let s' =
      if o.skip_failed_requests && leb 400 status then decrement_at r (get r s.infos) s else s in
    if o.skip_successful_requests && leb 200 status && ltb status 300
    then decrement_at r (get r s'.infos) s'
    else s'

-- `now >= info.resetTime`
abbrev pub is_elapsed : ℕ → Option (ℕ × RateLimitInfo) → Bool
is_elapsed now none = false
is_elapsed now (some (r, i)) = leb i.reset_time now

-- the loop of `cleanupExpiredEntries` over the entries
unfoldable pub cleanup_loop : ℕ → Map String ℕ → RateLimiter → RateLimiter
cleanup_loop now [] s = s
cleanup_loop now ((key, r) ∷ entries) s =
    let gone = cleanup_loop now entries (record s { store = delete key s.store }) in
    let kept = cleanup_loop now entries s in
    if is_elapsed now (deref s (some r)) then gone else kept

unfoldable pub cleanup_expired_entries : ℕ → RateLimiter → RateLimiter
cleanup_expired_entries now s = cleanup_loop now s.store s

-- `clearRateLimit(key?)`: an empty key is no key
unfoldable pub clear_rate_limit : Option String → RateLimiter → RateLimiter
clear_rate_limit none s = record s { store = [] }
clear_rate_limit (some key) s =
    if key == "" then record s { store = [] } else record s { store = delete key s.store }

abbrev pub without_ref : Option (ℕ × RateLimitInfo) → Option RateLimitInfo
without_ref none = none
without_ref (some (r, i)) = some i

unfoldable pub get_rate_limit_info : String → RateLimiter → Option RateLimitInfo
get_rate_limit_info key s = without_ref (deref s (get key s.store))
