-- ===== src/RateLimit/Window.antt =====
-- How many requests pass in a window of time.
use oksai_cc_api_server.Base.{
  ℕ, suc, ◌+◌, ◌-◌, ◌<◌, String, Bool, true, false, not, Option, none, some, List, [], ◌∷◌, get,
  if◌then◌else◌, ◌==◌, string_eq, nat_eq, ltb, leb, ◌&&◌, ◌≡◌, refl, arith, eq_iff, inl, inr,
  Option-cases, Bool-cases, All,
}
use oksai_cc_api_server.Base.Integers.{pos, increment, exceeds}
use oksai_cc_api_server.RateLimit.{
  RateLimitOptions, RateLimitInfo, RateLimiter, Reply, passes, too_many_requests, Headers,
  headers_of, ceil_seconds, handle_request, get_rate_limit_info, open_window,
}
use oksai_cc_api_server.RateLimit.Heap.{
  IsWellFormed, counted, handle_request-IsWellFormed, get_rate_limit_info-handle_request,
}

-- What the client sees of a reply: the seconds to wait, if it is refused, and the headers.
abbrev pub seen : Reply → Option ℕ × Headers
seen (passes r h) = (none, h)
seen (too_many_requests retry h) = (some retry, h)

abbrev pub has_passed : Reply → Bool
has_passed (passes r h) = true
has_passed (too_many_requests retry h) = false

-- A window is running for the key.
abbrev pub is_running : ℕ → Option RateLimitInfo → Bool
is_running now none = false
is_running now (some i) = ltb now i.reset_time

module _ (o : RateLimitOptions) where
  -- the reply that a counter brings about
  abbrev pub seen_at : ℕ → RateLimitInfo → Option ℕ × Headers
  seen_at now i =
      if exceeds i.count o.max_requests
      then (some (ceil_seconds (i.reset_time - now)), headers_of o i)
      else (none, headers_of o i)

  -- The reply depends on nothing but the key's counter.
  pub seen-handle_request :
      (key : String) (now : ℕ) (s : RateLimiter)
      → seen (handle_request o key now s).0
        ≡ seen_at now (counted o now (get_rate_limit_info key s))
  unfolding handle_request get_rate_limit_info open_window
  seen-handle_request key now s = elim (Option-cases (get key s.store)) [
    | inl missing ↦ ground arith
    | inr (r, there) ↦ elim (Option-cases (get r s.infos)) [
      | inl gone ↦ ground arith
      | inr (i, found) ↦ ground arith
    ]
  ]

  has_passed-handle_request :
      (key : String) (now : ℕ) (s : RateLimiter)
      → has_passed (handle_request o key now s).0
        ≡ not (exceeds (counted o now (get_rate_limit_info key s)).count o.max_requests)
  unfolding handle_request get_rate_limit_info open_window
  has_passed-handle_request key now s = elim (Option-cases (get key s.store)) [
    | inl missing ↦ ground arith
    | inr (r, there) ↦ elim (Option-cases (get r s.infos)) [
      | inl gone ↦ ground arith
      | inr (i, found) ↦ ground arith
    ]
  ]

  -- How many of the requests, each a key and a time, are for `key`, and how many of those pass.
  unfoldable pub requests_of : String → List (String × ℕ) → ℕ
  requests_of key [] = 0
  requests_of key ((k, t) ∷ rs) = if k == key then suc (requests_of key rs) else requests_of key rs

  unfoldable pub passed : String → List (String × ℕ) → RateLimiter → ℕ
  passed key [] s = 0
  passed key ((k, t) ∷ rs) s =
      let rest = passed key rs (handle_request o k t s).1 in
      if k == key && has_passed (handle_request o k t s).0 then suc rest else rest

  abbrev pub smaller : ℕ → ℕ → ℕ
  smaller a b = if leb a b then a else b

  passed_live :
      (key : String) (rs : List (String × ℕ)) (s : RateLimiter) (i : RateLimitInfo) (c : ℕ)
      → IsWellFormed s
      → get_rate_limit_info key s ≡ some i
      → i.count ≡ pos c
      → All (λ r. r.1 < i.reset_time) rs
      → passed key rs s ≡ smaller (requests_of key rs) (o.max_requests - c)
  unfolding passed requests_of
  passed_live key [] s i c w at n a = ground arith
  passed_live key ((k, t) ∷ rs) s i c w at n (before, a) =
      let w' = handle_request-IsWellFormed o k t s w in
      let info = get_rate_limit_info-handle_request o k key t s w in
      let replied = has_passed-handle_request k t s in
      let s' = (handle_request o k t s).1 in
      elim (Bool-cases (k == key)) [
        | inl same ↦
            let counted_on : RateLimitInfo = record i { count = increment i.count } in
            ground (
              arith,
              eq_iff k key,
              info,
              replied,
              passed_live key rs s' counted_on (suc c) w' (ground (arith, eq_iff k key, info))
                  (ground arith) a,
            )
        | inr other ↦ ground (arith, passed_live key rs s' i c w' (ground (arith, info)) n a)
      ]

  -- From a request on that comes while no window is running for its key, exactly the first
  -- `max_requests` of the requests for the key pass that come before the new window ends, however
  -- requests for other keys lie between them, where no response is given back to the counter.
  pub passed_window :
      (key : String) (now : ℕ) (rs : List (String × ℕ)) (s : RateLimiter)
      → IsWellFormed s
      → is_running now (get_rate_limit_info key s) ≡ false
      → All (λ r. r.1 < now + o.window_ms) rs
      → passed key ((key, now) ∷ rs) s ≡ smaller (suc (requests_of key rs)) o.max_requests
  unfolding passed
  passed_window key now rs s w opens a =
      let i : RateLimitInfo = record { count = pos 1; reset_time = now + o.window_ms } in
      let s' = (handle_request o key now s).1 in
      let opened : counted o now (get_rate_limit_info key s) ≡ i =
        elim (Option-cases (get_rate_limit_info key s)) [
          | inl missing ↦ ground arith
          | inr (old, there) ↦ ground arith
        ] in
      ground (
        arith,
        eq_iff key key,
        has_passed-handle_request key now s,
        passed_live key rs s' i 1 (handle_request-IsWellFormed o key now s w)
            (ground (arith, eq_iff key key, get_rate_limit_info-handle_request o key key now s w))
            refl a,
      )
