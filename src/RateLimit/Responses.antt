-- ===== src/RateLimit/Responses.antt =====
-- What the wrapped `send` of a response gives back to the counters.
use oksai_cc_api_server.Base.{
  ℕ, zero, suc, String, Bool, true, false, Option, none, some, get, set, if◌then◌else◌, string_eq,
  nat_eq, ltb, leb, ◌&&◌, ◌≡◌, refl, arith, eq_iff, inl, inr, Option-cases, get-set, found_is,
}
use oksai_cc_api_server.Base.Integers.{ℤ, pos, negsuc, increment, decrement}
use oksai_cc_api_server.RateLimit.{
  RateLimitOptions, RateLimitInfo, RateLimiter, Headers, passes, handle_request,
  get_rate_limit_info, open_window, send, decrement_at,
}
use oksai_cc_api_server.RateLimit.Heap.{IsWellFormed, get_rate_limit_info-handle_request}
use oksai_cc_api_server.RateLimit.Window.{is_running}

-- How often a response with this status is taken back: once, or not at all.
abbrev pub is_skipped : RateLimitOptions → ℕ → Bool
is_skipped o status =
    if leb 400 status
    then o.skip_failed_requests
    else o.skip_successful_requests && leb 200 status && ltb status 300

abbrev pub one_less : Option RateLimitInfo → Option RateLimitInfo
one_less none = none
one_less (some i) = some (record i { count = decrement i.count })

decrement-increment : (x : ℤ) → decrement (increment x) ≡ x
decrement-increment (pos n) = refl
decrement-increment (negsuc zero) = refl
decrement-increment (negsuc (suc n)) = refl

module _ (o : RateLimitOptions) where
  pub send_lem :
      (r status : ℕ) (s : RateLimiter)
      → send o r status s ≡ (if is_skipped o status then decrement_at r (get r s.infos) s else s)
  unfolding send
  send_lem r status s = ground arith

  -- A response counts down the object that its request was counted on, if its status is one to
  -- skip, and no other: every key that points to another object keeps its counter.
  pub get_rate_limit_info-send :
      (key : String) (r status : ℕ) (s : RateLimiter)
      → get_rate_limit_info key (send o r status s) ≡ (
          if is_skipped o status && found_is (get key s.store) r
          then one_less (get_rate_limit_info key s)
          else get_rate_limit_info key s)
  unfolding get_rate_limit_info
  get_rate_limit_info-send key r status s =
      rw (send_lem r status s) (elim (Option-cases (get r s.infos)) [
        | inl gone ↦ ground arith
        | inr (i, there) ↦ elim (Option-cases (get key s.store)) [
          | inl missing ↦ ground arith
          | inr (q, found) ↦
              let less : RateLimitInfo = record i { count = decrement i.count } in
              ground (arith, get-set r q less s.infos)
        ]
      ])

  store-running :
      (key : String) (now r : ℕ) (s : RateLimiter)
      → is_running now (get_rate_limit_info key s) ≡ true
      → get key s.store ≡ some r
      → (handle_request o key now s).1.store ≡ set key r s.store
  unfolding get_rate_limit_info handle_request
  store-running key now r s live at = elim (Option-cases (get r s.infos)) [
    | inl gone ↦ absurd (ground arith)
    | inr (i, there) ↦ ground arith
  ]

  store-opening :
      (key : String) (now : ℕ) (s : RateLimiter)
      → is_running now (get_rate_limit_info key s) ≡ false
      → (handle_request o key now s).1.store ≡ set key s.next_ref s.store
  unfolding get_rate_limit_info handle_request open_window
  store-opening key now s over = elim (Option-cases (get key s.store)) [
    | inl missing ↦ ground arith
    | inr (r, at) ↦ elim (Option-cases (get r s.infos)) [
      | inl gone ↦ ground arith
      | inr (i, there) ↦ ground arith
    ]
  ]

  -- the object that a passing request keeps for its response
  counted_on :
      (key : String) (now r : ℕ) (headers : Headers) (s : RateLimiter)
      → is_running now (get_rate_limit_info key s) ≡ true
      → (handle_request o key now s).0 ≡ passes r headers
      → get key s.store ≡ some r
  unfolding get_rate_limit_info handle_request
  counted_on key now r headers s live passed = elim (Option-cases (get key s.store)) [
    | inl missing ↦ absurd (ground (arith, missing, live))
    | inr (q, at) ↦ elim (Option-cases (get q s.infos)) [
      | inl gone ↦ absurd (ground (arith, at, gone, live))
      | inr (i, there) ↦ ground (arith, at, there, live, passed)
    ]
  ]

  -- A request that passes in a running window, and is answered with a status to skip, leaves every
  -- counter as it was before the request.
  pub send-handle_request :
      (key other : String) (now r status : ℕ) (headers : Headers) (s : RateLimiter)
      → IsWellFormed s
      → is_running now (get_rate_limit_info key s) ≡ true
      → (handle_request o key now s).0 ≡ passes r headers
      → is_skipped o status ≡ true
      → get_rate_limit_info other (send o r status (handle_request o key now s).1)
        ≡ get_rate_limit_info other s
  send-handle_request key other now r status headers s w live passed skip =
      let at = counted_on key now r headers s live passed in
      let same = store-running key now r s live at in
      elim (Option-cases (get_rate_limit_info key s)) [
        | inl missing ↦ absurd (ground arith)
        | inr (i, there) ↦ ground (
          arith,
          get_rate_limit_info-send other r status (handle_request o key now s).1,
          same,
          get-set key other r s.store,
          w.apart key other r,
          eq_iff key other,
          get_rate_limit_info-handle_request o key other now s w,
          decrement-increment i.count,
        )
      ]

  -- A response of a request that was counted on a window that is over, once a later request with
  -- the same key has opened a new window, changes no counter, whatever its status.
  pub late_send :
      (key other : String) (now r status : ℕ) (s : RateLimiter)
      → IsWellFormed s
      → get key s.store ≡ some r
      → is_running now (get_rate_limit_info key s) ≡ false
      → get_rate_limit_info other (send o r status (handle_request o key now s).1)
        ≡ get_rate_limit_info other (handle_request o key now s).1
  late_send key other now r status s w at over = ground (
    arith,
    get_rate_limit_info-send other r status (handle_request o key now s).1,
    store-opening key now s over,
    get-set key other s.next_ref s.store,
    w.apart key other r,
    w.older key r,
    eq_iff key other,
  )
