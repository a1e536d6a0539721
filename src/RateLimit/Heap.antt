-- ===== src/RateLimit/Heap.antt =====
-- The heap of counting objects behind the limiter, and the counter of each key.
use oksai_cc_api_server.Base.{
  ℕ, ◌+◌, ◌<◌, String, true, Option, none, some, get, set, if◌then◌else◌, ◌==◌, string_eq, nat_eq,
  leb, ◌≡◌, arith, eq_iff, get-set, is_some, ◌⊎◌, inl, inr, Option-cases, Bool-cases, UniqueKeys,
  set-UniqueKeys,
}
use oksai_cc_api_server.Base.Integers.{pos, increment}
use oksai_cc_api_server.RateLimit.{
  RateLimitOptions, RateLimitInfo, RateLimiter, open_window, handle_request, get_rate_limit_info,
}

pub record IsWellFormed (s : RateLimiter) : Type 0 where
  pub unique : UniqueKeys s.store
  pub allocated : (k : String) (r : ℕ) → get k s.store ≡ some r → is_some (get r s.infos) ≡ true
  pub older : (k : String) (r : ℕ) → get k s.store ≡ some r → r < s.next_ref
  pub apart : (j k : String) (r : ℕ) → get j s.store ≡ some r → get k s.store ≡ some r → j ≡ k

module _ (o : RateLimitOptions) where
  -- What a request makes of its key's counter.
  abbrev pub counted : ℕ → Option RateLimitInfo → RateLimitInfo
  counted now none = record { count = pos 1; reset_time = now + o.window_ms }
  counted now (some i) =
      if leb i.reset_time now
      then record { count = pos 1; reset_time = now + o.window_ms }
      else record i { count = increment i.count }

  open_window-IsWellFormed :
      (key : String) (now : ℕ) (s : RateLimiter)
      → IsWellFormed s
      → IsWellFormed (open_window o key now s).1
  unfolding open_window
  open_window-IsWellFormed key now s w =
      let i : RateLimitInfo = record { count = pos 1; reset_time = now + o.window_ms } in
      record {
        unique = set-UniqueKeys key s.next_ref s.store w.unique;
        allocated = λ k r e. ground (
          arith,
          get-set key k s.next_ref s.store,
          get-set s.next_ref r i s.infos,
          w.allocated k r,
        );
        older = λ k r e. ground (arith, get-set key k s.next_ref s.store, w.older k r);
        apart = λ j k r e f. ground (
          arith,
          get-set key k s.next_ref s.store,
          get-set key j s.next_ref s.store,
          w.older k r,
          w.older j r,
          w.apart j k r,
          eq_iff key j,
          eq_iff key k,
        );
      }

  bump-IsWellFormed :
      (key : String) (r : ℕ) (i : RateLimitInfo) (s : RateLimiter)
      → get key s.store ≡ some r
      → IsWellFormed s
      → IsWellFormed (record s { store = set key r s.store; infos = set r i s.infos })
  bump-IsWellFormed key r i s at w = record {
    unique = set-UniqueKeys key r s.store w.unique;
    allocated =
        λ k q e. ground (arith, get-set key k r s.store, get-set r q i s.infos, w.allocated k q);
    older = λ k q e. ground (arith, get-set key k r s.store, w.older k q, w.older key q);
    apart = λ j k q e f. ground (
      arith,
      get-set key k r s.store,
      get-set key j r s.store,
      w.apart j k q,
      w.apart key k q,
      w.apart j key q,
      eq_iff key j,
      eq_iff key k,
    );
  }

  -- Where `use` finds nothing, and where it finds a reference.
  handle_request-cases :
      (key : String) (now : ℕ) (s : RateLimiter)
      → ((handle_request o key now s).1 ≡ (open_window o key now s).1)
        ⊎ ((r : ℕ) × (i : RateLimitInfo) × (get key s.store ≡ some r)
            × ((handle_request o key now s).1
                ≡ record s { store = set key r s.store; infos = set r i s.infos }))
  unfolding handle_request
  handle_request-cases key now s = elim (Option-cases (get key s.store)) [
    | inl missing ↦ inl (ground arith)
    | inr (r, there) ↦ elim (Option-cases (get r s.infos)) [
      | inl gone ↦ inl (ground arith)
      | inr (i, found) ↦ elim (Bool-cases (leb i.reset_time now)) [
        | inl elapsed ↦ inl (ground arith)
        | inr live ↦ inr (r, record i { count = increment i.count }, there, ground arith)
      ]
    ]
  ]

  pub handle_request-IsWellFormed :
      (key : String) (now : ℕ) (s : RateLimiter)
      → IsWellFormed s
      → IsWellFormed (handle_request o key now s).1
  handle_request-IsWellFormed key now s w = elim (handle_request-cases key now s) [
    | inl e ↦ rw e (open_window-IsWellFormed key now s w)
    | inr (r, i, at, e) ↦ rw e (bump-IsWellFormed key r i s at w)
  ]

  info-open_window :
      (key other : String) (now : ℕ) (s : RateLimiter)
      → IsWellFormed s
      → get_rate_limit_info other (open_window o key now s).1 ≡ (
          if key == other
          then some (record { count = pos 1; reset_time = now + o.window_ms })
          else get_rate_limit_info other s)
  unfolding get_rate_limit_info open_window
  info-open_window key other now s w =
      let i : RateLimitInfo = record { count = pos 1; reset_time = now + o.window_ms } in
      elim (Option-cases (get other s.store)) [
        | inl missing ↦
            ground
              (arith, get-set key other s.next_ref s.store, get-set s.next_ref s.next_ref i s.infos)
        | inr (q, there) ↦ ground (
          arith,
          get-set key other s.next_ref s.store,
          get-set s.next_ref s.next_ref i s.infos,
          get-set s.next_ref q i s.infos,
          w.older other q,
        )
      ]

  info-bump :
      (key other : String) (r : ℕ) (i : RateLimitInfo) (s : RateLimiter)
      → get key s.store ≡ some r
      → IsWellFormed s
      → get_rate_limit_info other (record s { store = set key r s.store; infos = set r i s.infos })
        ≡ (if key == other then some i else get_rate_limit_info other s)
  unfolding get_rate_limit_info
  info-bump key other r i s at w = elim (Option-cases (get other s.store)) [
    | inl missing ↦ ground (arith, get-set key other r s.store, get-set r r i s.infos)
    | inr (q, there) ↦ ground (
      arith,
      get-set key other r s.store,
      get-set r r i s.infos,
      get-set r q i s.infos,
      w.apart key other q,
      eq_iff key other,
    )
  ]

  -- A request counts on its own key and leaves the counters of all others alone.
  pub get_rate_limit_info-handle_request :
      (key other : String) (now : ℕ) (s : RateLimiter)
      → IsWellFormed s
      → get_rate_limit_info other (handle_request o key now s).1 ≡ (
          if key == other
          then some (counted now (get_rate_limit_info key s))
          else get_rate_limit_info other s)
  unfolding handle_request
  get_rate_limit_info-handle_request key other now s w =
      unfold get_rate_limit_info in
      elim (Option-cases (get key s.store)) [
        | inl missing ↦ ground (arith, info-open_window key other now s w)
        | inr (r, there) ↦ elim (Option-cases (get r s.infos)) [
          | inl gone ↦ ground (arith, info-open_window key other now s w)
          | inr (i, found) ↦ ground (
            arith,
            info-open_window key other now s w,
            info-bump key other r (record i { count = increment i.count }) s there w,
          )
        ]
      ]
