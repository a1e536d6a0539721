-- ===== src/RateLimit/Tests.antt =====
-- The theorems about the limiter on a limit of two requests a second.
use oksai_cc_api_server.Base.{
  true, false, some, [], ◌∷◌, get, string_eq, nat_eq, ◌≡◌, refl, arith, eq_iff,
}
use oksai_cc_api_server.Base.Integers.{pos}
use oksai_cc_api_server.RateLimit.{
  RateLimitOptions, RateLimiter, handle_request, send, get_rate_limit_info, cleanup_expired_entries,
}
use oksai_cc_api_server.RateLimit.Heap.{IsWellFormed, get_rate_limit_info-handle_request}
use oksai_cc_api_server.RateLimit.Window.{seen, passed, passed_window, requests_of}
use oksai_cc_api_server.RateLimit.Responses.{late_send, send-handle_request}
use oksai_cc_api_server.RateLimit.Cleanup.{handle_request-cleanup}
use oksai_cc_api_server.RateLimit.Reachable.{
  start, next, request, response, sweep, Reachable-IsWellFormed,
}

abbrev two_a_second : RateLimitOptions
two_a_second = record {
  window_ms = 1000;
  max_requests = 2;
  skip_successful_requests = true;
  skip_failed_requests = false;
}

-- One client has been counted once.
abbrev limiter : RateLimiter
limiter = record {
  store = ("1.2.3.4", 0) ∷ [];
  infos = (0, record { count = pos 1; reset_time = 1500 }) ∷ [];
  next_ref = 1;
}

limiter-IsWellFormed : IsWellFormed limiter
unfolding get
limiter-IsWellFormed = record {
  unique = (refl, tt);
  allocated = λ k r e. ground arith;
  older = λ k r e. ground arith;
  apart = λ j k r e f. ground (arith, eq_iff "1.2.3.4" j, eq_iff "1.2.3.4" k);
}

Reachable-IsWellFormed_example : IsWellFormed (
    cleanup_expired_entries 1600
      (send two_a_second 0 200 (handle_request two_a_second "1.2.3.4" 700 limiter).1))
Reachable-IsWellFormed_example =
    Reachable-IsWellFormed two_a_second limiter _ limiter-IsWellFormed
      (next (next (next start (request "1.2.3.4" 700)) (response 0 200)) (sweep 1600))

passed_window_example :
    passed two_a_second "1.2.3.4"
      (("1.2.3.4", 1500) ∷ ("5.6.7.8", 1600) ∷ ("1.2.3.4", 1700) ∷ ("1.2.3.4", 2499) ∷ [])
      limiter
    ≡ 2
unfolding requests_of get_rate_limit_info get
passed_window_example =
    passed_window two_a_second "1.2.3.4" 1500
      (("5.6.7.8", 1600) ∷ ("1.2.3.4", 1700) ∷ ("1.2.3.4", 2499) ∷ []) limiter limiter-IsWellFormed
      refl (omega arith, (omega arith, (omega arith, tt)))

get_rate_limit_info-handle_request_example :
    get_rate_limit_info "1.2.3.4" (handle_request two_a_second "1.2.3.4" 700 limiter).1
    ≡ some (record { count = pos 2; reset_time = 1500 })
unfolding get_rate_limit_info get
get_rate_limit_info-handle_request_example =
    get_rate_limit_info-handle_request two_a_second "1.2.3.4" "1.2.3.4" 700 limiter
      limiter-IsWellFormed

send-handle_request_example :
    get_rate_limit_info "1.2.3.4"
      (send two_a_second 0 204 (handle_request two_a_second "1.2.3.4" 700 limiter).1)
    ≡ get_rate_limit_info "1.2.3.4" limiter
unfolding get_rate_limit_info get handle_request
send-handle_request_example =
    send-handle_request two_a_second "1.2.3.4" "1.2.3.4" 700 0 204
      (record { limit = 2; remaining = 0; reset = 2 }) limiter limiter-IsWellFormed refl refl refl

late_send_example :
    get_rate_limit_info "1.2.3.4"
      (send two_a_second 0 204 (handle_request two_a_second "1.2.3.4" 1700 limiter).1)
    ≡ get_rate_limit_info "1.2.3.4" (handle_request two_a_second "1.2.3.4" 1700 limiter).1
unfolding get_rate_limit_info get
late_send_example =
    late_send two_a_second "1.2.3.4" "1.2.3.4" 1700 0 204 limiter limiter-IsWellFormed refl refl

handle_request-cleanup_example :
    seen (handle_request two_a_second "1.2.3.4" 1700 (cleanup_expired_entries 1600 limiter)).0
    ≡ seen (handle_request two_a_second "1.2.3.4" 1700 limiter).0
handle_request-cleanup_example =
    handle_request-cleanup two_a_second 1600 1700 "1.2.3.4" limiter limiter-IsWellFormed
      (omega arith)
