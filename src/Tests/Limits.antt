-- ===== src/Tests/Limits.antt =====
-- internal/handlers/ratelimit.go, with a limit of two requests in ten nanoseconds.
use lapis_archive_file_servi.Prelude.{
  ◌≤◌, List, [], ◌∷◌, Bytes, codes, false, ◌≡◌, refl, arith, subst, keep_if, ◌≟◌, ◌⊎◌, length,
}
use lapis_archive_file_servi.Prelude.Int.{pos, ◌-ℤ◌}
use lapis_archive_file_servi.Time.{Time}
use lapis_archive_file_servi.Dict.{lookup, put}
use lapis_archive_file_servi.Handlers.RateLimit.{
  RateLimiter, new_rate_limiter, recent, allow, evict_stale, events_of,
}
use lapis_archive_file_servi.Handlers.RateLimit.Bounds.{IsBounded, allow-IsBounded}
use lapis_archive_file_servi.Handlers.RateLimit.Follows.{History, times_of}
use lapis_archive_file_servi.Handlers.RateLimit.History.{
  Tracks, serve, serve-Tracks, new-Tracks, InOrder, serve_within_limit, allow_refuses,
}

abbrev limiter : RateLimiter
limiter = new_rate_limiter 2 (pos 10)

abbrev calls : List (Bytes × Time)
calls = (codes "a", pos 1) ∷ (codes "a", pos 2) ∷ (codes "b", pos 3) ∷ (codes "a", pos 4) ∷ []

allow-IsBounded_example : IsBounded (allow limiter (codes "a") (pos 1)).1
allow-IsBounded_example =
    allow-IsBounded limiter (codes "a") (pos 1)
      (record { keyed = tt; bounded = omega arith; limits = omega arith })

calls-InOrder : InOrder (pos 0) calls (pos 5)
calls-InOrder = ground arith

-- the limiter after the calls: the third request of `a` was refused
abbrev busy : RateLimiter
busy = record {
  events = (codes "a", pos 1 ∷ pos 2 ∷ []) ∷ (codes "b", pos 3 ∷ []) ∷ [];
  limit = 2;
  window = pos 10;
  max_keys = 10000;
}

abbrev passed : History
passed = (codes "a", pos 1) ∷ (codes "a", pos 2) ∷ (codes "b", pos 3) ∷ []

calls_served : serve limiter [] calls ≡ (passed, busy)
unfolding serve allow events_of lookup put keep_if ◌-ℤ◌ evict_stale ◌≟◌
calls_served = refl

busy-Tracks : Tracks (pos 5) passed busy
busy-Tracks =
    let (t, same_window, same_limit) =
      serve-Tracks limiter [] (pos 0) calls (pos 5) (omega arith) (new-Tracks 2 (pos 10) (pos 0))
        calls-InOrder in
    subst (λ (s : History × RateLimiter). Tracks (pos 5) s.0 s.1) calls_served t

refused : (allow busy (codes "a") (pos 5)).0 ≡ false
unfolding allow events_of lookup keep_if ◌-ℤ◌ ◌≟◌
refused = refl

allow_refuses_example :
    (2 ≤ length (recent (pos 5 -ℤ pos 10) (times_of (codes "a") passed)))
    ⊎ ((recent (pos 5 -ℤ pos 10) (times_of (codes "a") passed) ≡ [])
        × (10000 ≤ length (evict_stale (pos 5 -ℤ pos 10) busy).events))
allow_refuses_example = allow_refuses busy (codes "a") (pos 5) busy-Tracks refused

serve_within_limit_example :
    length (
      recent
        (pos 5 -ℤ pos 10)
        (times_of (codes "a") (serve (new_rate_limiter 2 (pos 10)) [] calls).0))
    ≤ 2
serve_within_limit_example =
    serve_within_limit 2 (pos 10) (pos 0) calls (pos 5) (omega arith) calls-InOrder (codes "a")
