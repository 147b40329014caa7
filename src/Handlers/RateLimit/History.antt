-- ===== src/Handlers/RateLimit/History.antt =====
-- The limiter against the history of the requests that it let through.
use lapis_archive_file_servi.Prelude.{
  ℕ, ◌≤◌, ◌<◌, [], ◌∷◌, ◌++◌, List, Bytes, Bool, true, false, length, length-append, keep_if, ◌≡◌,
  refl, ap, ◌∙◌, arith, ◌⊎◌, inl, inr, Bool-cases, ◌≟◌, ≟_sound, subst,
}
use lapis_archive_file_servi.Prelude.Int.{pos, ◌-ℤ◌, ◌≤ℤ◌, ◌<ℤ◌, int_laws}
use lapis_archive_file_servi.Time.{Time, Duration}
use lapis_archive_file_servi.Dict.{Dict, lookup, put, delete_where}
use lapis_archive_file_servi.Handlers.RateLimit.{
  RateLimiter, new_rate_limiter, events_of, is_stale, evict_stale, recent, allow,
}
use lapis_archive_file_servi.Handlers.RateLimit.Recent.{
  recent-recent, recent-append, recent_one, length-recent_mono, recent-IsAscending, recent-NotAfter,
}
use lapis_archive_file_servi.Handlers.RateLimit.Follows.{
  History, times_of, recent_nil, times_of-append_one, Follows, Follows-later, Follows-sweep,
  Follows-keep, Follows-admit,
}

-- The limiter agrees with a history up to an instant, and no window of any key is overfull.
pub record Tracks (now : Time) (h : History) (r : RateLimiter) : Type 0 where
  pub follows : Follows (now -ℤ r.window) now h r.events
  pub held : (k : Bytes) → length (recent (now -ℤ r.window) (times_of k h)) ≤ r.limit

abbrev pub extend : Bool → Bytes → Time → History → History
extend true key t h = h ++ (key, t) ∷ []
extend false key t h = h

abbrev kept_by : RateLimiter → Bytes → Time → List Time
kept_by r key now = recent (now -ℤ r.window) (events_of key r.events)

-- The four ways through `Allow`.
allow-cases :
    (r : RateLimiter) (key : Bytes) (now : Time)
    → let kept = kept_by r key now in
      let swept = delete_where (is_stale (now -ℤ r.window)) r.events in
      (allow r key now ≡ (false, record r { events = put key kept r.events }))
      ⊎ (allow r key now ≡ (false, record r { events = swept }))
      ⊎ ((length kept < r.limit)
          × (allow r key now ≡ (true, record r { events = put key (kept ++ now ∷ []) swept })))
      ⊎ ((length kept < r.limit)
          × (allow r key now ≡ (true, record r { events = put key (kept ++ now ∷ []) r.events })))
unfolding allow
allow-cases r key now = ground arith

module _ {now later : Time} {h : History} (r : RateLimiter) where
  Tracks-later : now ≤ℤ later → Tracks now h r → Tracks later h r
  Tracks-later p t =
      let cut : now -ℤ r.window ≤ℤ later -ℤ r.window = omega int_laws in
      record {
        follows = Follows-later t.follows (later -ℤ r.window) later cut p;
        held = λ k. omega (
          arith,
          t.held k,
          length-recent_mono (now -ℤ r.window) (later -ℤ r.window) (times_of k h) cut,
        );
      }

module _ {now : Time} {h : History} (r : RateLimiter) (key : Bytes) where
  held_admit :
      (k : Bytes)
      → pos 0 <ℤ r.window
      → Tracks now h r
      → length (kept_by r key now) < r.limit
      → length (recent (now -ℤ r.window) (times_of k (h ++ (key, now) ∷ []))) ≤ r.limit
  held_admit k w t room =
      let c = now -ℤ r.window in
      rw (times_of-append_one key k now h) (elim (Bool-cases (key ≟ k)) [
        | inl this ↦
            let one : length (recent c (now ∷ [])) ≡ 1 =
              ap length (recent_one c now (omega int_laws)) in
            rw (this, recent-append c (times_of k h) (now ∷ []), ← ≟_sound key k this)
              (omega (
                arith,
                one,
                room,
                ap length (t.follows.agrees key),
                length-append (recent c (times_of key h)) (recent c (now ∷ [])),
              ))
        | inr other ↦ rw other (t.held k)
      ])

  -- the table that the new instant is written to: swept, or as it was
  admit-Tracks :
      (m : Dict (List Time))
      → pos 0 <ℤ r.window
      → Tracks now h r
      → Follows (now -ℤ r.window) now h m
      → length (kept_by r key now) < r.limit
      → Tracks now
          (h ++ (key, now) ∷ [])
          (record r { events = put key (kept_by r key now ++ now ∷ []) m })
  admit-Tracks m w t f room =
      let c = now -ℤ r.window in
      record {
        follows =
            Follows-admit f key (kept_by r key now) (omega int_laws)
              (recent-recent c c (events_of key r.events) (omega arith) ∙ t.follows.agrees key)
              (recent-IsAscending c _ (t.follows.ascending key))
              (recent-NotAfter c now _ (t.follows.not_after key));
        held = λ k. held_admit k w t room;
      }

  allow-Tracks :
      pos 0 <ℤ r.window
      → Tracks now h r
      → Tracks now (extend (allow r key now).0 key now h) (allow r key now).1
  allow-Tracks w t = elim (allow-cases r key now) [
    | inl e ↦ rw e (record { follows = Follows-keep t.follows key; held = t.held })
    | inr (inl e) ↦ rw e (record { follows = Follows-sweep t.follows; held = t.held })
    | inr (inr (inl (room, e))) ↦ rw e (admit-Tracks _ w t (Follows-sweep t.follows) room)
    | inr (inr (inr (room, e))) ↦ rw e (admit-Tracks r.events w t t.follows room)
  ]

allow-keeps_settings :
    (r : RateLimiter) (key : Bytes) (now : Time)
    → ((allow r key now).1.window ≡ r.window) × ((allow r key now).1.limit ≡ r.limit)
unfolding allow
allow-keeps_settings r key now = ground arith

-- The requests of a run, each with its instant, and what the limiter let through.
unfoldable pub serve : RateLimiter → History → List (Bytes × Time) → History × RateLimiter
serve r h [] = (h, r)
serve r h (call ∷ calls) =
    let (allowed, r') = allow r call.0 call.1 in serve r' (extend allowed call.0 call.1 h) calls

-- The clock does not go back between the requests, and they end at the given instant.
abbrev pub InOrder : Time → List (Bytes × Time) → Time → Type 0
InOrder start [] end = start ≤ℤ end
InOrder start (call ∷ calls) end = (start ≤ℤ call.1) × InOrder call.1 calls end

pub serve-Tracks :
    (r : RateLimiter) (h : History) (start : Time) (calls : List (Bytes × Time)) (end : Time)
    → pos 0 <ℤ r.window
    → Tracks start h r
    → InOrder start calls end
    → Tracks end (serve r h calls).0 (serve r h calls).1
      × ((serve r h calls).1.window ≡ r.window)
      × ((serve r h calls).1.limit ≡ r.limit)
unfolding serve
serve-Tracks r h start [] end w t o = (Tracks-later r o t, refl, refl)
serve-Tracks r h start (call ∷ calls) end w t o =
    let (allowed, r') = allow r call.0 call.1 in
    let (same_window, same_limit) = allow-keeps_settings r call.0 call.1 in
    let tracked = allow-Tracks r call.0 w (Tracks-later r o.0 t) in
    let (good, windows, limits) =
      serve-Tracks r' (extend allowed call.0 call.1 h) call.1 calls end (rw same_window w) tracked
        o.1 in
    (good, windows ∙ same_window, limits ∙ same_limit)

pub new-Tracks :
    (limit : ℕ) (window : Duration) (start : Time) → Tracks start [] (new_rate_limiter limit window)
unfolding events_of times_of keep_if lookup
new-Tracks limit window start = record {
  follows = record { keyed = tt; agrees = λ k. refl; ascending = λ k. tt; not_after = λ k. tt };
  held = λ k. omega arith;
}

-- Whatever the requests and however many keys, a new limiter lets through at most `limit` requests
-- of one key within the window that ends at any later instant, if the window is positive and the
-- clock does not go back.
pub serve_within_limit :
    (limit : ℕ) (window : Duration) (start : Time) (calls : List (Bytes × Time)) (end : Time)
    → pos 0 <ℤ window
    → InOrder start calls end
    → (key : Bytes)
    → length
        (recent (end -ℤ window) (times_of key (serve (new_rate_limiter limit window) [] calls).0))
      ≤ limit
serve_within_limit limit window start calls end w o key =
    let (t, windows, limits) =
      serve-Tracks (new_rate_limiter limit window) [] start calls end w
        (new-Tracks limit window start) o in
    subst
      (λ n.
        length
          (recent (end -ℤ window) (times_of key (serve (new_rate_limiter limit window) [] calls).0))
        ≤ n)
      limits
      (subst
        (λ v.
          length
            (recent (end -ℤ v) (times_of key (serve (new_rate_limiter limit window) [] calls).0))
          ≤ (serve (new_rate_limiter limit window) [] calls).1.limit)
        windows (t.held key))

-- A limiter that tracks the requests that it let through refuses one only if its key has used up
-- the limit within the window, or if it has no recent request and the table is full after the
-- sweep.
pub allow_refuses :
    (r : RateLimiter) (key : Bytes) (now : Time) {h : History}
    → Tracks now h r
    → (allow r key now).0 ≡ false
    → (r.limit ≤ length (recent (now -ℤ r.window) (times_of key h)))
      ⊎ ((recent (now -ℤ r.window) (times_of key h) ≡ [])
          × (r.max_keys ≤ length (evict_stale (now -ℤ r.window) r).events))
unfolding allow events_of
allow_refuses r key now t e = ground (arith, t.follows.agrees key, recent_nil (now -ℤ r.window))
