-- ===== src/Handlers/RateLimit/Recent.antt =====
-- The instants after a cutoff, in an ascending list.
use lapis_archive_file_servi.Prelude.{
  ◌≤◌, [], ◌∷◌, ◌++◌, List, Bytes, true, if◌then◌else◌, length, keep_if, All, All-keep_if, ◌≡◌,
  refl, arith, ◌≟◌, ≟_sound, subst, Bool-cases, inl, inr,
}
use lapis_archive_file_servi.Prelude.Int.{◌≤ℤ◌, ◌<ℤ◌}
use lapis_archive_file_servi.Time.{Time, after}
use lapis_archive_file_servi.Dict.{Dict, put, delete_where, lookup-put, IsDict, lookup-delete_where}
use lapis_archive_file_servi.Handlers.RateLimit.{events_of, is_stale, recent}

abbrev pub IsAscending : List Time → Type 0
IsAscending [] = Unit
IsAscending (t ∷ times) = All (λ u. t ≤ℤ u) times × IsAscending times

abbrev pub NotAfter : Time → List Time → Type 0
NotAfter now = All (λ t. t ≤ℤ now)

pub NotAfter-mono : (a b : Time) (times : List Time) → a ≤ℤ b → NotAfter a times → NotAfter b times
NotAfter-mono a b [] h k = tt
NotAfter-mono a b (t ∷ times) h k = (omega arith, NotAfter-mono a b times h k.1)

-- A later cutoff forgets what an earlier one does.
pub recent-recent :
    (c d : Time) (times : List Time) → c ≤ℤ d → recent d (recent c times) ≡ recent d times
unfolding keep_if
recent-recent c d [] h = refl
recent-recent c d (t ∷ times) h = ground (arith, recent-recent c d times h)

pub recent-append : (c : Time) (a b : List Time) → recent c (a ++ b) ≡ recent c a ++ recent c b
unfolding keep_if
recent-append c [] b = refl
recent-append c (t ∷ a) b = ground (arith, recent-append c a b)

pub recent_one : (c t : Time) → c <ℤ t → recent c (t ∷ []) ≡ t ∷ []
unfolding keep_if
recent_one c t h = ground arith

pub length-recent_mono :
    (c d : Time) (times : List Time) → c ≤ℤ d → length (recent d times) ≤ length (recent c times)
unfolding keep_if
length-recent_mono c d [] h = omega arith
length-recent_mono c d (t ∷ times) h = ground (arith, length-recent_mono c d times h)

pub recent-IsAscending :
    (c : Time) (times : List Time) → IsAscending times → IsAscending (recent c times)
unfolding keep_if
recent-IsAscending c [] h = tt
recent-IsAscending c (t ∷ times) h =
    ground
      (arith, recent-IsAscending c times h.1, All-keep_if (λ u. t ≤ℤ u) (λ u. after u c) times h.0)

pub recent-NotAfter :
    (c now : Time) (times : List Time) → NotAfter now times → NotAfter now (recent c times)
recent-NotAfter c now times h = All-keep_if (λ t. t ≤ℤ now) (λ u. after u c) times h

All-append_one :
    (t now : Time) (times : List Time)
    → All (λ u. t ≤ℤ u) times
    → t ≤ℤ now
    → All (λ u. t ≤ℤ u) (times ++ now ∷ [])
All-append_one t now [] h k = (k, tt)
All-append_one t now (u ∷ times) h k = (h.0, All-append_one t now times h.1 k)

pub append_one-IsAscending :
    (now : Time) (times : List Time)
    → IsAscending times
    → NotAfter now times
    → IsAscending (times ++ now ∷ [])
append_one-IsAscending now [] h k = (tt, tt)
append_one-IsAscending now (t ∷ times) h k =
    (All-append_one t now times h.0 k.0, append_one-IsAscending now times h.1 k.1)

pub append_one-NotAfter :
    (now : Time) (times : List Time) → NotAfter now times → NotAfter now (times ++ now ∷ [])
append_one-NotAfter now [] h = (omega arith, tt)
append_one-NotAfter now (t ∷ times) h = (h.0, append_one-NotAfter now times h.1)

-- The eviction looks at the last instant only, and an ascending list has none after it.
stale_last :
    (c t : Time) (times : List Time)
    → IsAscending (t ∷ times)
    → is_stale c (t ∷ times) ≡ true
    → t ≤ℤ c
unfolding is_stale
stale_last c t [] h e = ground arith
stale_last c t (u ∷ times) h e = let below = stale_last c u times h.1 e in omega arith

pub recent_stale :
    (c : Time) (times : List Time)
    → IsAscending times
    → is_stale c times ≡ true
    → recent c times ≡ []
unfolding is_stale keep_if
recent_stale c [] h e = refl
recent_stale c (t ∷ []) h e = ground arith
recent_stale c (t ∷ u ∷ times) h e =
    ground (arith, stale_last c t (u ∷ times) h, recent_stale c (u ∷ times) h.1)

pub events_of-put :
    (k j : Bytes) (times : List Time) (m : Dict (List Time))
    → events_of j (put k times m) ≡ (if k ≟ j then times else events_of j m)
unfolding events_of
events_of-put k j times m = ground (arith, lookup-put k j times m)

-- A sweep leaves the list of a key, or drops a list that is stale.
pub events_of-delete_where :
    (c : Time) (j : Bytes) (m : Dict (List Time))
    → IsDict m
    → events_of j (delete_where (is_stale c) m)
      ≡ (if is_stale c (events_of j m) then [] else events_of j m)
unfolding events_of is_stale
events_of-delete_where c j m h = ground (arith, lookup-delete_where (is_stale c) j m h)

-- To show something of every key's list after a write.
pub at_put :
    (P : Bytes → List Time → Type 0) (key : Bytes) (times : List Time) (m : Dict (List Time))
    → P key times
    → (k : Bytes) → P k (events_of k m)
    → P k (events_of k (put key times m))
at_put P key times m new k old = rw (events_of-put key k times m) (elim (Bool-cases (key ≟ k)) [
  | inl same ↦ rw same (subst (λ j. P j times) (≟_sound key k same) new)
  | inr other ↦ rw other old
])
