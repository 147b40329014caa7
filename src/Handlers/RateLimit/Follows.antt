-- ===== src/Handlers/RateLimit/Follows.antt =====
-- The limiter's table against the history of the requests that it let through, write by write.
use lapis_archive_file_servi.Prelude.{
  [], ◌∷◌, ◌++◌, List, Bytes, if◌then◌else◌, keep_if, ◌≡◌, refl, sym, ap, ◌∙◌, arith, inl, inr,
  Bool-cases, ◌≟◌, ≟_sound, subst,
}
use lapis_archive_file_servi.Prelude.Int.{◌≤ℤ◌, ◌<ℤ◌}
use lapis_archive_file_servi.Time.{Time}
use lapis_archive_file_servi.Dict.{Dict, put, delete_where, IsDict, put-IsDict, delete_where-IsDict}
use lapis_archive_file_servi.Handlers.RateLimit.{events_of, is_stale, recent}
use lapis_archive_file_servi.Handlers.RateLimit.Recent.{
  IsAscending, NotAfter, NotAfter-mono, recent-recent, recent-append, recent-IsAscending,
  recent-NotAfter, append_one-IsAscending, append_one-NotAfter, recent_stale, events_of-put,
  events_of-delete_where, at_put,
}

-- The requests that were allowed, the oldest first.
abbrev pub History : Type 0
History = List (Bytes × Time)

-- when the requests of one key were allowed
unfoldable pub times_of : Bytes → History → List Time
times_of key [] = []
times_of key (e ∷ h) = if e.0 ≟ key then e.1 ∷ times_of key h else times_of key h

pub recent_nil : (c : Time) → recent c [] ≡ []
unfolding keep_if
recent_nil c = refl

pub times_of-append_one :
    (key j : Bytes) (t : Time) (h : History)
    → times_of j (h ++ (key, t) ∷ []) ≡ (if key ≟ j then times_of j h ++ t ∷ [] else times_of j h)
unfolding times_of
times_of-append_one key j t [] = ground arith
times_of-append_one key j t (e ∷ h) = ground (arith, times_of-append_one key j t h)

-- After the cutoff, the table holds for each key the instants at which it was allowed.
pub record Follows (c now : Time) (h : History) (m : Dict (List Time)) : Type 0 where
  pub keyed : IsDict m
  pub agrees : (k : Bytes) → recent c (events_of k m) ≡ recent c (times_of k h)
  pub ascending : (k : Bytes) → IsAscending (events_of k m)
  pub not_after : (k : Bytes) → NotAfter now (events_of k m)

module _ {c now : Time} {h : History} {m : Dict (List Time)} (f : Follows c now h m) where
  pub Follows-later : (d later : Time) → c ≤ℤ d → now ≤ℤ later → Follows d later h m
  Follows-later d later p q = record {
    keyed = f.keyed;
    agrees = λ k.
        sym (recent-recent c d (events_of k m) p)
        ∙ ap (recent d) (f.agrees k)
        ∙ recent-recent c d (times_of k h) p;
    ascending = f.ascending;
    not_after = λ k. NotAfter-mono now later (events_of k m) q (f.not_after k);
  }

  pub Follows-sweep : Follows c now h (delete_where (is_stale c) m)
  Follows-sweep = record {
    keyed = delete_where-IsDict (is_stale c) m f.keyed;
    agrees = λ k. ground (
      arith,
      events_of-delete_where c k m f.keyed,
      recent_stale c (events_of k m) (f.ascending k),
      f.agrees k,
      recent_nil c,
    );
    ascending = λ k. ground (arith, events_of-delete_where c k m f.keyed, f.ascending k);
    not_after = λ k. ground (arith, events_of-delete_where c k m f.keyed, f.not_after k);
  }

  pub Follows-keep : (key : Bytes) → Follows c now h (put key (recent c (events_of key m)) m)
  Follows-keep key = record {
    keyed = put-IsDict key (recent c (events_of key m)) m f.keyed;
    agrees = λ k.
        at_put (λ j times. recent c times ≡ recent c (times_of j h)) key kept m
          (recent-recent c c (events_of key m) (omega arith) ∙ f.agrees key) k (f.agrees k);
    ascending = λ k.
        at_put (λ j. IsAscending) key kept m (recent-IsAscending c _ (f.ascending key)) k
          (f.ascending k);
    not_after = λ k.
        at_put (λ j. NotAfter now) key kept m (recent-NotAfter c now _ (f.not_after key)) k
          (f.not_after k);
  }
    where
      kept : List Time
      kept = recent c (events_of key m)

  -- `times` is what is kept of the key's list, in whichever table the new instant is written to.
  pub Follows-admit :
      (key : Bytes) (times : List Time)
      → c <ℤ now
      → recent c times ≡ recent c (times_of key h)
      → IsAscending times
      → NotAfter now times
      → Follows c now (h ++ (key, now) ∷ []) (put key (times ++ now ∷ []) m)
  Follows-admit key times new same asc before = record {
    keyed = put-IsDict key (times ++ now ∷ []) m f.keyed;
    agrees = λ k.
        rw (times_of-append_one key k now h, events_of-put key k (times ++ now ∷ []) m)
          (elim (Bool-cases (key ≟ k)) [
            | inl this ↦ rw this (
                recent-append c times (now ∷ [])
                ∙ ap (λ l. l ++ recent c (now ∷ []))
                    (subst (λ j. recent c times ≡ recent c (times_of j h)) (≟_sound key k this)
                      same)
                ∙ sym (recent-append c (times_of k h) (now ∷ [])))
            | inr other ↦ rw other (f.agrees k)
          ]);
    ascending = λ k.
        at_put (λ j. IsAscending) key (times ++ now ∷ []) m
          (append_one-IsAscending now times asc before) k (f.ascending k);
    not_after = λ k.
        at_put (λ j. NotAfter now) key (times ++ now ∷ []) m (append_one-NotAfter now times before)
          k (f.not_after k);
  }
