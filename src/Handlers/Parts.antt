-- ===== src/Handlers/Parts.antt =====
-- The arithmetic of multipart uploads, and what `Complete` sends to the bucket.
use lapis_archive_file_servi.Prelude.{
  ℕ, ◌+◌, ◌-◌, ◌*◌, ◌/◌, ◌^◌, ◌≤◌, ◌<◌, [], ◌∷◌, List, some, true, ◌≡◌, ap, ◌∙◌, arith, Bool-cases,
  inl, inr,
}
use mathlib.Core.List.{Perm}
use native.Mathlib.Nat.{mod-lt, div-add-mod, mod-eq_of_lt}
use lapis_archive_file_servi.Prelude.Int.{ℤ, pos, ◌+ℤ◌, ◌≤ℤ◌, ltb_ℤ}
use lapis_archive_file_servi.Result.{Result-cases, ok}
use lapis_archive_file_servi.Time.{wrap_int64, signed}
use lapis_archive_file_servi.Sort.{
  sort_by, IsSortedBy, IsStrictWeak, sort_by-perm, sort_by-IsSortedBy,
}
use lapis_archive_file_servi.Handlers.World.{World, success}
use lapis_archive_file_servi.Handlers.Keys.{valid_key}
use lapis_archive_file_servi.Handlers.Multipart.{
  Part, part_size, quotient, part_count_of, total_size, before_part, MultipartRef, MultipartStorage,
  Completed, complete_parts, complete_held, complete,
}

wrap_small : (n : ℕ) → n < 2 ^ 63 → wrap_int64 (pos n) ≡ pos n
unfolding wrap_int64 signed
wrap_small n h = ground (arith, mod-eq_of_lt {n = n} {m = 18446744073709551616})

-- The parts cover the file and none of them is empty: the count is the size divided by the size of
-- a part, rounded up. (The size is at least one, and far enough below 2^63 for the sum not to wrap.)
pub part_count_of-bounds :
    (size : ℕ)
    → 0 < size
    → size + part_size ≤ 2 ^ 63
    → (k : ℕ) × (part_count_of size ≡ pos k)
      × (size ≤ k * part_size)
      × (k * part_size < size + part_size)
unfolding part_count_of quotient
part_count_of-bounds size h room =
    let n = size + part_size - 1 in
    let k = n / part_size in
    (
      k,
      ap (λ z. quotient z part_size) (wrap_small n (omega arith)),
      omega (arith, div-add-mod n part_size, mod-lt n {m = part_size} (omega arith)),
      omega (arith, div-add-mod n part_size),
    )

-- the sum of the sizes, without a bound
abbrev pub sum_of : List ℕ → ℕ
sum_of [] = 0
sum_of (n ∷ ns) = n + sum_of ns

-- the parts have these sizes
abbrev pub HasSizes : List Part → List ℕ → Type 0
HasSizes [] [] = Unit
HasSizes (p ∷ parts) (n ∷ ns) = (p.size ≡ pos n) × HasSizes parts ns
HasSizes _ _ = ⊥

+ℤ_pos : (a b : ℕ) → pos a +ℤ pos b ≡ pos (a + b)
unfolding ◌+ℤ◌
+ℤ_pos a b = ground arith

total_size_from :
    (parts : List Part) (sizes : List ℕ) (total : ℕ)
    → HasSizes parts sizes
    → total + sum_of sizes < 2 ^ 63
    → total_size parts (pos total) ≡ pos (total + sum_of sizes)
unfolding total_size
total_size_from [] [] total h room = ap pos (omega arith)
total_size_from (p ∷ parts) (n ∷ sizes) total h room =
    let step : wrap_int64 (pos total +ℤ p.size) ≡ pos (total + n) =
      rw (h.0, +ℤ_pos total n) (wrap_small (total + n) (omega (arith, room))) in
    rw step
      (total_size_from parts sizes (total + n) h.1 (omega (arith, room)) ∙ ap pos (omega arith))
total_size_from [] (n ∷ sizes) total h room = absurd h
total_size_from (p ∷ parts) [] total h room = absurd h

before_part-IsStrictWeak : IsStrictWeak before_part
before_part-IsStrictWeak = record {
  asym = λ p q h. ground arith;
  cotrans = λ p q r h k. ground arith;
}

-- A file that `Complete` reports as done had a valid key, the bucket held parts of it whose sizes
-- add up to at most the limit (if their sum fits an int64), and the bucket was given the parts of
-- the request in ascending order and accepted them.
pub complete-success :
    {O : Type 0} (files : MultipartStorage O) (max_upload_bytes : ℤ) (ref : MultipartRef)
    (parts : List Part) (w : World O) {c : Completed}
    → (complete files max_upload_bytes (some (ref, parts)) w).0 ≡ success c
    → (valid_key ref.storage_key ≡ true)
      × ((held : List Part) × ((files.list_parts ref.storage_key ref.upload_id w.objects).0
            ≡ ok held)
          × ((sizes : List ℕ)
              → HasSizes held sizes
              → sum_of sizes < 2 ^ 63
              → pos (sum_of sizes) ≤ℤ max_upload_bytes))
      × ((sent : List Part) × Perm sent parts
          × IsSortedBy before_part sent
          × ((files.complete_multipart_upload ref.storage_key ref.upload_id sent
                (files.list_parts ref.storage_key ref.upload_id w.objects).1).0
              ≡ ok tt))
unfolding complete complete_held complete_parts
complete-success files max_upload_bytes ref parts w {c} e =
    let there = files.list_parts ref.storage_key ref.upload_id w.objects in
    elim (Bool-cases (valid_key ref.storage_key)) [
      | inr invalid ↦ ground arith
      | inl valid ↦ elim (Result-cases there.0) [
        | inr (x, failed) ↦ ground arith
        | inl (held, got) ↦ elim (Bool-cases (ltb_ℤ max_upload_bytes (total_size held (pos 0)))) [
          | inl large ↦ ground arith
          | inr fits ↦ (
            valid,
            (
              held,
              got,
              λ sizes h room. ground (arith, total_size_from held sizes 0 h (omega (arith, room))),
            ),
            (
              sort_by before_part parts,
              sort_by-perm before_part parts,
              sort_by-IsSortedBy before_part-IsStrictWeak parts,
              ground arith,
            ),
          )
        ]
      ]
    ]
