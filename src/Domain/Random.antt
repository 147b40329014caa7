-- ===== src/Domain/Random.antt =====
-- `randomString` of internal/domain/share.go: its loop, its letters and the bytes that it uses.
use lapis_archive_file_servi.Prelude.{
  ℕ, suc, zero, ◌+◌, ◌-◌, ◌*◌, ◌/◌, ◌%◌, ◌<◌, [], ◌∷◌, ◌++◌, Bytes, codes, ◌≡◌, sym, ◌∙◌, Bool,
  true, not, arith, All, length, get_or, take, map, keep_if, leb, if◌then◌else◌, append-nil,
  append_assoc, Bool-cases, inl, inr, ◌↔◌, length-map, length-take,
}
use native.Mathlib.Nat.{mod-lt, div-add-mod, add-mul-mod_self_left, mod-eq_of_lt}
use lapis_archive_file_servi.Result.{Result, ok, err, failed}
use lapis_archive_file_servi.Domain.{Tape, accept_limit, random_letters, random_string}

module _ (alphabet : Bytes) where
  -- a byte that the loop does not skip
  abbrev pub accepted : ℕ → Bool
  accepted b = not (leb (accept_limit alphabet) b)

  -- the letter that such a byte stands for
  abbrev pub letter : ℕ → ℕ
  letter b = get_or alphabet (b % length alphabet) 0

  -- what the call returns, written without a loop
  unfoldable pub drawn : ℕ → Tape → Result Bytes
  drawn n tape =
      if leb n (length (keep_if accepted tape))
      then ok (map letter (take n (keep_if accepted tape)))
      else err (failed (codes "entropy source failed"))

  -- the outcome of the loop, with what was appended before
  abbrev after_out : Bytes → Result Bytes → Result Bytes
  after_out out (ok s) = ok (out ++ s)
  after_out out (err e) = err e

  random_letters-drawn :
      (n : ℕ) (out tape : Bytes)
      → (random_letters alphabet n out tape).0 ≡ after_out out (drawn n tape)
  unfolding random_letters drawn keep_if
  random_letters-drawn zero out tape = ground (arith, append-nil out)
  random_letters-drawn (suc n) out [] = ground arith
  random_letters-drawn (suc n) out (b ∷ tape) = elim (Bool-cases (leb (accept_limit alphabet) b)) [
    | inl skip ↦ ground (arith, random_letters-drawn (suc n) out tape)
    | inr take_it ↦ ground (
      arith,
      random_letters-drawn n (out ++ letter b ∷ []) tape,
      append_assoc out (letter b ∷ []) (map letter (take n (keep_if accepted tape))),
    )
  ]

-- The loop returns the letters of the first accepted bytes of the tape, in their order, and fails
-- exactly when the tape holds fewer accepted bytes than letters are asked for.
pub random_string-drawn :
    (alphabet : Bytes) (n : ℕ) (tape : Tape)
    → (random_string alphabet n tape).0 ≡ drawn alphabet n tape
unfolding random_string drawn
random_string-drawn alphabet n tape = ground (arith, random_letters-drawn alphabet n [] tape)

module _ (P : ℕ → Type 0) where
  get_or-All : (s : Bytes) (i d : ℕ) → All P s → i < length s → P (get_or s i d)
  get_or-All [] i d h k = absurd (omega arith)
  get_or-All (c ∷ s) zero d h k = h.0
  get_or-All (c ∷ s) (suc i) d h k = get_or-All s i d h.1 (omega arith)

  map-letter-All :
      (alphabet : Bytes)
      → All P alphabet
      → 0 < length alphabet
      → (bs : Bytes) → All P (map (letter alphabet) bs)
  map-letter-All alphabet h k [] = tt
  map-letter-All alphabet h k (b ∷ bs) =
      (get_or-All alphabet (b % length alphabet) 0 h (mod-lt b k), map-letter-All alphabet h k bs)

  drawn-All :
      (alphabet : Bytes) (n : ℕ) (tape : Tape) {s : Bytes}
      → All P alphabet
      → 0 < length alphabet
      → drawn alphabet n tape ≡ ok s
      → (length s ≡ n) × All P s
  unfolding drawn
  drawn-All alphabet n tape h k e = ground (
    arith,
    length-map (take n (keep_if (accepted alphabet) tape)) (letter alphabet),
    length-take n (keep_if (accepted alphabet) tape),
    map-letter-All alphabet h k (take n (keep_if (accepted alphabet) tape)),
  )

-- A string that was drawn has the length that was asked for, and each of its characters has what
-- all letters of the alphabet have.
pub random_string-All :
    (P : ℕ → Type 0) (alphabet : Bytes) (n : ℕ) (tape : Tape) {s : Bytes}
    → All P alphabet
    → 0 < length alphabet
    → (random_string alphabet n tape).0 ≡ ok s
    → (length s ≡ n) × All P s
random_string-All P alphabet n tape h k e =
    drawn-All P alphabet n tape h k (sym (random_string-drawn alphabet n tape) ∙ e)

module _ (m q i b : ℕ) (below : i < m) (whole : m * q + 256 % m ≡ 256) where
  class_of_accepted :
      (not (leb (256 - 256 % m) b) ≡ true) × (b % m ≡ i) → (b / m < q) × (b ≡ i + m * (b / m))
  class_of_accepted (low, class) =
      let spelled = div-add-mod b m in (grind (arith, spelled), omega (arith, spelled))

  accepted_of_class :
      (k : ℕ) → k < q → b ≡ i + m * k → (not (leb (256 - 256 % m) b) ≡ true) × (b % m ≡ i)
  accepted_of_class k small spelled =
      let room : i + m * k < m * q = grind arith in
      (ground arith, rw (spelled, add-mul-mod_self_left) (mod-eq_of_lt below))

-- Every letter of an alphabet stands for the same number of the bytes that are accepted, for 256 /
-- length of them, so that no letter is favoured.
pub letters_equally_likely :
    (alphabet : Bytes) (i b : ℕ)
    → i < length alphabet
    → ((accepted alphabet b ≡ true) × (b % length alphabet ≡ i))
      ↔ ((k : ℕ) × (k < 256 / length alphabet) × (b ≡ i + length alphabet * k))
letters_equally_likely alphabet i b h =
    let m = length alphabet in
    let whole = div-add-mod 256 m in
    (
      λ both.
          let (small, spelled) = class_of_accepted m (256 / m) i b h whole both in
          (b / m, small, spelled),
      λ found. accepted_of_class m (256 / m) i b h whole found.0 found.1 found.2,
    )

random_letters-rest :
    (P : ℕ → Type 0) (alphabet : Bytes) (n : ℕ) (out tape : Bytes)
    → All P tape
    → All P (random_letters alphabet n out tape).1
unfolding random_letters
random_letters-rest P alphabet zero out tape h = h
random_letters-rest P alphabet (suc n) out [] h = tt
random_letters-rest P alphabet (suc n) out (b ∷ tape) h = ground (
  arith,
  random_letters-rest P alphabet (suc n) out tape h.1,
  random_letters-rest P alphabet n (out ++ letter alphabet b ∷ []) tape h.1,
)

pub random_string-rest :
    (P : ℕ → Type 0) (alphabet : Bytes) (n : ℕ) (tape : Tape)
    → All P tape
    → All P (random_string alphabet n tape).1
unfolding random_string
random_string-rest P alphabet n tape h = random_letters-rest P alphabet n [] tape h
