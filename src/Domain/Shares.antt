-- ===== src/Domain/Shares.antt =====
-- `NewShare` and `Rotate` of internal/domain/share.go: the code that a share is issued with.
use lapis_archive_file_servi.Prelude.{
  ℕ, ◌+◌, ◌≤◌, ◌<◌, Bytes, ◌≡◌, ◌≢◌, sym, ap, subst, inl, inr, ◌↔◌, arith, All, All-take, All-drop,
  length,
}
use lapis_archive_file_servi.Prelude.Int.{pos, ◌+ℤ◌, ◌≤ℤ◌, ◌<ℤ◌}
use lapis_archive_file_servi.Result.{ok, err, share_limit, Result-cases}
use lapis_archive_file_servi.Time.{Time, Duration}
use lapis_archive_file_servi.Hex
use lapis_archive_file_servi.Domain.{
  Share, Tape, bound_ttl, max_ttl, new_share, rotate, hash_code, rand_read, random_string,
  draw_code, code_alphabet, code_length, slug_alphabet, slug_length, salt_length, max_share_count,
}
use lapis_archive_file_servi.Domain.Codes.{IsCodeLetter}
use lapis_archive_file_servi.Domain.Slugs.{IsSlug, IsSlugLetter}
use lapis_archive_file_servi.Domain.Random.{
  drawn, random_string-All, random_string-rest, random_string-drawn,
}

abbrev pub IsByte : ℕ → Type 0
IsByte = Hex.IsByte

-- The lifetime that is used is positive and at most seven days, whatever was asked for; a request
-- inside these bounds is granted as it is.
pub bound_ttl_bounds :
    (ttl : Duration)
    → (pos 0 <ℤ bound_ttl ttl)
      × (bound_ttl ttl ≤ℤ max_ttl)
      × (pos 0 <ℤ ttl → ttl ≤ℤ max_ttl → bound_ttl ttl ≡ ttl)
unfolding bound_ttl
bound_ttl_bounds ttl = ground arith

-- an access code as `randomString` makes it
abbrev pub IsCode : Bytes → Type 0
IsCode code = (length code ≡ code_length) × All IsCodeLetter code

drawn-IsCode :
    (tape : Tape) {s : Bytes} → (random_string code_alphabet code_length tape).0 ≡ ok s → IsCode s
drawn-IsCode tape e =
    random_string-All IsCodeLetter code_alphabet code_length tape (omega arith) (omega arith) e

pub drawn-IsSlug :
    (tape : Tape) {s : Bytes} → (random_string slug_alphabet slug_length tape).0 ≡ ok s → IsSlug s
drawn-IsSlug tape e =
    random_string-All IsSlugLetter slug_alphabet slug_length tape (omega arith) (omega arith) e

drawn_salt :
    (n : ℕ) (tape : Tape) {s : Bytes} → All IsByte tape → (rand_read n tape).0 ≡ ok s → All IsByte s
unfolding rand_read
drawn_salt n tape h e = ground (arith, All-take IsByte n tape h)

drawn_pair :
    (tape : Tape) (code salt : Bytes)
    → All IsByte tape
    → (draw_code tape).0 ≡ ok (code, salt)
    → IsCode code × All IsByte salt
unfolding draw_code
drawn_pair tape code salt h e = ground (
  arith,
  drawn-IsCode tape {s = code},
  random_string-rest IsByte code_alphabet code_length tape h,
  drawn_salt salt_length (random_string code_alphabet code_length tape).1 {s = salt},
)

rand_read-rest : (n : ℕ) (tape : Tape) → All IsByte tape → All IsByte (rand_read n tape).1
unfolding rand_read
rand_read-rest n tape h = ground (arith, All-drop IsByte n tape h)

draw_code-rest : (tape : Tape) → All IsByte tape → All IsByte (draw_code tape).1
unfolding draw_code
draw_code-rest tape h =
    let rest = random_string-rest IsByte code_alphabet code_length tape h in
    ground (
      arith,
      rest,
      rand_read-rest salt_length (random_string code_alphabet code_length tape).1 rest,
    )

random_string_error :
    (alphabet : Bytes) (n : ℕ) (tape : Tape) → (random_string alphabet n tape).0 ≢ err share_limit
random_string_error alphabet n tape =
    rw (random_string-drawn alphabet n tape) (unfold drawn in λ e. ground arith)

rand_read_error : (n : ℕ) (tape : Tape) → (rand_read n tape).0 ≢ err share_limit
unfolding rand_read
rand_read_error n tape e = ground arith

draw_code_error : (tape : Tape) → (draw_code tape).0 ≢ err share_limit
unfolding draw_code
draw_code_error tape e = ground (
  arith,
  random_string_error code_alphabet code_length tape,
  rand_read_error salt_length (random_string code_alphabet code_length tape).1,
)

module _ (sha256 : Bytes → Bytes) where
  -- A code was issued for a share at an instant: the share stores only its salted hash, and lasts
  -- for the lifetime that was granted.
  pub record IsIssued (now : Time) (ttl : Duration) (s : Share) (code : Bytes) : Type 0 where
    pub well_formed : IsCode code
    pub salt : Bytes
    pub salt_bytes : All IsByte salt
    pub salted : s.code_salt ≡ Hex.encode salt
    pub hashed : s.code_hash ≡ hash_code sha256 salt code
    pub granted : s.expires_at ≡ now +ℤ bound_ttl ttl

  pub rotate-inverse :
      (s : Share) (ttl : Duration) (now : Time) (tape : Tape) {s' : Share} {code : Bytes}
      → (rotate sha256 s ttl now tape).0 ≡ ok (s', code)
      → (salt : Bytes) × (s.share_count < max_share_count)
        × ((draw_code tape).0 ≡ ok (code, salt))
        × (s' ≡ record s {
          code_salt = Hex.encode salt;
          code_hash = hash_code sha256 salt code;
          share_count = s.share_count + 1;
          expires_at = now +ℤ bound_ttl ttl;
        })
  unfolding rotate
  rotate-inverse s ttl now tape e = elim (Result-cases (draw_code tape).0) [
    | inl ((c, salt), drawn) ↦ (salt, ground arith, ground arith, ground arith)
    | inr (x, failed) ↦ absurd (ground arith)
  ]

  -- A rotation that succeeds was of a share with fewer than three codes. It counts one code more,
  -- issues a fresh code and expiry, and changes no other field: not the slug, the key or the owner.
  pub rotate-IsIssued :
      (s : Share) (ttl : Duration) (now : Time) (tape : Tape) {s' : Share} {code : Bytes}
      → All IsByte tape
      → (rotate sha256 s ttl now tape).0 ≡ ok (s', code)
      → IsIssued now ttl s' code
        × (s.share_count < max_share_count)
        × (s' ≡ record s {
          code_salt = s'.code_salt;
          code_hash = s'.code_hash;
          share_count = s.share_count + 1;
          expires_at = s'.expires_at;
        })
  rotate-IsIssued s ttl now tape {s'} {code} h e =
      let (salt, room, drawn, made) = rotate-inverse s ttl now tape e in
      let (good, bytes) = drawn_pair tape code salt h drawn in
      (
        record {
          well_formed = good;
          salt = salt;
          salt_bytes = bytes;
          salted = ground arith;
          hashed = ground arith;
          granted = ground arith;
        },
        room,
        ground arith,
      )

  -- `Rotate` reports the share limit exactly when the share has had its three codes.
  pub rotate_at_limit :
      (s : Share) (ttl : Duration) (now : Time) (tape : Tape)
      → ((rotate sha256 s ttl now tape).0 ≡ err share_limit) ↔ (max_share_count ≤ s.share_count)
  unfolding rotate
  rotate_at_limit s ttl now tape = ground (arith, draw_code_error tape)

  pub new_share-inverse :
      (key name : Bytes) (size : ℕ) (owner email to : Bytes) (ttl : Duration) (now : Time)
      (tape : Tape) {s : Share} {code : Bytes}
      → (new_share sha256 key name size owner email to ttl now tape).0 ≡ ok (s, code)
      → (slug : Bytes) × (salt : Bytes) × ((random_string slug_alphabet slug_length tape).0
          ≡ ok slug)
        × ((draw_code (random_string slug_alphabet slug_length tape).1).0 ≡ ok (code, salt))
        × (s ≡ record {
          slug = slug;
          storage_key = key;
          file_name = name;
          file_size = size;
          owner_id = owner;
          owner_email = email;
          recipient_email = to;
          code_salt = Hex.encode salt;
          code_hash = hash_code sha256 salt code;
          share_count = 1;
          created_at = now;
          expires_at = now +ℤ bound_ttl ttl;
        })
  unfolding new_share
  new_share-inverse key name size owner email to ttl now tape e =
      let slugs = random_string slug_alphabet slug_length tape in
      elim (Result-cases slugs.0) [
        | inl (slug, picked) ↦ elim (Result-cases (draw_code slugs.1).0) [
          | inl ((c, salt), drawn) ↦ (slug, salt, picked, ground arith, ground arith)
          | inr (x, failed) ↦ absurd (ground arith)
        ]
        | inr (x, failed) ↦ absurd (ground arith)
      ]

  -- A new share has a valid slug and one code, which was issued at its creation; the file, the
  -- owner and the addresses are those that were given.
  pub new_share-IsIssued :
      (key name : Bytes) (size : ℕ) (owner email to : Bytes) (ttl : Duration) (now : Time)
      (tape : Tape) {s : Share} {code : Bytes}
      → All IsByte tape
      → (new_share sha256 key name size owner email to ttl now tape).0 ≡ ok (s, code)
      → IsIssued now ttl s code
        × IsSlug s.slug
        × (s ≡ record {
          slug = s.slug;
          storage_key = key;
          file_name = name;
          file_size = size;
          owner_id = owner;
          owner_email = email;
          recipient_email = to;
          code_salt = s.code_salt;
          code_hash = s.code_hash;
          share_count = 1;
          created_at = now;
          expires_at = s.expires_at;
        })
  new_share-IsIssued key name size owner email to ttl now tape {s} {code} h e =
      let (slug, salt, picked, drawn, made) =
        new_share-inverse key name size owner email to ttl now tape e in
      let rest = random_string-rest IsByte slug_alphabet slug_length tape h in
      let (good, bytes) = drawn_pair _ code salt rest drawn in
      (
        record {
          well_formed = good;
          salt = salt;
          salt_bytes = bytes;
          salted = ap (λ (t : Share). t.code_salt) made;
          hashed = ap (λ (t : Share). t.code_hash) made;
          granted = ap (λ (t : Share). t.expires_at) made;
        },
        subst IsSlug (sym (ap (λ (t : Share). t.slug) made)) (drawn-IsSlug tape picked),
        ground arith,
      )

  -- what a new share leaves of the tape
  pub new_share-rest :
      (key name : Bytes) (size : ℕ) (owner email to : Bytes) (ttl : Duration) (now : Time)
      (tape : Tape)
      → All IsByte tape
      → All IsByte (new_share sha256 key name size owner email to ttl now tape).1
  unfolding new_share
  new_share-rest key name size owner email to ttl now tape h =
      let rest = random_string-rest IsByte slug_alphabet slug_length tape h in
      ground (arith, rest, draw_code-rest (random_string slug_alphabet slug_length tape).1 rest)
