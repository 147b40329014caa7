-- ===== src/Tests/Domain.antt =====
-- internal/domain, on the inputs of its tests and on a fixed tape of random bytes.
use lapis_archive_file_servi.Prelude.{
  ◌%◌, ◌<◌, [], ◌∷◌, Bytes, codes, ◌≡◌, refl, arith, All, map, length, ◌↔◌,
}
use lapis_archive_file_servi.Prelude.Int.{pos, ◌+ℤ◌, ◌≤ℤ◌, ◌<ℤ◌}
use lapis_archive_file_servi.Result.{Result, ok, err, expired, wrong_code, invalid_slug}
use lapis_archive_file_servi.Hex
use lapis_archive_file_servi.Utf8.{string_of, runes, decode_rune, encode_rune}
use lapis_archive_file_servi.Time.{hour}
use lapis_archive_file_servi.Domain.{
  Share, Tape, random_string, bound_ttl, validate_slug, normalize_code, new_share, rotate, verify,
  hash_code, random_letters, draw_code, rand_read, slug_alphabet, max_share_count,
}
use lapis_archive_file_servi.Domain.Codes.{
  Spells, IsCodeLetter, normalize_code-Spells, normalize_code_idem,
}
use lapis_archive_file_servi.Domain.Random.{drawn, random_string-drawn, random_string-All}
use lapis_archive_file_servi.Domain.Slugs.{IsSlug, validate_slug-IsSlug}
use lapis_archive_file_servi.Domain.Shares.{IsByte, IsIssued, rotate-IsIssued, new_share-IsIssued}
use lapis_archive_file_servi.Domain.Verify.{verify-IsIssued}

-- A digest for the tests: the text itself, brought down to bytes.
abbrev pub digest : Bytes → Bytes
digest = map (λ b. b % 256)

pub digest-IsByte : (a : Bytes) → All IsByte (digest a)
digest-IsByte [] = tt
digest-IsByte (b ∷ a) = (omega arith, digest-IsByte a)

abbrev pub tape : Tape
tape = codes "abcdefghijklmnopqrstuvwxyz012345"

pub tape-IsByte : All IsByte tape
tape-IsByte = ground arith

abbrev issued : Result (Share × Bytes) × Tape
issued = new_share digest (codes "k_f") (codes "f") 3 [] [] [] hour (pos 0) tape

abbrev pub the_code : Bytes
the_code = codes "MNPQRS"

abbrev pub the_slug : Bytes
the_slug = codes "JKLMNOPQRS"

normal : normalize_code (codes " abc-2d e") ≡ codes "ABC2DE"
unfolding normalize_code string_of runes decode_rune encode_rune
normal = refl

short_slug : validate_slug (codes "abc") ≡ err invalid_slug
unfolding validate_slug
short_slug = refl

-- the share that `issued` holds
abbrev pub the_share : Share
the_share = record {
  slug = the_slug;
  storage_key = codes "k_f";
  file_name = codes "f";
  file_size = 3;
  owner_id = [];
  owner_email = [];
  recipient_email = [];
  code_salt = Hex.encode (codes "qrstuvwxyz012345");
  code_hash = hash_code digest (codes "qrstuvwxyz012345") the_code;
  share_count = 1;
  created_at = pos 0;
  expires_at = pos 3600000000000;
}

issued_ok : issued.0 ≡ ok (the_share, the_code)
unfolding new_share random_string random_letters draw_code rand_read bound_ttl ◌+ℤ◌
issued_ok = refl

abbrev pub the_share_again : Share
the_share_again = record the_share {
  code_salt = Hex.encode (codes "ghijklmnopqrstuv");
  code_hash = hash_code digest (codes "ghijklmnopqrstuv") (codes "BCDEFG");
  share_count = 2;
  expires_at = pos 3600000000005;
}

pub rotated_ok :
    (rotate digest the_share hour (pos 5) tape).0 ≡ ok (the_share_again, codes "BCDEFG")
unfolding rotate random_string random_letters draw_code rand_read bound_ttl ◌+ℤ◌
rotated_ok = refl

the_share-IsIssued : IsIssued digest (pos 0) hour the_share the_code
the_share-IsIssued =
    (new_share-IsIssued digest (codes "k_f") (codes "f") 3 [] [] [] hour (pos 0) tape tape-IsByte
      issued_ok).0

the_code-letters : All IsCodeLetter the_code
the_code-letters = the_share-IsIssued.well_formed.1

rotate-IsIssued_example :
    IsIssued digest (pos 5) hour the_share_again (codes "BCDEFG")
    × (1 < max_share_count)
    × (the_share_again ≡ the_share_again)
rotate-IsIssued_example = rotate-IsIssued digest the_share hour (pos 5) tape tape-IsByte rotated_ok

pub typed_ok : normalize_code (codes "mn-pq rs") ≡ the_code
unfolding normalize_code string_of runes decode_rune encode_rune
typed_ok = refl

verify-IsIssued_example :
    (pos 0 +ℤ bound_ttl hour <ℤ pos 7
      → verify digest the_share (pos 7) (codes "mn-pq rs") ≡ err expired)
    × (pos 7 ≤ℤ pos 0 +ℤ bound_ttl hour
        → Spells the_code (codes "mn-pq rs")
        → verify digest the_share (pos 7) (codes "mn-pq rs") ≡ ok tt)
    × (pos 7 ≤ℤ pos 0 +ℤ bound_ttl hour
        → ¬ Spells the_code (codes "mn-pq rs")
        → verify digest the_share (pos 7) (codes "mn-pq rs") ≡ err wrong_code)
verify-IsIssued_example =
    verify-IsIssued digest (pos 0) hour the_share the_code (codes "mn-pq rs") (pos 7) digest-IsByte
      (λ salt e. typed_ok) the_share-IsIssued

normalize_code-Spells_example :
    (normalize_code (codes "mn-pq rs") ≡ the_code) ↔ Spells the_code (codes "mn-pq rs")
normalize_code-Spells_example = normalize_code-Spells the_code (codes "mn-pq rs") the_code-letters

normalize_code_idem_example :
    normalize_code (normalize_code (codes "a b")) ≡ normalize_code (codes "a b")
normalize_code_idem_example = normalize_code_idem (codes "a b")

validate_slug-IsSlug_example : (validate_slug the_slug ≡ ok tt) ↔ IsSlug the_slug
validate_slug-IsSlug_example = validate_slug-IsSlug the_slug

random_string-drawn_example : (random_string slug_alphabet 10 tape).0 ≡ drawn slug_alphabet 10 tape
random_string-drawn_example = random_string-drawn slug_alphabet 10 tape

random_string-All_example : (length the_slug ≡ 10) × All IsByte the_slug
unfolding random_string random_letters
random_string-All_example =
    random_string-All IsByte slug_alphabet 10 tape (ground arith) (omega arith) drawn-IsSlug
  where
    drawn-IsSlug : (random_string slug_alphabet 10 tape).0 ≡ ok the_slug
    drawn-IsSlug = refl
