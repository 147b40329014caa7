-- ===== src/Tests/Handlers.antt =====
-- internal/handlers: a bucket that has every file, and requests that share, open and revoke one.
use lapis_archive_file_servi.Prelude.{
  [], ◌∷◌, codes, true, false, none, some, any_of, ◌≟◌, find_if, keep_if, length, ◌≤◌, ◌<◌, ◌≡◌,
  ◌≢◌, ◌↔◌, refl, All,
}
use lapis_archive_file_servi.Prelude.Int.{pos, ◌+ℤ◌, ◌*ℤ◌, ◌-ℤ◌, ◌≤ℤ◌, ◌<ℤ◌}
use lapis_archive_file_servi.Utf8.{string_of, runes, runes_after, decode_rune, encode_rune}
use lapis_archive_file_servi.Hex
use lapis_archive_file_servi.Result.{ok}
use lapis_archive_file_servi.Time.{Time, hour, times, wrap_int64, signed, to_micros}
use lapis_archive_file_servi.Uuid.{canonical, unbraced, groups, skip_hyphen, hex_digit}
use lapis_archive_file_servi.Dict.{lookup, put}
use lapis_archive_file_servi.Storagekey.{cut, split}
use lapis_archive_file_servi.Domain.{
  Share, Upload, User, new_share, verify, random_string, random_letters, draw_code, rand_read,
  bound_ttl, validate_slug, is_slug_letter, hash_code, normalize_code,
}
use lapis_archive_file_servi.Domain.Codes.{Spells}
use lapis_archive_file_servi.Domain.Slugs.{IsSlug}
use lapis_archive_file_servi.Store.{statement, run_fated}
use lapis_archive_file_servi.Store.Shares
use lapis_archive_file_servi.Store.Uploads
use lapis_archive_file_servi.Handlers.RateLimit.{new_rate_limiter, allow, events_of}
use lapis_archive_file_servi.Handlers.World.{
  World, Reply, success, Storage, db_shares, read_clock, allow_ip, allow_slug,
}
use lapis_archive_file_servi.Handlers.Keys.{valid_key}
use lapis_archive_file_servi.Handlers.Keys.Shape.{IsKeyByte, valid_key-IsKeyByte}
use lapis_archive_file_servi.Handlers.Issue.{create_share-success}
use lapis_archive_file_servi.Handlers.Ownership.{others, create_share_owned, revoke_share-others}
use lapis_archive_file_servi.Handlers.Again.{unlock_share-reusable}
use lapis_archive_file_servi.Store.Reads.{calmed}
use lapis_archive_file_servi.Handlers.Retention.{cap_to_retention-bounds}
use lapis_archive_file_servi.Handlers.Reshare.{
  CreateShare, Created, cap_to_retention, cap, cap_to, create_share, share_file, share_new,
  store_new,
}
use lapis_archive_file_servi.Handlers.Share.{
  Unlock, Unlocked, revoke_share, unlock_share, unlock_admitted, allow_unlock, load_share, try_code,
  open_share,
}
use lapis_archive_file_servi.Handlers.Unlock.{Opened, unlock_share-success}
use lapis_archive_file_servi.Tests.Domain.{digest, tape, tape-IsByte, the_share, the_code, the_slug}
use lapis_archive_file_servi.Tests.Store.{no_tables}

abbrev pub files : Storage (Unit {0})
files = record {
  get_presigned_upload_url = λ key size kind o. (ok key, o);
  get_presigned_url = λ key download o. (ok key, o);
  delete_file = λ key o. (ok tt, o);
  get_file_size = λ key o. (ok 3, o);
}

abbrev pub world : World (Unit {0})
world = record {
  db = record { tables = no_tables; fates = [] };
  objects = tt;
  entropy = tape;
  now = pos 0;
  ticks = [];
  per_ip = new_rate_limiter 10 hour;
  per_slug = new_rate_limiter 30 hour;
  meta_per_ip = new_rate_limiter 60 hour;
}

abbrev pub request : CreateShare
request = record {
  storage_key = codes "k_f";
  owner_email = [];
  recipient_email = [];
  ttl_hours = pos 1;
}

valid_key-IsKeyByte_example :
    (valid_key (codes "k_f") ≡ true)
    ↔ ((0 < length (codes "k_f")) × (length (codes "k_f") ≤ 220) × All IsKeyByte (codes "k_f"))
valid_key-IsKeyByte_example = valid_key-IsKeyByte (codes "k_f")

abbrev made : Created
made = record {
  slug = the_slug;
  code = the_code;
  file_name = codes "f";
  file_size = 3;
  share_count = 1;
  rotated = false;
  expires_at = pos 3600000000000;
}

abbrev after_sharing : Reply Created × World (Unit {0})
after_sharing =
    create_share db_shares (some Uploads.get_by_storage_key) hour hour digest files none
      (some request) world

shared : (after_sharing.0 ≡ success made) × (after_sharing.1.db.fates ≡ [])
unfolding create_share valid_key any_of runes runes_after decode_rune share_file
    Shares.get_by_storage_key statement run_fated find_if share_new new_share random_string
    random_letters read_clock draw_code rand_read bound_ttl store_new Shares.create
    Shares.insert_share Shares.share_row cap_to_retention cap cap_to split cut times wrap_int64
    to_micros signed ◌*ℤ◌ ◌+ℤ◌ ◌≟◌ Uploads.get_by_storage_key
shared = (refl, refl)

create_share-success_example :
    (s : Share) × ((Shares.get_by_slug the_slug after_sharing.1.db).0 ≡ ok s)
    × (s.expires_at ≡ pos 3600000000000)
    × (pos 7 ≤ℤ s.expires_at
        → Spells the_code (codes "mn-pq rs")
        → verify digest s (pos 7) (codes "mn-pq rs") ≡ ok tt)
unfolding to_micros
create_share-success_example =
    create_share-success digest (some Uploads.get_by_storage_key) hour hour files none
      (some request) world (codes "mn-pq rs") (pos 7) tape-IsByte shared.0 shared.1

-- the same, with the share of a signed-in user already stored
abbrev pub owned_share : Share
owned_share = record the_share { owner_id = codes "00000000-0000-0000-0000-000000000001" }

abbrev pub filled : World (Unit {0})
filled = record world {
  db = record {
    tables = record no_tables { shares = Shares.share_row owned_share ∷ [] };
    fates = [];
  };
}

owned_found : (Shares.get_by_storage_key (codes "k_f") filled.db).0 ≡ ok owned_share
unfolding Shares.get_by_storage_key statement run_fated find_if ◌≟◌ Shares.share_row
    Shares.scan_share to_micros canonical unbraced groups skip_hyphen hex_digit
owned_found = refl

create_share_owned_example :
    let after =
      create_share db_shares
        (some Uploads.get_by_storage_key)
        hour
        hour
        digest
        files
        none
        (some request)
        filled in
    ((c : Created) → ¬ (after.0 ≡ success c)) × (after.1.db.tables ≡ filled.db.tables)
create_share_owned_example =
    create_share_owned digest (some Uploads.get_by_storage_key) hour hour files none request filled
      owned_share owned_found (λ e. cc) (λ signed. cc (signed.1))

abbrev owner : User
owner = record { id = codes "00000000-0000-0000-0000-000000000001"; email = [] }

revoke_share-others_example :
    let after = (revoke_share db_shares (some owner) the_slug filled).1.db.tables in
    (others (codes "00000000-0000-0000-0000-000000000001") after.shares
      ≡ others (codes "00000000-0000-0000-0000-000000000001") filled.db.tables.shares)
    × (after.uploads ≡ [])
    × ((revoke_share db_shares (some owner) the_slug filled).0 ≡ success the_slug
        → (any_of
              (Shares.is_owned the_slug (codes "00000000-0000-0000-0000-000000000001"))
              filled.db.tables.shares
            ≡ true)
          × (any_of
                (Shares.is_owned the_slug (codes "00000000-0000-0000-0000-000000000001"))
                after.shares
              ≡ false))
revoke_share-others_example = revoke_share-others owner the_slug filled

abbrev pub upload : Upload
upload = record {
  storage_key = codes "k_f";
  owner_id = [];
  file_name = codes "f";
  size_bytes = 3;
  created_at = pos 0;
  delete_attempts = 0;
}

cap_to_retention-bounds_example :
    let capped =
      (cap_to_retention db_shares
        (some (λ key db. (ok upload, db)))
        (pos 5)
        hour
        (codes "k_f")
        the_share
        world).0 in
    (capped ≡ record the_share { expires_at = capped.expires_at })
    × (capped.expires_at ≤ℤ pos 3600000000000)
    × (ok upload ≡ ok upload
        → (upload.owner_id ≡ [] → pos 0 <ℤ pos 5 → capped.expires_at ≤ℤ pos 0 +ℤ pos 5)
          × (upload.owner_id ≢ [] → pos 0 <ℤ hour → capped.expires_at ≤ℤ pos 0 +ℤ hour))
cap_to_retention-bounds_example =
    cap_to_retention-bounds db_shares (λ key db. (ok upload, db)) (pos 5) hour (codes "k_f")
      the_share world upload

abbrev attempt : Unlock
attempt = record { code = codes "mn-pq rs"; download = true }

abbrev opened : Unlocked
opened = record { url = codes "k_f"; expires_in = 3600; file_name = codes "f"; file_size = 3 }

unlocked :
    (unlock_share db_shares digest files (codes "c") the_slug (some attempt) filled).0
    ≡ success opened
unfolding unlock_share validate_slug any_of runes runes_after decode_rune encode_rune string_of
    is_slug_letter allow_unlock allow_slug allow_ip allow events_of lookup put keep_if read_clock
    unlock_admitted load_share Shares.get_by_slug statement run_fated find_if ◌≟◌ Shares.share_row
    Shares.scan_share try_code open_share verify ◌-ℤ◌ Hex.decode Hex.encode Hex.nibble Hex.digit
    hash_code normalize_code to_micros canonical unbraced groups skip_hyphen hex_digit
unlocked = refl

unlock_share-success_example :
    IsSlug the_slug
    × ((allow_unlock the_slug (codes "c") filled).0 ≡ true)
    × ((req : Unlock) × (some attempt ≡ some req)
        × Opened db_shares digest files the_slug req
            (allow_unlock the_slug (codes "c") filled).1
            opened)
unlock_share-success_example =
    unlock_share-success db_shares digest files (codes "c") the_slug (some attempt) filled unlocked

unlock_share-reusable_example :
    let after = unlock_share db_shares digest files (codes "c") the_slug (some attempt) filled in
    (after.1.db.tables ≡ filled.db.tables)
    × ((share : Share) × ((Shares.get_by_slug the_slug filled.db).0 ≡ ok share)
        × ((Shares.get_by_slug the_slug (calmed after.1.db)).0 ≡ ok share)
        × ((t : Time) → t ≤ℤ share.expires_at → verify digest share t attempt.code ≡ ok tt))
unlock_share-reusable_example =
    unlock_share-reusable digest files (codes "c") the_slug attempt filled unlocked
