-- ===== src/S3/Inline.antt =====
-- `GetPresignedURL` of internal/storage/s3.go: a page that a browser would run is only ever served as
-- a download.
use lapis_archive_file_servi.Prelude.{
  ℕ, ◌≤◌, ◌<◌, [], ◌∷◌, ◌++◌, List, Bytes, codes, Bool, true, false, some, map, any_of, ◌≟◌, ≟_iff,
  ◌≡◌, ◌≢◌, refl, ap, All, All-append, ◌⊎◌, inl, inr, arith, Bool-cases,
}
use lapis_archive_file_servi.Utf8.{string_of, encode_rune}
use lapis_archive_file_servi.Utf8.Ascii.{IsAscii, runes_of_ascii}
use lapis_archive_file_servi.Result.{ok}
use lapis_archive_file_servi.Time.{Duration}
use lapis_archive_file_servi.Sdk.{answer, GetObject, Client}
use lapis_archive_file_servi.Text.{lower_ascii}
use lapis_archive_file_servi.Storagekey.{build, split}
use lapis_archive_file_servi.Storagekey.RoundTrip.{Lacks, split-build}
use lapis_archive_file_servi.Quote.{Unicode, quote, quote_after, to_lower, lower_rune}
use lapis_archive_file_servi.Quote.Closed.{
  IsVisible, after_quote, quote-IsVisible, after_quote-quote,
}
use lapis_archive_file_servi.Handlers.Names.{is_slash, path_ext}
use lapis_archive_file_servi.S3.{
  inline_risky, attachment, get_input, get_presigned_url, presign_ttl,
}

-- the extensions of the pages and images that can carry scripts
abbrev scripted : List Bytes
scripted =
    codes ".html"
    ∷ codes ".htm"
    ∷ codes ".xhtml"
    ∷ codes ".xht"
    ∷ codes ".shtml"
    ∷ codes ".svg"
    ∷ codes ".svgz"
    ∷ codes ".xml"
    ∷ []

-- One of these eight, in any mixture of cases.
abbrev pub IsScripted : Bytes → Type 0
IsScripted ext = any_of (λ e. map lower_ascii ext ≟ e) scripted ≡ true

-- A header that makes a browser save the file: of visible bytes, and its quoted name ends with it.
pub record IsAttachment (header : Bytes) : Type 0 where
  pub name : Bytes
  pub spelled : header ≡ codes "attachment; filename=\"" ++ name
  pub visible : All IsVisible header
  pub closed : after_quote false name ≡ some []

abbrev IsLetter : ℕ → Type 0
IsLetter c = (c < 0x80) × (c ≢ b'.') × (c ≢ b'/')

abbrev IsLower : ℕ → Type 0
IsLower c = (b'a' ≤ c) × (c ≤ b'z')

-- a dot and small letters
abbrev IsExtension : Bytes → Type 0
IsExtension [] = ⊥
IsExtension (c ∷ s) = (c ≡ b'.') × All IsLower s

any_of_found :
    {A : Type 0} (Q : A → Type 0) (p : A → Bool) (xs : List A)
    → All Q xs
    → any_of p xs ≡ true
    → (x : A) × Q x × (p x ≡ true)
unfolding any_of
any_of_found Q p [] h e = cc
any_of_found Q p (x ∷ xs) h e = elim (Bool-cases (p x)) [
  | inl here ↦ (x, h.0, here)
  | inr there ↦ any_of_found Q p xs h.1 (ground arith)
]

lower-IsLetter : (s : Bytes) → All IsLower (map lower_ascii s) → All IsLetter s
lower-IsLetter [] h = tt
lower-IsLetter (c ∷ s) h = (ground arith, lower-IsLetter s h.1)

lower-IsExtension :
    (ext : Bytes)
    → IsExtension (map lower_ascii ext)
    → (s : Bytes) × (ext ≡ b'.' ∷ s) × All IsLetter s
lower-IsExtension [] h = absurd h
lower-IsExtension (c ∷ s) h = (s, ground arith, lower-IsLetter s h.1)

IsScripted-shape : (ext : Bytes) → IsScripted ext → (s : Bytes) × (ext ≡ b'.' ∷ s) × All IsLetter s
IsScripted-shape ext h =
    let (e, shape, found) =
      any_of_found IsExtension (λ e. map lower_ascii ext ≟ e) scripted (omega arith) h in
    lower-IsExtension ext (rw ((≟_iff (map lower_ascii ext) e).0 found) shape)

path_ext_none : (s : Bytes) → All IsLetter s → path_ext s ≡ []
unfolding path_ext
path_ext_none [] h = refl
path_ext_none (c ∷ s) h = ground (arith, path_ext_none s h.1)

no_slash : (s : Bytes) → All IsLetter s → any_of is_slash s ≡ false
unfolding any_of
no_slash [] h = refl
no_slash (c ∷ s) h = ground (arith, no_slash s h.1)

path_ext-append : (stem s : Bytes) → All IsLetter s → path_ext (stem ++ b'.' ∷ s) ≡ b'.' ∷ s
unfolding path_ext
path_ext-append [] s h = ground (arith, path_ext_none s h, no_slash s h)
path_ext-append (c ∷ stem) s h = ground (arith, path_ext-append stem s h)

IsLetter-IsAscii : (s : Bytes) → All IsLetter s → All IsAscii s
IsLetter-IsAscii [] h = tt
IsLetter-IsAscii (c ∷ s) h = (h.0.0, IsLetter-IsAscii s h.1)

module _ (unicode : Unicode) where
  string_of-lower :
      (s : Bytes) → All IsAscii s → string_of (map (lower_rune unicode) s) ≡ map lower_ascii s
  unfolding string_of lower_rune encode_rune
  string_of-lower [] h = refl
  string_of-lower (c ∷ s) h = ground (arith, string_of-lower s h.1)

  to_lower_ascii : (s : Bytes) → All IsAscii s → to_lower unicode s ≡ map lower_ascii s
  unfolding to_lower
  to_lower_ascii s h = rw (runes_of_ascii s h) (string_of-lower s h)

  -- The name of a key decides, whatever stands before the extension.
  inline_risky-build :
      (id stem ext : Bytes)
      → Lacks b'_' id
      → IsScripted ext
      → inline_risky unicode (build id (stem ++ ext)) ≡ true
  unfolding inline_risky
  inline_risky-build id stem ext h r =
      let (s, e, letters) = IsScripted-shape ext r in
      rw
        (
          split-build id (stem ++ ext) h,
          ap (λ x. path_ext (stem ++ x)) e,
          path_ext-append stem s letters,
          ← e,
          to_lower_ascii ext (rw e (omega arith, IsLetter-IsAscii s letters)),
        )
        r

  attachment-IsAttachment : (key : Bytes) → IsAttachment (attachment unicode key)
  unfolding attachment quote
  attachment-IsAttachment key = record {
    name = quote_after unicode 0 (split key).1 ++ b'"' ∷ [];
    spelled = refl;
    visible =
        All-append IsVisible (codes "attachment; filename=") (quote unicode (split key).1)
          (omega arith) (quote-IsVisible unicode (split key).1);
    closed = after_quote-quote unicode (split key).1 [];
  }

  module _ (bucket : Bytes) where
    -- what is signed for a download, or for a file that a browser would run
    pub record IsDownload (key : Bytes) (force : Bool) (i : GetObject) : Type 0 where
      pub named : i.key ≡ key
      pub within_bucket : i.bucket ≡ bucket
      pub header : Bytes
      pub disposition : i.response_content_disposition ≡ some header
      pub attached : IsAttachment header
      pub untyped :
          force ≡ false → i.response_content_type ≡ some (codes "application/octet-stream")

    get_input-IsDownload :
        (key : Bytes) (force : Bool)
        → (force ≡ true) ⊎ (inline_risky unicode key ≡ true)
        → IsDownload key force (get_input unicode bucket key force)
    unfolding get_input
    get_input-IsDownload key true h = record {
      named = refl;
      within_bucket = refl;
      header = attachment unicode key;
      disposition = refl;
      attached = attachment-IsAttachment key;
      untyped = λ e. cc;
    }
    get_input-IsDownload key false (inl h) = cc
    get_input-IsDownload key false (inr h) = rw h (record {
      named = refl;
      within_bucket = refl;
      header = attachment unicode key;
      disposition = refl;
      attached = attachment-IsAttachment key;
      untyped = λ e. refl;
    })

    module _ {O : Type 0} (client : Client O) {Signed : GetObject → Bytes → Type 0}
        (honest : (i : GetObject) (d : Duration) (o : O) (url : Bytes)
          → (client.presign_get_object i d o).0 ≡ answer url
          → Signed i url) where
      get_presigned_url-Signed :
          (key : Bytes) (force : Bool) (o : O) (url : Bytes)
          → (get_presigned_url unicode client bucket key force o).0 ≡ ok url
          → Signed (get_input unicode bucket key force) url
      unfolding get_presigned_url
      get_presigned_url-Signed key force o url e =
          honest (get_input unicode bucket key force) presign_ttl o url (ground arith)

      -- A URL for a file whose name ends with .html, .htm, .xhtml, .xht, .shtml, .svg, .svgz or
      -- .xml, in any mixture of cases and whatever stands before it, and a URL for a forced download
      -- of any file, is signed only for a request that makes the browser save the file: the
      -- disposition is an attachment of visible bytes whose quoted name ends with the header,
      -- whatever bytes the name has, and without the force the type is octet-stream. It takes that
      -- the client signs what it is asked to, and that the file id has no underscore.
      pub get_presigned_url-IsDownload :
          (id stem ext : Bytes) (force : Bool) (o : O) (url : Bytes)
          → Lacks b'_' id
          → (force ≡ true) ⊎ IsScripted ext
          → (get_presigned_url unicode client bucket (build id (stem ++ ext)) force o).0 ≡ ok url
          → (i : GetObject) × Signed i url × IsDownload (build id (stem ++ ext)) force i
      get_presigned_url-IsDownload id stem ext force o url lacks why e =
          let key = build id (stem ++ ext) in
          let risky : (force ≡ true) ⊎ (inline_risky unicode key ≡ true) = elim why [
            | inl f ↦ inl f
            | inr r ↦ inr (inline_risky-build id stem ext lacks r)
          ] in
          (
            get_input unicode bucket key force,
            get_presigned_url-Signed key force o url e,
            get_input-IsDownload key force risky,
          )
