-- ===== src/S3/Missing.antt =====
-- internal/storage/s3.go: which errors of the SDK become the sentinel errors that the handlers and the
-- jobs look for.
use lapis_archive_file_servi.Prelude.{
  List, Bytes, codes, some, any_of, map, ◌≟◌, ≟_iff, ◌≡◌, refl, ◌⊎◌, inl, inr, ◌↔◌, arith,
  Bool-cases, Option-cases,
}
use lapis_archive_file_servi.Result.{err, object_not_found, no_such_upload}
use lapis_archive_file_servi.Sort.{sort_by}
use lapis_archive_file_servi.Handlers.Multipart.{Part, before_part}
use lapis_archive_file_servi.Sdk.{Fault, Answer, answer, fault, Client}
use lapis_archive_file_servi.Quote.{Unicode}
use lapis_archive_file_servi.S3.{
  to_completed, about_key, wrap_not_found, wrap_no_such_upload, get_file_size,
  abort_multipart_upload, complete_multipart_upload,
}

-- What S3 documents for a HEAD of a key that has no object.
abbrev pub SaysNotFound : Fault → Type 0
SaysNotFound f = (f.code ≡ some (codes "NotFound")) ⊎ (f.code ≡ some (codes "NoSuchKey"))

abbrev pub SaysNoSuchUpload : Fault → Type 0
SaysNoSuchUpload f = f.code ≡ some (codes "NoSuchUpload")

-- an answer that is a fault of this kind
abbrev pub FaultOf : {A : Type 0} → (Fault → Type 0) → Answer A → Type 0
FaultOf P r = (f : Fault) × (r ≡ fault f) × P f

Answer-cases :
    {A : Type 0} (r : Answer A) → ((a : A) × (r ≡ answer a)) ⊎ ((f : Fault) × (r ≡ fault f))
Answer-cases (answer a) = inl (a, refl)
Answer-cases (fault f) = inr (f, refl)

wrap_not_found_iff :
    (unicode : Unicode) (doing key : Bytes) (f : Fault)
    → (wrap_not_found unicode doing key f ≡ object_not_found) ↔ SaysNotFound f
unfolding wrap_not_found about_key any_of
wrap_not_found_iff unicode doing key f = elim (Option-cases f.code) [
  | inl e ↦ (λ h. ground arith, λ h. ground arith)
  | inr (c, e) ↦
      let first = ≟_iff c (codes "NotFound") in
      let second = ≟_iff c (codes "NoSuchKey") in
      (
        λ h. elim (Bool-cases (c ≟ codes "NotFound")) [
          | inl p ↦ inl (ground (arith, first))
          | inr p ↦ inr (ground (arith, second))
        ],
        λ h. elim h [ inl p ↦ ground (arith, first) | inr p ↦ ground (arith, first, second) ],
      )
]

wrap_no_such_upload_iff :
    (unicode : Unicode) (doing key : Bytes) (f : Fault)
    → (wrap_no_such_upload unicode doing key f ≡ no_such_upload) ↔ SaysNoSuchUpload f
unfolding wrap_no_such_upload about_key any_of
wrap_no_such_upload_iff unicode doing key f = elim (Option-cases f.code) [
  | inl e ↦ (λ h. ground arith, λ h. ground arith)
  | inr (c, e) ↦ (
    λ h. ground (arith, ≟_iff c (codes "NoSuchUpload")),
    λ h. ground (arith, ≟_iff c (codes "NoSuchUpload")),
  )
]

module _ (unicode : Unicode) {O : Type 0} (client : Client O) (bucket key : Bytes) (o : O) where
  pub get_file_size-object_not_found :
      ((get_file_size unicode client bucket key o).0 ≡ err object_not_found)
      ↔ FaultOf SaysNotFound (client.head_object bucket key o).0
  unfolding get_file_size
  get_file_size-object_not_found = elim (Answer-cases (client.head_object bucket key o).0) [
    | inl (size, e) ↦ (λ h. ground arith, λ h. let (f, is, p) = h in ground arith)
    | inr (f, e) ↦
        let iff = wrap_not_found_iff unicode (codes "sizing ") key f in
        (
          λ h. (f, e, iff.0 (ground arith)),
          λ h. let (g, is, p) = h in let same : f ≡ g = cc in ground (arith, iff.1 (rw same p)),
        )
  ]

  pub complete_multipart_upload-no_such_upload :
      (upload_id : Bytes) (parts : List Part)
      → ((complete_multipart_upload unicode client bucket key upload_id parts o).0
          ≡ err no_such_upload)
        ↔ FaultOf SaysNoSuchUpload
            (client.complete_multipart_upload bucket key upload_id
              (map to_completed (sort_by before_part parts))
              o).0
  unfolding complete_multipart_upload
  complete_multipart_upload-no_such_upload upload_id parts =
      elim (Answer-cases
        (client.complete_multipart_upload bucket key upload_id
          (map to_completed (sort_by before_part parts)) o).0) [
            | inl (done, e) ↦ (λ h. ground arith, λ h. let (f, is, p) = h in ground arith)
            | inr (f, e) ↦
                let iff =
                  wrap_no_such_upload_iff unicode (codes "completing multipart upload ") key f in
                (
                  λ h. (f, e, iff.0 (ground arith)),
                  λ h.
                      let (g, is, p) = h in
                      let same : f ≡ g = cc in ground (arith, iff.1 (rw same p)),
                )
          ]

  pub abort_multipart_upload-no_such_upload :
      (upload_id : Bytes)
      → ((abort_multipart_upload unicode client bucket key upload_id o).0 ≡ err no_such_upload)
        ↔ FaultOf SaysNoSuchUpload (client.abort_multipart_upload bucket key upload_id o).0
  unfolding abort_multipart_upload
  abort_multipart_upload-no_such_upload upload_id =
      elim (Answer-cases (client.abort_multipart_upload bucket key upload_id o).0) [
        | inl (done, e) ↦ (λ h. ground arith, λ h. let (f, is, p) = h in ground arith)
        | inr (f, e) ↦
            let iff = wrap_no_such_upload_iff unicode (codes "aborting multipart upload ") key f in
            (
              λ h. (f, e, iff.0 (ground arith)),
              λ h. let (g, is, p) = h in let same : f ≡ g = cc in ground (arith, iff.1 (rw same p)),
            )
      ]

  -- A size request fails with the error for a missing object exactly if S3 says NotFound or
  -- NoSuchKey, and completing or aborting a session fails with the error for a missing session
  -- exactly if S3 says NoSuchUpload.
  pub sentinels_iff :
      (upload_id : Bytes) (parts : List Part)
      → (((get_file_size unicode client bucket key o).0 ≡ err object_not_found)
          ↔ FaultOf SaysNotFound (client.head_object bucket key o).0)
        × (((complete_multipart_upload unicode client bucket key upload_id parts o).0
              ≡ err no_such_upload)
            ↔ FaultOf SaysNoSuchUpload
                (client.complete_multipart_upload bucket key upload_id
                  (map to_completed (sort_by before_part parts))
                  o).0)
        × (((abort_multipart_upload unicode client bucket key upload_id o).0 ≡ err no_such_upload)
            ↔ FaultOf SaysNoSuchUpload (client.abort_multipart_upload bucket key upload_id o).0)
  sentinels_iff upload_id parts = (
    get_file_size-object_not_found,
    complete_multipart_upload-no_such_upload upload_id parts,
    abort_multipart_upload-no_such_upload upload_id,
  )
