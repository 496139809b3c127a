-- ===== src/Upload/Request.antt =====
-- cmd/lomob/upload-iso.go, `prepareUploadRequest`, the end of `uploadRawParts`, and
-- `validateISOMetafile`. The calls of the client, `filepath.Base` and the part of a text before its
-- first dash are parameters.
use lomo_backup.Common.{
  ℕ, ◌≡◌, ◌↔◌, ◌⊎◌, ap, ◌∙◌, refl, Bool, true, false, not, ◌&&◌, Bool-cases, inl, inr, Option, none,
  some, List, [], ◌∷◌, Bytes, length, ◌==◌, ==_iff, bytes_eq, bytes_eq_sound, bytes_eq_refl,
  if◌then◌else◌, arith,
}
use lomo_backup.Types.{IsoInfo, iso_uploaded}
use lomo_backup.Io.{IoError, Result, ok, err}
use lomo_backup.Dbx.{Tables}
use lomo_backup.Dbx.Iso.{update_iso_upload_info, update_iso_status}

-- `clients.UploadRequest`, without its time.
pub record UploadRequest : Type 0 where
  pub id : Bytes
  pub bucket : Bytes
  pub key : Bytes

-- Size and hash of an object in the cloud.
pub record RemoteInfo : Type 0 where
  pub size : ℕ
  pub hash_remote : Bytes

-- What `prepareUploadRequest` decides: an object of another size or hash is refused, one that is there
-- needs no upload, and else an upload is resumed or made.
pub data Decision : Type 0 where
  client_failed : IoError → Decision
  other_size : Decision
  other_hash : Decision
  no_need : Decision
  resumed : UploadRequest → Decision
  created : UploadRequest → IsoInfo → Tables → Decision

module _ (base before_dash : Bytes → Bytes) (head : Bytes → Bytes → Result (Option RemoteInfo))
    (create : Bytes → Bytes → Result UploadRequest) where
  saved_request : Bytes → IsoInfo → Tables → Result UploadRequest → Decision
  saved_request region iso t (err e) = client_failed e
  saved_request region iso t (ok request) =
      let iso' = record iso {
        region = region;
        bucket = request.bucket;
        upload_key = request.key;
        upload_id = request.id;
      } in
      created request iso' (update_iso_upload_info iso' t)

  -- Without an object that counts.
  resumed_or_created : Bytes → Bytes → IsoInfo → Tables → Decision
  unfolding saved_request
  resumed_or_created region bucket iso t =
      if bytes_eq iso.region region
        && bytes_eq iso.bucket bucket
        && not (bytes_eq iso.upload_id [])
        && not (bytes_eq iso.upload_key [])
      then resumed (record { id = iso.upload_id; bucket = bucket; key = iso.upload_key })
      else saved_request region iso t (create bucket (base iso.name))

  -- With an object, unless the upload is forced.
  compared : IsoInfo → RemoteInfo → Decision
  compared iso remote =
      if not (remote.size == iso.size)
      then other_size
      else if not (bytes_eq iso.hash_remote [])
          && not (bytes_eq remote.hash_remote [])
          && not (bytes_eq (before_dash remote.hash_remote) iso.hash_remote)
      then other_hash
      else no_need

  headed : Bytes → Bytes → IsoInfo → Bool → Tables → Result (Option RemoteInfo) → Decision
  unfolding resumed_or_created compared
  headed region bucket iso force t (err e) = client_failed e
  headed region bucket iso force t (ok none) = resumed_or_created region bucket iso t
  headed region bucket iso force t (ok (some remote)) =
      if force then resumed_or_created region bucket iso t else compared iso remote

  unfoldable pub prepare_upload_request : Bytes → Bytes → IsoInfo → Bool → Tables → Decision
  unfolding headed
  prepare_upload_request region bucket iso force t =
      headed region bucket iso force t (head bucket (base iso.name))

-- The end of `uploadRawParts`, with the client's answer to `CompleteMultipartUpload`: the image counts
-- as uploaded only if no part failed and the client completed the upload.
unfoldable pub finish_upload : IsoInfo → List ℕ → Option IoError → Tables → Tables × Bool
finish_upload iso (n ∷ failed) completed t = (t, false)
finish_upload iso [] (some e) t = (t, false)
finish_upload iso [] none t = (update_iso_status iso.id iso_uploaded t, true)

-- What `validateISOMetafile` meets: `os.Open` fails, because the file is not there or for another
-- reason; or the file is there, and `Stat` and `ReadAll` give its size and its content, or fail.
pub data FoundMeta : Type 0 where
  not_there : FoundMeta
  not_opened : IoError → FoundMeta
  there : Result ℕ → Result Bytes → FoundMeta

-- After `os.WriteFile`, with its error: what the file holds then.
rewritten : Option IoError → Bytes → Result Bytes
rewritten none tree = ok tree
rewritten (some e) tree = err e

content_checked : Option IoError → Bytes → Result Bytes → Result Bytes
unfolding rewritten
content_checked write tree (err e) = err e
content_checked write tree (ok content) =
    if bytes_eq content tree then ok content else rewritten write tree

-- `validateISOMetafile`: its error, or else what the meta file holds behind it.
unfoldable pub validate_iso_metafile : FoundMeta → Option IoError → Bytes → Result Bytes
unfolding rewritten content_checked
validate_iso_metafile not_there write tree = rewritten write tree
validate_iso_metafile (not_opened e) write tree = err e
validate_iso_metafile (there (err e) content) write tree = err e
validate_iso_metafile (there (ok size) content) write tree =
    if not (size == length tree) then rewritten write tree else content_checked write tree content

module _ (base before_dash : Bytes → Bytes) (head : Bytes → Bytes → Result (Option RemoteInfo))
    (create : Bytes → Bytes → Result UploadRequest) where
  is_no_need : Decision → Bool
  is_no_need no_need = true
  is_no_need _ = false

  -- The object in the cloud counts as that of the image: the sizes agree, and so do the hashes, of which
  -- that in the cloud counts to its first dash, unless one of them is missing.
  abbrev pub HasSame : IsoInfo → RemoteInfo → Type 0
  HasSame iso remote =
      (remote.size ≡ iso.size)
      × ((iso.hash_remote ≡ [])
          ⊎ ((remote.hash_remote ≡ []) ⊎ (before_dash remote.hash_remote ≡ iso.hash_remote)))

  saved_request-other :
      (region : Bytes) (iso : IsoInfo) (t : Tables) (r : Result UploadRequest)
      → is_no_need (saved_request base before_dash head create region iso t r) ≡ false
  unfolding is_no_need saved_request
  saved_request-other region iso t (err e) = refl
  saved_request-other region iso t (ok request) = refl

  resumed_or_created-other :
      (region bucket : Bytes) (iso : IsoInfo) (t : Tables)
      → is_no_need (resumed_or_created base before_dash head create region bucket iso t) ≡ false
  unfolding is_no_need resumed_or_created
  resumed_or_created-other region bucket iso t =
      elim (Bool-cases (
        bytes_eq iso.region region
        && bytes_eq iso.bucket bucket
        && not (bytes_eq iso.upload_id [])
        && not (bytes_eq iso.upload_key []))) [
          | inl e ↦ rw e refl
          | inr e ↦ rw e (saved_request-other region iso t (create bucket (base iso.name)))
        ]

  compared_sound :
      (iso : IsoInfo) (remote : RemoteInfo)
      → is_no_need (compared base before_dash head create iso remote) ≡ true
      → HasSame iso remote
  unfolding is_no_need compared
  compared_sound iso remote h = elim (Bool-cases (remote.size == iso.size)) [
    | inr e ↦ absurd (ground (arith, h, e))
    | inl e ↦ (
      (==_iff remote.size iso.size).0 e,
      elim (Bool-cases (bytes_eq iso.hash_remote [])) [
        | inl a ↦ inl (bytes_eq_sound iso.hash_remote [] a)
        | inr a ↦ elim (Bool-cases (bytes_eq remote.hash_remote [])) [
          | inl b ↦ inr (inl (bytes_eq_sound remote.hash_remote [] b))
          | inr b ↦ elim (Bool-cases (bytes_eq (before_dash remote.hash_remote) iso.hash_remote)) [
            | inl c ↦ inr (inr (bytes_eq_sound (before_dash remote.hash_remote) iso.hash_remote c))
            | inr c ↦ absurd (ground (arith, h, e, a, b, c))
          ]
        ]
      ],
    )
  ]

  compared_complete :
      (iso : IsoInfo) (remote : RemoteInfo)
      → HasSame iso remote
      → compared base before_dash head create iso remote ≡ no_need
  unfolding compared
  compared_complete iso remote (sizes, hashes) =
      let e : (remote.size == iso.size) ≡ true = (==_iff remote.size iso.size).1 sizes in
      elim hashes [
        | inl a ↦
            let a' : bytes_eq iso.hash_remote [] ≡ true =
              ap (λ x. bytes_eq x []) a ∙ bytes_eq_refl [] in
            ground (arith, e, a')
        | inr (inl b) ↦
            let b' : bytes_eq remote.hash_remote [] ≡ true =
              ap (λ x. bytes_eq x []) b ∙ bytes_eq_refl [] in
            ground (arith, e, b')
        | inr (inr c) ↦
            let c' : bytes_eq (before_dash remote.hash_remote) iso.hash_remote ≡ true =
              ap (λ x. bytes_eq x iso.hash_remote) c ∙ bytes_eq_refl iso.hash_remote in
            ground (arith, e, c')
      ]

  headed-no_need :
      (region bucket : Bytes) (iso : IsoInfo) (force : Bool) (t : Tables)
      (r : Result (Option RemoteInfo))
      → is_no_need (headed base before_dash head create region bucket iso force t r) ≡ true
      → (force ≡ false) × ((remote : RemoteInfo) × (r ≡ ok (some remote)) × HasSame iso remote)
  unfolding is_no_need headed
  headed-no_need region bucket iso force t (err e) h = absurd (ground (arith, h))
  headed-no_need region bucket iso force t (ok none) h =
      absurd (ground (arith, h, resumed_or_created-other region bucket iso t))
  headed-no_need region bucket iso true t (ok (some remote)) h =
      absurd (ground (arith, h, resumed_or_created-other region bucket iso t))
  headed-no_need region bucket iso false t (ok (some remote)) h =
      (refl, (remote, refl, compared_sound iso remote h))

  headed-found :
      (region bucket : Bytes) (iso : IsoInfo) (force : Bool) (t : Tables) (remote : RemoteInfo)
      → force ≡ false
      → HasSame iso remote
      → headed base before_dash head create region bucket iso force t (ok (some remote)) ≡ no_need
  unfolding headed
  headed-found region bucket iso force t remote f same = rw f (compared_complete iso remote same)

  -- The image needs no upload if and only if the upload is not forced and the cloud has an object of its
  -- name with the same size and, unless one of them is missing, the same hash, of which that in the cloud
  -- counts to its first dash.
  pub prepare_upload_request-no_need :
      (region bucket : Bytes) (iso : IsoInfo) (force : Bool) (t : Tables)
      → (prepare_upload_request base before_dash head create region bucket iso force t ≡ no_need)
        ↔ ((force ≡ false)
            × ((remote : RemoteInfo) × (head bucket (base iso.name) ≡ ok (some remote))
                × HasSame iso remote))
  unfolding prepare_upload_request is_no_need
  prepare_upload_request-no_need region bucket iso force t = (
    λ h. headed-no_need region bucket iso force t (head bucket (base iso.name)) (ap is_no_need h),
    λ (f, (remote, found, same)).
        ap (headed base before_dash head create region bucket iso force t) found
        ∙ headed-found region bucket iso force t remote f same,
  )
