-- ===== src/Client/Abort.antt =====
-- cmd/lomob/upload-iso.go, `abortUpload` behind its options.
use lomo_backup.Common.{
  ℕ, take, ◌≡◌, refl, sym, ap, ◌∙◌, Bool, true, false, not, ◌&&◌, ◌||◌, Bool-cases, inl, inr, some,
  List, [], ◌∷◌, Bytes, map, All, All-every, bytes_eq, bytes_eq_sound, if◌then◌else◌, arith,
}
use lomo_backup.Io.{ok, err, usage}
use lomo_backup.Io.Run.{Call, raise, ◌>>=◌, then_ok}
use lomo_backup.Dbx.Table.{select, delete, any}
use lomo_backup.Upload.Request.{UploadRequest}
use lomo_backup.Client.{
  Service, MultipartUpload, Uploading, requests_of, list_multipart_uploads, abort_multipart_upload,
}

module _ {V R S : Type 0} (svc : Service V R S) where
  -- The loop over the uploads that are listed, where an error is only printed.
  unfoldable pub abort_each : Bytes → Bytes → List Uploading → Call V
  abort_each bucket upload_key [] v = (ok tt, v)
  abort_each bucket upload_key (r ∷ rs) v =
      let v' =
        if bytes_eq r.key upload_key
        then (abort_multipart_upload svc (record { id = r.id; bucket = bucket; key = upload_key })
            v).1
        else v in
      abort_each bucket upload_key rs v'

  -- `abortUpload`, whose arguments are a key and perhaps an id.
  unfoldable pub abort_upload : Bytes → List Bytes → Call V
  abort_upload bucket [] = raise usage
  abort_upload bucket (upload_key ∷ []) = do
    requests ← list_multipart_uploads svc bucket
    abort_each bucket upload_key requests
  abort_upload bucket (upload_key ∷ id ∷ _) =
      abort_multipart_upload svc (record { id = id; bucket = bucket; key = upload_key })

-- An upload as the service lists it.
abbrev pub listed : Uploading → MultipartUpload
listed u = record { initiated = some u.time; upload_id = some u.id; key = some u.key }

-- Whether a request asks for an upload.
abbrev pub asks : UploadRequest → Uploading → Bool
asks request u = bytes_eq u.id request.id && bytes_eq u.key request.key

-- Whether another upload has the id and the key of this one.
abbrev pub named : Uploading → Uploading → Bool
named u r = bytes_eq u.id r.id && bytes_eq r.key u.key

-- The most uploads that the service lists in one answer.
abbrev pub max_uploads : ℕ
max_uploads = 1000

-- What the service promises for the uploads of a bucket, of which it may refuse to end some: the list
-- has the first 1000 of them, and to abort one that is not refused takes away that one.
pub record KeepsUploads {V R S : Type 0} (svc : Service V R S) (bucket : Bytes)
    (uploads : V → List Uploading) (refuses : Bytes → Bool) : Type 0 where
  pub lists :
      (v : V)
      → svc.list_multipart_uploads bucket v ≡ (ok (map listed (take max_uploads (uploads v))), v)
  pub aborts :
      (v : V) (id key : Bytes)
      → uploads (svc.abort_multipart_upload (record { id = id; bucket = bucket; key = key }) v).1
        ≡ (if refuses id
            then uploads v
            else delete (asks (record { id = id; bucket = bucket; key = key })) (uploads v))

requests_of-listed : (us : List Uploading) → requests_of (map listed us) ≡ ok us
unfolding requests_of
requests_of-listed [] = refl
requests_of-listed (u ∷ us) = rw (requests_of-listed us)

not_or : (a b : Bool) → (not a && not b) ≡ not (a || b)
not_or true b = refl
not_or false b = refl

module _ {A : Type 0} where
  delete-select :
      (p q : A → Bool) (xs : List A) → select p (delete q xs) ≡ select (λ a. not (q a) && p a) xs
  unfolding select delete
  delete-select p q [] = refl
  delete-select p q (x ∷ xs) = ground (arith, delete-select p q xs)

  select_cong : (p q : A → Bool) (xs : List A) → All (λ a. p a ≡ q a) xs → select p xs ≡ select q xs
  unfolding select
  select_cong p q [] h = refl
  select_cong p q (x ∷ xs) (e, h) = rw (e, select_cong p q xs h)

  delete_none : (xs : List A) → delete (λ _. false) xs ≡ xs
  unfolding delete
  delete_none [] = refl
  delete_none (x ∷ xs) = ap (λ t. x ∷ t) (delete_none xs)

  delete_if :
      (b : Bool) (p : A → Bool) (xs : List A)
      → (if b then delete p xs else xs) ≡ delete (λ x. b && p x) xs
  delete_if true p xs = refl
  delete_if false p xs = sym (delete_none xs)

  if_not : (b : Bool) (xs ys : List A) → (if b then xs else ys) ≡ (if not b then ys else xs)
  if_not true xs ys = refl
  if_not false xs ys = refl

  select_all : (xs : List A) → select (λ _. true) xs ≡ xs
  unfolding select
  select_all [] = refl
  select_all (x ∷ xs) = ap (λ t. x ∷ t) (select_all xs)

module _ {V R S : Type 0} (svc : Service V R S) (bucket : Bytes) (uploads : V → List Uploading)
    (refuses : Bytes → Bool) (keeps : KeepsUploads svc bucket uploads refuses) (key : Bytes) where
  -- Whether handling `r` ends the upload `u`.
  abbrev ends : Uploading → Uploading → Bool
  ends r u =
      (bytes_eq r.key key && not (refuses r.id)) && (bytes_eq u.id r.id && bytes_eq u.key key)

  abbrev ended : List Uploading → Uploading → Bool
  ended rs u = any (λ r. ends r u) rs

  one_step :
      (r : Uploading) (v : V)
      → uploads (
          if bytes_eq r.key key
          then (svc.abort_multipart_upload (record { id = r.id; bucket = bucket; key = key }) v).1
          else v)
        ≡ delete (ends r) (uploads v)
  one_step r v =
      let asked = asks (record { id = r.id; bucket = bucket; key = key }) in
      let taken : uploads (
            if bytes_eq r.key key
            then (svc.abort_multipart_upload (record { id = r.id; bucket = bucket; key = key }) v).1
            else v)
          ≡ (if bytes_eq r.key key && not (refuses r.id)
              then delete asked (uploads v)
              else uploads v) =
        elim (Bool-cases (bytes_eq r.key key)) [
          | inr e ↦ rw e refl
          | inl e ↦ rw e (keeps.aborts v r.id key ∙ if_not (refuses r.id) (uploads v) _)
        ] in
      taken ∙ delete_if (bytes_eq r.key key && not (refuses r.id)) asked (uploads v)

  each_lem :
      (rs : List Uploading) (v : V)
      → (v' : V) × (abort_each svc bucket key rs v ≡ (ok tt, v'))
        × (uploads v' ≡ select (λ u. not (ended rs u)) (uploads v))
  unfolding abort_each abort_multipart_upload any
  each_lem [] v = (v, refl, sym (select_all (uploads v)))
  each_lem (r ∷ rs) v =
      let (v', did, left) = each_lem rs (
        if bytes_eq r.key key
        then (svc.abort_multipart_upload (record { id = r.id; bucket = bucket; key = key }) v).1
        else v) in
      (
        v',
        did,
        left
            ∙ ap (select (λ u. not (ended rs u))) (one_step r v)
            ∙ delete-select (λ u. not (ended rs u)) (ends r) (uploads v)
            ∙ select_cong _ _ (uploads v)
                (All-every (λ u. not_or (ends r u) (ended rs u)) (uploads v)),
      )

  -- Whether the upload `u` is not asked for or is refused.
  abbrev is_left : Uploading → Bool
  is_left u = not (bytes_eq u.key key) || refuses u.id

  one_ended :
      (r u : Uploading) (rs : List Uploading)
      → not (ended rs u) ≡ (is_left u || not (any (named u) rs))
      → not (ends r u || ended rs u) ≡ (is_left u || not (named u r || any (named u) rs))
  one_ended r u rs ih = elim (Bool-cases (bytes_eq u.id r.id)) [
    | inl e ↦
        let same : refuses u.id ≡ refuses r.id = ap refuses (bytes_eq_sound u.id r.id e) in
        elim (Bool-cases (bytes_eq u.key key)) [
          | inl k ↦
              let asked : bytes_eq r.key u.key ≡ bytes_eq r.key key =
                ap (bytes_eq r.key) (bytes_eq_sound u.key key k) in
              ground (arith, ih, same, e, k, asked)
          | inr k ↦ ground (arith, ih, k)
        ]
    | inr e ↦ ground (arith, ih, e)
  ]

  ended_lem :
      (u : Uploading) (rs : List Uploading)
      → not (ended rs u) ≡ (is_left u || not (any (named u) rs))
  unfolding any
  ended_lem u [] = ground arith
  ended_lem u (r ∷ rs) = one_ended r u rs (ended_lem u rs)

  list_lem : (v : V) → list_multipart_uploads svc bucket v ≡ (ok (take max_uploads (uploads v)), v)
  unfolding list_multipart_uploads
  list_lem v =
      ap (λ p. elim p.0 [ err e ↦ (err e, p.1) | ok us ↦ (requests_of us, p.1) ]) (keeps.lists v)
      ∙ ap (λ r. (r, v)) (requests_of-listed (take max_uploads (uploads v)))

  -- With a key alone, the command succeeds if the service lists the first 1000 uploads of the bucket in
  -- its one answer and takes each away that is aborted, but for those it refuses to: of the uploads of
  -- the bucket, just those are left that have another key, that are refused, or whose id and key are of
  -- none of the first 1000, in their order.
  pub abort_upload-leaves :
      (v : V)
      → (v' : V) × (abort_upload svc bucket (key ∷ []) v ≡ (ok tt, v'))
        × (uploads v'
            ≡ select
                (λ u.
                  (not (bytes_eq u.key key) || refuses u.id)
                  || not (any (named u) (take max_uploads (uploads v))))
                (uploads v))
  unfolding abort_upload
  abort_upload-leaves v =
      let page = take max_uploads (uploads v) in
      let (v', did, left) = each_lem page v in
      (
        v',
        then_ok (list_multipart_uploads svc bucket) (abort_each svc bucket key) (list_lem v) ∙ did,
        left ∙ select_cong _ _ (uploads v) (All-every (λ u. ended_lem u page) (uploads v)),
      )
