-- ===== src/Client/Calls.antt =====
-- What follows from the answers of the service to `PutObject` and `GetObject`.
use lomo_backup.Common.{ℕ, ◌≡◌, ap, ◌∙◌, some, Bytes}
use lomo_backup.Io.{ok, ReadResult, WriteResult}
use lomo_backup.Io.Run.{then_ok, then_inv, rescue_ok}
use lomo_backup.Io.CopyInto.{CopiedInto, copy_into}
use lomo_backup.Crypto.{copy_buffer}
use lomo_backup.Client.{
  Service, PutInput, made_if_missing, create_bucket_if_not_exist, put_object, copied, got_body,
  get_object,
}

module _ {V R S : Type 0} (svc : Service V R S) where
  create_bucket-exists :
      (bucket : Bytes) (v v' : V)
      → svc.head_bucket bucket v ≡ (ok tt, v')
      → create_bucket_if_not_exist svc bucket v ≡ (ok tt, v')
  unfolding create_bucket_if_not_exist
  create_bucket-exists bucket v v' h =
      rescue_ok (svc.head_bucket bucket) (made_if_missing svc bucket) h

  abbrev pub put_input : Bytes → Bytes → Bytes → Bytes → Bytes → R → PutInput R
  put_input bucket path checksum file_type class reader = record {
    body = reader;
    bucket = bucket;
    key = path;
    content_type = file_type;
    checksum = checksum;
    storage_class = class;
  }

  -- What the service was given, when `PutObject` has succeeded.
  pub put_object-given :
      (bucket path checksum file_type class : Bytes) (reader : R) (v v' : V)
      → put_object svc bucket path checksum file_type class reader v ≡ (ok tt, v')
      → (v₁ : V) × (svc.put_object (put_input bucket path checksum file_type class reader) v₁
          ≡ (ok tt, v'))
  unfolding put_object
  put_object-given bucket path checksum file_type class reader v v' h =
      let (_, v₁, _, did) =
        then_inv (create_bucket_if_not_exist svc bucket)
          (λ _. svc.put_object (put_input bucket path checksum file_type class reader)) v v' tt h in
      (v₁, did)

  module _ {W : Type 0} (write : W → Bytes → WriteResult W) (read : S → ℕ → ReadResult S)
      (fuel : ℕ) where
    -- With a bucket that is there, and an object in it.
    pub get_object-copies :
        (bucket path : Bytes) (w : W) (v v₁ v₂ : V) (body : S) (c : CopiedInto S W)
        → svc.head_bucket bucket v ≡ (ok tt, v₁)
        → svc.get_object bucket path v₁ ≡ (ok body, v₂)
        → copy_into write read copy_buffer fuel body w ≡ some c
        → get_object svc write read fuel bucket path w v
          ≡ (some (record { writer = c.writer; written = c.written; error = c.error }), v₂)
    unfolding get_object got_body copied
    get_object-copies bucket path w v v₁ v₂ body c there found did =
        ap (got_body svc write read fuel w) (
          then_ok (create_bucket_if_not_exist svc bucket) (λ _. svc.get_object bucket path)
            (create_bucket-exists bucket v v₁ there)
          ∙ found)
        ∙ ap (λ g. (copied svc write read fuel g, v₂)) did
