-- ===== src/Upload/Raw.antt =====
-- cmd/lomob/upload-iso.go, the loop of `uploadRawParts` without the files of `saveParts`. The client is
-- the parameter `upload`, which gets what the part's reader gives until its end, and fails if the
-- reader does.
pub mod Sent
use lomo_backup.Common.{
  ℕ, suc, ◌+◌, Bool, true, false, Option, none, some, List, [], ◌∷◌, Bytes, if◌then◌else◌,
}
use lomo_backup.Common.Int.{pos}
use lomo_backup.Types.{PartStatus, part_uploading, part_uploaded, part_upload_failed, PartInfo}
use lomo_backup.Io.{Result, ok, err}
use lomo_backup.Io.Copy.{Copied, copy}
use lomo_backup.Io.File.{File}
use lomo_backup.Io.PartReader.{FilePartReadSeeker, new_file_part_read_seeker, read}
use lomo_backup.Crypto.{copy_buffer}
use lomo_backup.Dbx.{Tables}
use lomo_backup.Dbx.Iso.Parts.{update_part_status, update_part_etag_and_status}

-- What the loop leaves: the file, the tables, the parts with their etags, the numbers of the parts that
-- failed, and the bodies given to the client.
pub record RawUpload : Type 0 where
  pub file : File
  pub tables : Tables
  pub parts : List PartInfo
  pub failed : List ℕ
  pub sent : List (ℕ × Bytes)

-- `p.Status == types.PartUploaded`
abbrev pub is_uploaded : PartStatus → Bool
is_uploaded part_uploaded = true
is_uploaded _ = false

module _ (upload : ℕ → ℕ → Bytes → Bytes → Result Bytes) (copy_fuel : ℕ) where
  -- What a round adds to the rest of the loop.
  kept : PartInfo → Option RawUpload → Option RawUpload
  kept p none = none
  kept p (some r) = some (record r { parts = p ∷ r.parts })

  part_sent : PartInfo → Bytes → Option RawUpload → Option RawUpload
  part_sent p body none = none
  part_sent p body (some r) =
      some (record r { parts = p ∷ r.parts; sent = (p.part_no, body) ∷ r.sent })

  part_failed : PartInfo → Bytes → Option RawUpload → Option RawUpload
  part_failed p body none = none
  part_failed p body (some r) = some (record r {
    parts = p ∷ r.parts;
    failed = p.part_no ∷ r.failed;
    sent = (p.part_no, body) ∷ r.sent;
  })

  -- After the client's answer, which is the empty etag with an error.
  answered :
      (File → Tables → Option RawUpload)
      → Tables
      → PartInfo
      → File
      → Bytes
      → Result Bytes
      → Option RawUpload
  unfolding part_sent part_failed
  answered next t p f body (err e) =
      part_failed (record p { etag = [] }) body
        (next f (update_part_status p.iso_id p.part_no part_upload_failed t))
  answered next t p f body (ok etag) =
      part_sent (record p { etag = etag }) body
        (next f (update_part_etag_and_status p.iso_id p.part_no etag part_uploaded t))

  given_to_client :
      (File → Tables → Option RawUpload)
      → Tables
      → PartInfo
      → Option (Copied FilePartReadSeeker)
      → Option RawUpload
  unfolding answered
  given_to_client next t p none = none
  given_to_client next t p (some c) = elim c.error [
    | none ↦ answered next t p c.state.f c.bytes (upload p.part_no p.size c.bytes p.hash_remote)
    | some e ↦ answered next t p c.state.f c.bytes (err e)
  ]

  -- The parts behind `end`, in turn; one that was uploaded before is skipped.
  unfoldable pub raw_parts : List PartInfo → ℕ → File → Tables → Option RawUpload
  unfolding kept given_to_client
  raw_parts [] end f t = some (record { file = f; tables = t; parts = []; failed = []; sent = [] })
  raw_parts (p ∷ ps) end f t =
      let next = raw_parts ps (end + p.size) in
      let skipped = kept p (next f t) in
      let prs = new_file_part_read_seeker f (pos end) (pos (end + p.size)) in
      let made = given_to_client next t p (copy read copy_buffer copy_fuel prs) in
      if is_uploaded p.status then skipped else made
