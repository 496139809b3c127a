-- ===== src/Upload/Raw/Sent.antt =====
-- What `uploadRawParts` gives to the client.
use lomo_backup.Common.{
  ℕ, ◌+◌, ◌<◌, ◌≤◌, ◌^◌, ◌≡◌, refl, ap, Bool-cases, inl, inr, Option, some, List, [], ◌∷◌, Bytes,
  length, if◌then◌else◌, arith,
}
use lomo_backup.Types.{PartInfo, part_uploaded, part_upload_failed}
use lomo_backup.Io.{Result, ok, err}
use lomo_backup.Io.File.{File, opened}
use lomo_backup.Io.PartReader.Read.{copy-part}
use lomo_backup.Crypto.{copy_buffer}
use lomo_backup.Dbx.{Tables}
use lomo_backup.Dbx.Iso.Parts.{update_part_status, update_part_etag_and_status}
use lomo_backup.Upload.Tiles.{range_of}
use lomo_backup.Upload.Raw.{
  RawUpload, is_uploaded, raw_parts, kept, part_sent, part_failed, answered, given_to_client,
}

-- Where the parts end that begin at `start`.
abbrev pub end_of : ℕ → List PartInfo → ℕ
end_of start [] = start
end_of start (p ∷ ps) = end_of (start + p.size) ps

-- The parts that are not uploaded yet, each with its bytes of the file.
unfoldable pub pending : Bytes → ℕ → List PartInfo → List (ℕ × Bytes)
pending content start [] = []
pending content start (p ∷ ps) =
    let rest = pending content (start + p.size) ps in
    if is_uploaded p.status
    then rest
    else (p.part_no, range_of content (start, start + p.size)) ∷ rest

end_of_le : (start : ℕ) (ps : List PartInfo) → start ≤ end_of start ps
end_of_le start [] = omega arith
end_of_le start (p ∷ ps) = omega (arith, end_of_le (start + p.size) ps)

module _ (upload : ℕ → ℕ → Bytes → Bytes → Result Bytes) (content : Bytes)
    (small : length content < 2 ^ 63) (copy_fuel : ℕ) (enough : length content < copy_fuel) where
  abbrev Sends : List (ℕ × Bytes) → Option RawUpload → Type 0
  Sends bodies result = (r : RawUpload) × (result ≡ some r) × (r.sent ≡ bodies)

  kept-Sends :
      (p : PartInfo) (bodies : List (ℕ × Bytes)) (o : Option RawUpload)
      → Sends bodies o
      → Sends bodies (kept upload copy_fuel p o)
  unfolding kept
  kept-Sends p bodies o (r, e, s) = (record r { parts = p ∷ r.parts }, rw e, s)

  answered-Sends :
      (next : File → Tables → Option RawUpload) (t : Tables) (p : PartInfo) (f : File)
      (body : Bytes) (bodies : List (ℕ × Bytes)) (answer : Result Bytes)
      → ((t' : Tables) → Sends bodies (next f t'))
      → Sends ((p.part_no, body) ∷ bodies) (answered upload copy_fuel next t p f body answer)
  unfolding answered part_sent part_failed
  answered-Sends next t p f body bodies (err x) h =
      let (r, e, s) = h (update_part_status p.iso_id p.part_no part_upload_failed t) in
      let q = record p { etag = [] } in
      (
        record r {
          parts = q ∷ r.parts;
          failed = p.part_no ∷ r.failed;
          sent = (p.part_no, body) ∷ r.sent;
        },
        ap (part_failed upload copy_fuel q body) e,
        ap (λ b. (p.part_no, body) ∷ b) s,
      )
  answered-Sends next t p f body bodies (ok etag) h =
      let (r, e, s) = h (update_part_etag_and_status p.iso_id p.part_no etag part_uploaded t) in
      let q = record p { etag = etag } in
      (
        record r { parts = q ∷ r.parts; sent = (p.part_no, body) ∷ r.sent },
        ap (part_sent upload copy_fuel q body) e,
        ap (λ b. (p.part_no, body) ∷ b) s,
      )

  -- For an image below 2^63, wherever it stands, parts that lie within it, and fuel above its size: the
  -- loop ends, whatever the client answers, and the client was given every part that was not uploaded
  -- before, in order, with exactly its bytes of the image.
  pub raw_parts-Sends :
      (ps : List PartInfo) (start place : ℕ) (t : Tables)
      → place < 2 ^ 63
      → end_of start ps ≤ length content
      → (r : RawUpload) × (raw_parts upload copy_fuel ps start (opened content place) t ≡ some r)
        × (r.sent ≡ pending content start ps)
  unfolding raw_parts pending given_to_client
  raw_parts-Sends [] start place t h k = (_, refl, refl)
  raw_parts-Sends (p ∷ ps) start place t h k = elim (Bool-cases (is_uploaded p.status)) [
    | inl e ↦ rw e (
        kept-Sends p (pending content (start + p.size) ps) _
          (raw_parts-Sends ps (start + p.size) place t h k))
    | inr e ↦
        let later = end_of_le (start + p.size) ps in
        let (s, copied, at) =
          copy-part content small start (start + p.size) copy_buffer (omega arith) (omega arith)
            place copy_fuel h (omega arith) (omega arith) in
        rw (e, copied, at.is_part)
          (answered-Sends (raw_parts upload copy_fuel ps (start + p.size)) t p
            (opened content at.place) _ (pending content (start + p.size) ps) _
            (λ t'. raw_parts-Sends ps (start + p.size) at.place t' at.place_small k))
  ]
