-- ===== src/Dbx/Iso/Parts.antt =====
-- common/dbx/iso.go: the parts of an ISO image.
use lomo_backup.Common.{
  ℕ, leb, if◌then◌else◌, Bool, ◌&&◌, Option, none, some, List, [], ◌∷◌, Bytes, map, ◌==◌,
}
use lomo_backup.Types.{PartStatus, part_uploading, PartInfo}
use lomo_backup.Dbx.{PartRow, Tables, part_key, same_part}
use lomo_backup.Dbx.Table.{select, delete, update, insert}

unfoldable pub new_part : ℕ → ℕ → PartInfo → PartRow
new_part iso_id now p = record {
  iso_id = iso_id;
  part_no = p.part_no;
  hash_local = p.hash_local;
  hash_remote = p.hash_remote;
  etag = [];
  size = p.size;
  status = part_uploading;
  create_time = now;
}

-- The loop of `InsertIsoParts`.
unfoldable pub insert_parts : ℕ → ℕ → List PartInfo → List PartRow → Option (List PartRow)
unfolding new_part
insert_parts iso_id now [] rows = some rows
insert_parts iso_id now (p ∷ ps) rows =
    elim (insert same_part part_key (new_part iso_id now p) rows) [
      | none ↦ none
      | some rows' ↦ insert_parts iso_id now ps rows'
    ]

-- `InsertIsoParts` at time `now`.
unfoldable pub insert_iso_parts : ℕ → ℕ → List PartInfo → Tables → Option Tables
unfolding insert_parts
insert_iso_parts iso_id now parts t = elim (insert_parts iso_id now parts t.parts) [
  | none ↦ none
  | some rows ↦ some (record t { parts = rows })
]

unfoldable pub part_info : ℕ → PartRow → PartInfo
part_info iso_id r = record {
  iso_id = iso_id;
  part_no = r.part_no;
  size = r.size;
  status = r.status;
  etag = r.etag;
  hash_local = r.hash_local;
  hash_remote = r.hash_remote;
  create_time = r.create_time;
}

-- The query has no `order by`: its rows come from the index of UNIQUE(iso_id, part_no), in the order of
-- the numbers.
unfoldable pub put_in_order : PartInfo → List PartInfo → List PartInfo
put_in_order p [] = p ∷ []
put_in_order p (q ∷ qs) =
    let rest = put_in_order p qs in if leb p.part_no q.part_no then p ∷ q ∷ qs else q ∷ rest

unfoldable pub in_part_order : List PartInfo → List PartInfo
unfolding put_in_order
in_part_order [] = []
in_part_order (p ∷ ps) = put_in_order p (in_part_order ps)

-- `GetPartsByIsoID`
unfoldable pub get_parts_by_iso_id : ℕ → Tables → List PartInfo
unfolding part_info in_part_order
get_parts_by_iso_id iso_id t =
    in_part_order (map (part_info iso_id) (select (λ r. r.iso_id == iso_id) t.parts))

-- `DeletePartsByIsoID`
unfoldable pub delete_parts_by_iso_id : ℕ → Tables → Tables
delete_parts_by_iso_id iso_id t = record t { parts = delete (λ r. r.iso_id == iso_id) t.parts }

unfoldable pub is_part : ℕ → ℕ → PartRow → Bool
is_part iso_id part_no r = (r.iso_id == iso_id) && (r.part_no == part_no)

unfoldable pub update_part : ℕ → ℕ → (PartRow → PartRow) → Tables → Tables
unfolding is_part
update_part iso_id part_no change t = record t {
  parts = update (is_part iso_id part_no) change t.parts;
}

unfoldable pub update_part_status : ℕ → ℕ → PartStatus → Tables → Tables
unfolding update_part
update_part_status iso_id part_no status =
    update_part iso_id part_no (λ r. record r { status = status })

unfoldable pub update_part_etag_and_status : ℕ → ℕ → Bytes → PartStatus → Tables → Tables
unfolding update_part
update_part_etag_and_status iso_id part_no etag status =
    update_part iso_id part_no (λ r. record r { etag = etag; status = status })

unfoldable pub update_part_etag_and_status_hash :
    ℕ → ℕ → Bytes → Bytes → Bytes → PartStatus → Tables → Tables
unfolding update_part
update_part_etag_and_status_hash iso_id part_no etag hash_local hash_remote status =
    update_part iso_id part_no (λ r. record r {
      etag = etag;
      status = status;
      hash_local = hash_local;
      hash_remote = hash_remote;
    })
