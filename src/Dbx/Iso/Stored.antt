-- ===== src/Dbx/Iso/Stored.antt =====
-- What `GetPartsByIsoID` finds after the parts of an image were inserted, changed or reset.
use mathlib.Core.Path.{ap₂}
use lomo_backup.Common.{
  ℕ, ◌≡◌, refl, sym, ap, ◌∙◌, none, some, Option-cases, Bool-cases, inl, inr, List, [], ◌∷◌, ◌++◌,
  append_assoc, append-nil, Bytes, map, ◌==◌, ==_refl, if◌then◌else◌, arith, All, ◌≤◌, ◌<◌, leb,
  true, length,
}
use lomo_backup.Types.{PartStatus, part_uploading, PartInfo}
use lomo_backup.Dbx.{PartRow, Tables, part_key, same_part}
use lomo_backup.Dbx.Table.{select, update, insert}
use lomo_backup.Dbx.Table.Found.{select-append, map-append}
use lomo_backup.Dbx.Table.Laws.{insert_lem}
use lomo_backup.Dbx.Iso.Parts.{
  new_part, insert_parts, insert_iso_parts, part_info, put_in_order, in_part_order,
  get_parts_by_iso_id, is_part, update_part, update_part_etag_and_status,
}

-- A part as it is stored for an image at time `now`.
abbrev pub stored : ℕ → ℕ → PartInfo → PartInfo
stored iso_id now p = record p {
  iso_id = iso_id;
  status = part_uploading;
  etag = [];
  create_time = now;
}

insert_parts_lem :
    (iso_id now : ℕ) (ps : List PartInfo) (rows rows' : List PartRow)
    → insert_parts iso_id now ps rows ≡ some rows'
    → rows ++ map (new_part iso_id now) ps ≡ rows'
unfolding insert_parts
insert_parts_lem iso_id now [] rows rows' h = append-nil rows ∙ ground (arith, h)
insert_parts_lem iso_id now (p ∷ ps) rows rows' h =
    elim (Option-cases (insert same_part part_key (new_part iso_id now p) rows)) [
      | inl e ↦ absurd (ground (arith, rw (insert_parts, e) at h))
      | inr (rows1, e) ↦
          let (free, grown) = insert_lem same_part part_key (new_part iso_id now p) rows rows1 e in
          sym (append_assoc rows (new_part iso_id now p ∷ []) (map (new_part iso_id now) ps))
          ∙ ap (λ r. r ++ map (new_part iso_id now) ps) grown
          ∙ insert_parts_lem iso_id now ps rows1 rows' (rw (insert_parts, e) at h)
    ]

select_new :
    (iso_id now : ℕ) (ps : List PartInfo)
    → map (part_info iso_id) (select (λ r. r.iso_id == iso_id) (map (new_part iso_id now) ps))
      ≡ map (stored iso_id now) ps
unfolding select part_info new_part
select_new iso_id now [] = refl
select_new iso_id now (p ∷ ps) =
    rw (==_refl iso_id) (ap (λ t. stored iso_id now p ∷ t) (select_new iso_id now ps))

-- No number is above one behind it.
unfoldable pub IsAscending : List PartInfo → Type 0
IsAscending [] = Unit
IsAscending (p ∷ ps) = All (λ q. p.part_no ≤ q.part_no) ps × IsAscending ps

put_in_order-first :
    (p : PartInfo) (ps : List PartInfo)
    → All (λ q. p.part_no ≤ q.part_no) ps
    → put_in_order p ps ≡ p ∷ ps
unfolding put_in_order
put_in_order-first p [] h = refl
put_in_order-first p (q ∷ qs) (l, h) =
    let first : leb p.part_no q.part_no ≡ true = ground (arith, l) in rw first refl

in_part_order-stored :
    (iso_id now : ℕ) (ps : List PartInfo)
    → IsAscending ps
    → in_part_order (map (stored iso_id now) ps) ≡ map (stored iso_id now) ps
unfolding in_part_order IsAscending
in_part_order-stored iso_id now [] h = refl
in_part_order-stored iso_id now (p ∷ ps) (low, h) =
    ap (put_in_order (stored iso_id now p)) (in_part_order-stored iso_id now ps h)
    ∙ put_in_order-first (stored iso_id now p) (map (stored iso_id now) ps) (stored_above ps low)
  where
    stored_above :
        (qs : List PartInfo)
        → All (λ q. p.part_no ≤ q.part_no) qs
        → All (λ q. p.part_no ≤ q.part_no) (map (stored iso_id now) qs)
    stored_above [] h = tt
    stored_above (q ∷ qs) (l, h) = (l, stored_above qs h)

put_in_order-some : (p : PartInfo) (ps : List PartInfo) → 0 < length (put_in_order p ps)
unfolding put_in_order
put_in_order-some p [] = omega arith
put_in_order-some p (q ∷ qs) = ground arith

in_part_order-nil : (ps : List PartInfo) → in_part_order ps ≡ [] → ps ≡ []
unfolding in_part_order
in_part_order-nil [] h = refl
in_part_order-nil (p ∷ ps) h =
    absurd (omega (arith, put_in_order-some p (in_part_order ps), ap length h))

-- When parts are inserted for an image that has none, they are read back in the order of their numbers,
-- which is that of the insertion if the numbers ascend; each is stored with its number, size and hashes,
-- no etag, and the state of an upload that is not done.
pub get_parts-insert :
    (iso_id now : ℕ) (ps : List PartInfo) (t t' : Tables)
    → IsAscending ps
    → get_parts_by_iso_id iso_id t ≡ []
    → insert_iso_parts iso_id now ps t ≡ some t'
    → get_parts_by_iso_id iso_id t' ≡ map (stored iso_id now) ps
unfolding insert_iso_parts get_parts_by_iso_id
get_parts-insert iso_id now ps t t' ascending nothing h =
    elim (Option-cases (insert_parts iso_id now ps t.parts)) [
      | inl e ↦ absurd (ground (arith, rw (insert_iso_parts, e) at h))
      | inr (rows, e) ↦
          let all = insert_parts_lem iso_id now ps t.parts rows e in
          let old : List PartRow = select (λ r. r.iso_id == iso_id) t.parts in
          let new : List PartRow =
            select (λ r. r.iso_id == iso_id) (map (new_part iso_id now) ps) in
          let same : rows ≡ t'.parts =
            ap (λ o. elim o [ none ↦ rows | some u ↦ u.parts ]) (rw (insert_iso_parts, e) at h) in
          ap (λ r. in_part_order (map (part_info iso_id) (select (λ q. q.iso_id == iso_id) r)))
            (sym same ∙ sym all)
          ∙ ap (λ r. in_part_order (map (part_info iso_id) r))
              (select-append (λ q. q.iso_id == iso_id) t.parts (map (new_part iso_id now) ps))
          ∙ ap in_part_order (
              map-append (part_info iso_id) old new
              ∙ ap (λ r. r ++ map (part_info iso_id) new)
                  (in_part_order-nil (map (part_info iso_id) old) nothing)
              ∙ select_new iso_id now ps)
          ∙ in_part_order-stored iso_id now ps ascending
    ]

-- What `UpdatePartEtagAndStatus` makes of a part.
abbrev pub change_part : ℕ → Bytes → PartStatus → PartInfo → PartInfo
change_part part_no etag status p =
    if p.part_no == part_no then record p { etag = etag; status = status } else p

changed_rows :
    (iso_id part_no : ℕ) (etag : Bytes) (status : PartStatus) (rows : List PartRow)
    → map (part_info iso_id) (
        select
          (λ r. r.iso_id == iso_id)
          (update (is_part iso_id part_no) (λ r. record r { etag = etag; status = status }) rows))
      ≡ map
          (change_part part_no etag status)
          (map (part_info iso_id) (select (λ r. r.iso_id == iso_id) rows))
unfolding select update is_part part_info
changed_rows iso_id part_no etag status [] = refl
changed_rows iso_id part_no etag status (r ∷ rows) = elim (Bool-cases (r.iso_id == iso_id)) [
  | inl e ↦ elim (Bool-cases (r.part_no == part_no)) [
    | inl e' ↦ rw (e, e') (rw e (ap₂ ◌∷◌ refl (changed_rows iso_id part_no etag status rows)))
    | inr e' ↦ rw (e, e') (rw e (ap₂ ◌∷◌ refl (changed_rows iso_id part_no etag status rows)))
  ]
  | inr e ↦ rw e (rw e (changed_rows iso_id part_no etag status rows))
]

module _ (f : PartInfo → PartInfo) (keeps : (p : PartInfo) → (f p).part_no ≡ p.part_no) where
  put_in_order-map :
      (p : PartInfo) (ps : List PartInfo)
      → put_in_order (f p) (map f ps) ≡ map f (put_in_order p ps)
  unfolding put_in_order
  put_in_order-map p [] = refl
  put_in_order-map p (q ∷ qs) = elim (Bool-cases (leb p.part_no q.part_no)) [
    | inl e ↦ rw (ap₂ leb (keeps p) (keeps q) ∙ e, e) refl
    | inr e ↦ rw (ap₂ leb (keeps p) (keeps q) ∙ e, e) (ap (λ t. f q ∷ t) (put_in_order-map p qs))
  ]

  in_part_order-map : (ps : List PartInfo) → in_part_order (map f ps) ≡ map f (in_part_order ps)
  unfolding in_part_order
  in_part_order-map [] = refl
  in_part_order-map (p ∷ ps) =
      ap (put_in_order (f p)) (in_part_order-map ps) ∙ put_in_order-map p (in_part_order ps)

change_part-part_no :
    (part_no : ℕ) (etag : Bytes) (status : PartStatus) (p : PartInfo)
    → (change_part part_no etag status p).part_no ≡ p.part_no
change_part-part_no part_no etag status p = elim (Bool-cases (p.part_no == part_no)) [
  | inl e ↦ rw e refl
  | inr e ↦ rw e refl
]

-- After an update of one part, the parts of the image are read back with the new etag and state on
-- the part of that number, and otherwise as they were.
pub get_parts-update :
    (iso_id part_no : ℕ) (etag : Bytes) (status : PartStatus) (t : Tables)
    → get_parts_by_iso_id iso_id (update_part_etag_and_status iso_id part_no etag status t)
      ≡ map (change_part part_no etag status) (get_parts_by_iso_id iso_id t)
unfolding get_parts_by_iso_id update_part_etag_and_status update_part
get_parts-update iso_id part_no etag status t =
    ap in_part_order (changed_rows iso_id part_no etag status t.parts)
    ∙ in_part_order-map (change_part part_no etag status) (change_part-part_no part_no etag status)
        (map (part_info iso_id) (select (λ r. r.iso_id == iso_id) t.parts))
