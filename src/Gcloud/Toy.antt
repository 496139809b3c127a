-- ===== src/Gcloud/Toy.antt =====
-- A drive that keeps a list of files and reads its queries.
use lomo_backup.Common.{
  ◌≡◌, ◌≢◌, refl, sym, ap, ◌∙◌, none, some, List, [], ◌∷◌, ◌++◌, append_assoc, Bytes, codes, map,
  All, take, drop, ◌==◌, bytes_eq, if◌then◌else◌, arith,
}
use mathlib.Core.Path.{ap₂}
use lomo_backup.Io.{ok, service}
use lomo_backup.Io.Run.{raise, pure, pure_inv}
use lomo_backup.Dbx.Table.{select}
use lomo_backup.Gcloud.{DriveFile, DriveService, query}
use lomo_backup.Gcloud.Again.{IsQuotable, lies_in, FindsFiles}

-- Up to the next quote, and behind it.
abbrev until : Bytes → Bytes
until [] = []
until (c ∷ s) = let rest = until s in if c == 39 then [] else c ∷ rest

abbrev past : Bytes → Bytes
past [] = []
past (c ∷ s) = let rest = past s in if c == 39 then s else rest

until-quote : (n s : Bytes) → IsQuotable n → until (n ++ (39 ∷ s)) ≡ n
until-quote [] s q = refl
until-quote (c ∷ n) s ((not_quote, _), q) = ground (arith, not_quote, until-quote n s q)

past-quote : (n s : Bytes) → IsQuotable n → past (n ++ (39 ∷ s)) ≡ s
past-quote [] s q = refl
past-quote (c ∷ n) s ((not_quote, _), q) = ground (arith, not_quote, past-quote n s q)

abbrev query_name : Bytes → Bytes
query_name q = until (drop 8 q)

abbrev query_parent : Bytes → Bytes
query_parent q = until (drop 6 (past (drop 8 q)))

abbrev pub marked : DriveFile → DriveFile
marked f = record f { id = b'#' ∷ f.id }

-- What is downloaded is a function of the id.
abbrev pub drive : (Bytes → Bytes) → DriveService (List DriveFile) Bytes Bytes
drive content = record {
  list = λ q page v.
      let found = select (lies_in (query_name q) (query_parent q)) (map marked v) in
      (ok (elim page [ none ↦ found | some n ↦ take n found ]), v);
  create = λ f media v. (ok (marked f), v ++ f ∷ []);
  get = λ id. raise (service []);
  update = λ id f. raise (service []);
  download = λ id. pure (content id);
}

marked-append :
    (v : List DriveFile) (f : DriveFile) → map marked (v ++ f ∷ []) ≡ map marked v ++ marked f ∷ []
marked-append [] f = refl
marked-append (g ∷ v) f = ap (λ t. marked g ∷ t) (marked-append v f)

marked_ids : (v : List DriveFile) → All (λ f. f.id ≢ []) (map marked v)
marked_ids [] = tt
marked_ids (f ∷ v) = ((λ h. ground (arith, h)), marked_ids v)

query_lem :
    (n p : Bytes)
    → IsQuotable n
    → IsQuotable p
    → p ≢ []
    → (query_name (query n p) ≡ n) × (query_parent (query n p) ≡ p)
unfolding query bytes_eq
query_lem n [] qn qp some_p = absurd (some_p refl)
query_lem n (c ∷ p) qn qp some_p =
    let rest = codes " and '" ++ ((c ∷ p) ++ codes "' in parents") in
    let split = append_assoc n (codes "'") rest in
    (
      ap until split ∙ until-quote n rest qn,
      ap (λ t. until (drop 6 (past t))) split
          ∙ ap (λ t. until (drop 6 t)) (past-quote n rest qn)
          ∙ until-quote (c ∷ p) (codes " in parents") qp,
    )

pub drive-FindsFiles : (content : Bytes → Bytes) → FindsFiles (drive content) (map marked)
drive-FindsFiles content = record {
  has_ids = marked_ids;
  lists = λ v n p qn qp some_p.
      let (is_n, is_p) = query_lem n p qn qp some_p in
      ap₂ (λ a b. (ok (take 1 (select (lies_in a b) (map marked v))), v)) is_n is_p;
  creates = λ v v' f made media h.
      let (is_made, is_v) = pure_inv (marked f) made (v ++ f ∷ []) v' h in
      (
        (λ z. ground (arith, z, ap (λ g. g.id) is_made)),
        ap (λ g. g.name) (sym is_made),
        ap (λ g. g.parents) (sym is_made),
        ap (map marked) (sym is_v) ∙ marked-append v f ∙ ap (λ g. map marked v ++ g ∷ []) is_made,
      );
}
