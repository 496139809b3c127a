-- ===== src/Gcloud/Again.antt =====
-- `GetAndCreateFileIDIfNotExist` asked twice.
use lomo_backup.Common.{
  ℕ, ◌≡◌, ◌≢◌, refl, sym, ap, ◌∙◌, Bool, true, false, not, ◌&&◌, Bool-cases, inl, inr, Option, none,
  some, List, [], ◌∷◌, ◌++◌, Bytes, All, take, bytes_eq, bytes_eq_refl, bytes_eq_sound,
  if◌then◌else◌, arith,
}
use mathlib.Core.List.{nil≢cons}
use lomo_backup.Io.{wrong_parent, ok}
use lomo_backup.Io.Run.{Action, pure, raise, ◌>>=◌, then_ok, then_inv, pure_inv}
use lomo_backup.Dbx.Table.{select, any}
use lomo_backup.Gcloud.{
  DriveFile, DriveService, query, mime_type_folder, first_id, file_to_create, get_file_id,
  create_file, found_or_created, get_and_create_file_id_if_not_exist,
}

-- Texts that a query can have between its quotes.
abbrev pub IsQuotable : Bytes → Type 0
IsQuotable = All (λ c. (c ≢ 39) × (c ≢ 92))

-- Whether a query for a name and a folder asks for a file.
unfoldable pub lies_in : Bytes → Bytes → DriveFile → Bool
lies_in filename parent f = bytes_eq f.name filename && any (bytes_eq parent) f.parents

-- What the service promises for the files it has: a query finds those with the name in the folder, and
-- a new file comes behind them, as it was given but for its id, which is not empty.
pub record FindsFiles {V R S : Type 0} (srv : DriveService V R S) (files : V → List DriveFile)
    : Type 0 where
  pub has_ids : (v : V) → All (λ f. f.id ≢ []) (files v)
  pub lists :
      (v : V) (filename parent : Bytes)
      → IsQuotable filename
      → IsQuotable parent
      → parent ≢ []
      → srv.list (query filename parent) (some 1) v
        ≡ (ok (take 1 (select (lies_in filename parent) (files v))), v)
  pub creates :
      (v v' : V) (file made : DriveFile) (media : Option R)
      → srv.create file media v ≡ (ok made, v')
      → (made.id ≢ [])
        × (made.name ≡ file.name)
        × (made.parents ≡ file.parents)
        × (files v' ≡ files v ++ made ∷ [])

module _ (p : DriveFile → Bool) where
  -- A file that is found, when it comes behind files that are not.
  select-append_one :
      (xs : List DriveFile) (x : DriveFile)
      → select p xs ≡ []
      → p x ≡ true
      → select p (xs ++ x ∷ []) ≡ x ∷ []
  unfolding select
  select-append_one [] x none_yet h = rw h refl
  select-append_one (y ∷ xs) x none_yet h = elim (Bool-cases (p y)) [
    | inl e ↦
        absurd (nil≢cons (sym none_yet ∙ ap (λ b. if b then y ∷ select p xs else select p xs) e))
    | inr e ↦ rw e (
        select-append_one xs x
          (ap (λ b. if b then y ∷ select p xs else select p xs) (sym e) ∙ none_yet) h)
  ]

  select-All : (Q : DriveFile → Type 0) (xs : List DriveFile) → All Q xs → All Q (select p xs)
  unfolding select
  select-All Q [] h = tt
  select-All Q (x ∷ xs) (q, h) = elim (Bool-cases (p x)) [
    | inl e ↦ rw e (q, select-All Q xs h)
    | inr e ↦ rw e (select-All Q xs h)
  ]

-- A text that is not empty.
eq_nil : (s : Bytes) → s ≢ [] → bytes_eq s [] ≡ false
unfolding bytes_eq
eq_nil [] h = absurd (h refl)
eq_nil (c ∷ s) h = refl

module _ {V R S : Type 0} (srv : DriveService V R S) (files : V → List DriveFile)
    (finds : FindsFiles srv files) (format : ℕ → Bytes) (filename parent : Bytes)
    (name_ok : IsQuotable filename) (parent_ok : IsQuotable parent)
    (some_parent : parent ≢ []) where
  abbrev found_in : V → List DriveFile
  found_in v = select (lies_in filename parent) (files v)

  pub get_file_id_lem :
      (v : V) → get_file_id srv filename parent v ≡ (ok (first_id (take 1 (found_in v))), v)
  unfolding get_file_id
  get_file_id_lem v =
      then_ok (srv.list (query filename parent) (some 1)) (λ fs. pure (first_id fs))
        (finds.lists v filename parent name_ok parent_ok some_parent)

  asked :
      (r : Option R) (mod_time : ℕ) (v : V)
      → get_and_create_file_id_if_not_exist srv format filename parent r mod_time v
        ≡ found_or_created srv format filename parent r mod_time (first_id (take 1 (found_in v))) v
  unfolding get_and_create_file_id_if_not_exist
  asked r mod_time v =
      then_ok (get_file_id srv filename parent)
        (found_or_created srv format filename parent r mod_time) (get_file_id_lem v)

  -- A file that is there, with the folder as its first parent.
  found_lem :
      (r : Option R) (mod_time : ℕ) (v : V) (id : Bytes)
      → id ≢ []
      → found_or_created srv format filename parent r mod_time (id, parent) v ≡ (ok (true, id), v)
  unfolding found_or_created
  found_lem r mod_time v id some_id =
      rw (eq_nil id some_id, bytes_eq_refl parent, eq_nil parent some_parent) refl

  -- A file that was made from one with this name and folder.
  made_inv :
      (file : DriveFile) (media : Option R) (v v' : V) (id : Bytes)
      → file.name ≡ filename
      → file.parents ≡ parent ∷ []
      → (srv.create file media >>= (λ f. pure f.id)) v ≡ (ok id, v')
      → (made : DriveFile) × (made.id ≡ id)
        × (made.id ≢ [])
        × (lies_in filename parent made ≡ true)
        × (made.parents ≡ parent ∷ [])
        × (files v' ≡ files v ++ made ∷ [])
  unfolding lies_in any
  made_inv file media v v' id name parents h =
      let (made, v₁, did, rest) = then_inv (srv.create file media) (λ f. pure f.id) v v' id h in
      let (is_id, same) = pure_inv made.id id v₁ v' rest in
      let (some_id, named, placed, added) = finds.creates v v₁ file made media did in
      (
        made,
        is_id,
        some_id,
        rw (named, name, placed, parents, bytes_eq_refl filename, bytes_eq_refl parent) refl,
        placed ∙ parents,
        ap files (sym same) ∙ added,
      )

  create_file_inv :
      (r : Option R) (mod_time : ℕ) (v v' : V) (id : Bytes)
      → create_file srv format filename parent r mod_time v ≡ (ok id, v')
      → (made : DriveFile) × (made.id ≡ id)
        × (made.id ≢ [])
        × (lies_in filename parent made ≡ true)
        × (made.parents ≡ parent ∷ [])
        × (files v' ≡ files v ++ made ∷ [])
  unfolding create_file file_to_create
  create_file_inv none mod_time v v' id h =
      made_inv (file_to_create filename parent (format mod_time) mime_type_folder) none v v' id refl
        (rw (eq_nil parent some_parent) refl) h
  create_file_inv (some r) mod_time v v' id h =
      made_inv (file_to_create filename parent (format mod_time) []) (some r) v v' id refl
        (rw (eq_nil parent some_parent) refl) h

  -- What a call has found or made: the file that a search finds then.
  record Kept (v' : V) (id : Bytes) : Type 0 where
    file : DriveFile
    others : List DriveFile
    is_found : found_in v' ≡ file ∷ others
    is_id : file.id ≡ id
    some_id : id ≢ []
    in_parent : (first_id (file ∷ [])).1 ≡ parent

  abbrev as_made : Bytes → Action V (Bool × Bytes)
  as_made made = pure (false, made)

  created_Kept :
      (r : Option R) (mod_time : ℕ) (v v' : V) (found : Bool) (id : Bytes)
      → found_in v ≡ []
      → (create_file srv format filename parent r mod_time >>= as_made) v ≡ (ok (found, id), v')
      → Kept v' id
  unfolding first_id
  created_Kept r mod_time v v' found id none_yet h =
      let (made, v₁, did, rest) =
        then_inv (create_file srv format filename parent r mod_time) as_made v v' (found, id) h in
      let (pair, same) = pure_inv (false, made) (found, id) v₁ v' rest in
      let (f, is_made, some_id, is_there, placed, added) =
        create_file_inv r mod_time v v₁ made did in
      let same_id : f.id ≡ id = is_made ∙ ap (λ p. p.1) pair in
      record {
        file = f;
        others = [];
        is_found =
            ap found_in (sym same)
            ∙ ap (select (lies_in filename parent)) added
            ∙ select-append_one (lies_in filename parent) (files v) f none_yet is_there;
        is_id = same_id;
        some_id = λ z. some_id (same_id ∙ z);
        in_parent = ap (λ ps. elim ps [ [] ↦ [] | p ∷ _ ↦ p ]) placed;
      }

  -- A file that was there already is taken only if the folder is its first parent.
  taken_inv :
      (right : Bool) (id id' : Bytes) (found : Bool) (v v' : V)
      → (if not right then raise {A = Bool × Bytes} wrong_parent else pure (true, id)) v
        ≡ (ok (found, id'), v')
      → (right ≡ true) × (id ≡ id') × (v ≡ v')
  taken_inv false id id' found v v' h = ground (arith, h)
  taken_inv true id id' found v v' h =
      let (pair, same) = pure_inv (true, id) (found, id') v v' h in (refl, ap (λ p. p.1) pair, same)

  there_Kept :
      (r : Option R) (mod_time : ℕ) (v v' : V) (found : Bool) (id : Bytes) (f : DriveFile)
      (fs : List DriveFile)
      → found_in v ≡ f ∷ fs
      → f.id ≢ []
      → found_or_created srv format filename parent r mod_time (first_id (f ∷ [])) v
        ≡ (ok (found, id), v')
      → Kept v' id
  unfolding found_or_created bytes_eq first_id
  there_Kept r mod_time v v' found id f fs there some_id h =
      let pid = (first_id (f ∷ [])).1 in
      let (right, same_id, same) =
        taken_inv (bytes_eq pid parent) f.id id found v v'
          (sym (rw (eq_nil f.id some_id, eq_nil parent some_parent) refl) ∙ h) in
      record {
        file = f;
        others = fs;
        is_found = ap found_in (sym same) ∙ there;
        is_id = same_id;
        some_id = λ z. some_id (same_id ∙ z);
        in_parent = bytes_eq_sound pid parent right;
      }

  Kept-found :
      (r : Option R) (mod_time : ℕ) (v : V) (id : Bytes)
      → Kept v id
      → get_and_create_file_id_if_not_exist srv format filename parent r mod_time v
        ≡ (ok (true, id), v)
  unfolding first_id
  Kept-found r mod_time v id k =
      asked r mod_time v
      ∙ ap (λ fs. found_or_created srv format filename parent r mod_time (first_id (take 1 fs)) v)
          k.is_found
      ∙ ap
          (λ x.
            found_or_created srv format filename parent r mod_time (x, (first_id (k.file ∷ [])).1)
              v)
          k.is_id
      ∙ ap (λ x. found_or_created srv format filename parent r mod_time (id, x) v) k.in_parent
      ∙ found_lem r mod_time v id k.some_id

  -- By what is there already.
  Kept-by :
      (r : Option R) (mod_time : ℕ) (v v' : V) (found : Bool) (id : Bytes) (fs : List DriveFile)
      → found_in v ≡ fs
      → All (λ f. f.id ≢ []) fs
      → found_or_created srv format filename parent r mod_time (first_id (take 1 fs)) v
        ≡ (ok (found, id), v')
      → Kept v' id
  unfolding first_id found_or_created bytes_eq
  Kept-by r mod_time v v' found id [] none_yet ids h =
      created_Kept r mod_time v v' found id none_yet h
  Kept-by r mod_time v v' found id (f ∷ fs) there (some_id, _) h =
      there_Kept r mod_time v v' found id f fs there some_id h

  -- For a service that finds the files it has, and a name and a folder without quotes and backslashes:
  -- if a call answers an id, every call for the same name and folder right after it, whatever it would
  -- make, answers that id, says that the file is there, and makes nothing.
  pub get_and_create_file_id_if_not_exist-again :
      (r r' : Option R) (mod_time mod_time' : ℕ) (v v' : V) (found : Bool) (id : Bytes)
      → get_and_create_file_id_if_not_exist srv format filename parent r mod_time v
        ≡ (ok (found, id), v')
      → get_and_create_file_id_if_not_exist srv format filename parent r' mod_time' v'
        ≡ (ok (true, id), v')
  get_and_create_file_id_if_not_exist-again r r' mod_time mod_time' v v' found id h =
      Kept-found r' mod_time' v' id (
        Kept-by r mod_time v v' found id (found_in v) refl
          (select-All (lies_in filename parent) (λ f. f.id ≢ []) (files v) (finds.has_ids v))
          (sym (asked r mod_time v) ∙ h))
