-- ===== src/Files/Service/Deleted.antt =====
-- files/service.ts: deleting, and the directories above a path.
use collab_ide.Base.{
  ℕ, ◌≡◌, refl, inl, inr, Bool, true, false, ◌&&◌, ◌||◌, not, some, List, [], ◌∷◌, any, keep,
  keep-cong, find, find-holds, All, Str, ◌===◌, ===_iff, ===_refl, ===_comm, ok, or_throw, bind_ok,
  create_ok, Bool-cases, arith,
}
use collab_ide.Database.{Table, find_first}
use collab_ide.Database.Distinct.{Distinct}
use collab_ide.Effects.{Effect}
use collab_ide.Files.Rows.{FileRow, at_path, same_path}
use collab_ide.Files.Paths.{is_descendant_of}
use collab_ide.Files.Service.{in_project, is_doomed, file_not_found, deleted_ids, delete_file}
use collab_ide.Files.Service.Parents.{Rooted, dir_at, is_descendant_of_trans}
use collab_ide.Files.Service.Keys.{same_row, find-none, twin, ids_of, ids_of-All}

-- The path of `q` at `x` goes with the file `f` of the project `p`.
abbrev gone : Str → FileRow → Str → Str → Bool
gone p f q x = (q === p) && ((x === f.path) || (f.is_dir && is_descendant_of x f.path))

abbrev gone_row : Str → FileRow → FileRow → Bool
gone_row p f r = gone p f r.project_id r.path

keep-any :
    (p q x : Str) (f : FileRow) (rows : List FileRow)
    → any (at_path q x) (keep (λ r. not (gone_row p f r)) rows) ≡ true
    → (any (at_path q x) rows ≡ true) × (gone p f q x ≡ false)
unfolding at_path
keep-any p q x f [] h = cc
keep-any p q x f (r ∷ rows) h =
    ground (arith, keep-any p q x f rows, ===_iff r.project_id q, ===_iff r.path x)

any-keep :
    (p q a : Str) (f : FileRow) (rows : List FileRow)
    → any (dir_at q a) rows ≡ true
    → gone p f q a ≡ false
    → any (dir_at q a) (keep (λ r. not (gone_row p f r)) rows) ≡ true
unfolding at_path
any-keep p q a f [] h there = cc
any-keep p q a f (r ∷ rows) h there =
    ground (arith, any-keep p q a f rows, ===_iff r.project_id q, ===_iff r.path a)

any-dir_at :
    (p x : Str) (rows : List FileRow)
    → any (at_path p x) rows ≡ false
    → any (dir_at p x) rows ≡ false
any-dir_at p x [] h = refl
any-dir_at p x (r ∷ rows) h = ground (arith, any-dir_at p x rows)

-- What stands at the path of a file that is no directory is no directory.
no_dir :
    (p : Str) (f : FileRow) (rows : List FileRow) (q : FileRow → Bool)
    → f.project_id ≡ p
    → f.is_dir ≡ false
    → Distinct same_path rows
    → find q rows ≡ some f
    → any (dir_at p f.path) rows ≡ false
unfolding same_path at_path
no_dir p f [] q mine file d e = refl
no_dir p f (r ∷ rows) q mine file (new, ds) e = elim (Bool-cases (q r)) [
  | inl hit ↦
      let same : r ≡ f = ground arith in
      let rest : any (at_path p f.path) rows ≡ false = rw (← mine, ← same) new in
      ground (arith, any-dir_at p f.path rows rest)
  | inr miss ↦
      let other = find-none q (same_path r) rows f (ground arith) new in
      ground (
        arith,
        no_dir p f rows q mine file ds,
        ===_iff r.project_id p,
        ===_iff f.project_id r.project_id,
        ===_iff r.path f.path,
        ===_iff f.path r.path,
      )
]

below_path :
    (x a path : Str) → a ≡ path → is_descendant_of x a ≡ true → is_descendant_of x path ≡ true
below_path x a path e h = rw (← e) h

keep-Rooted :
    (p : Str) (f : FileRow) (rows : List FileRow)
    → (f.is_dir ≡ false → any (dir_at p f.path) rows ≡ false)
    → Rooted rows
    → Rooted (keep (λ r. not (gone_row p f r)) rows)
keep-Rooted p f rows plain v = record {
  parents = λ q x a h below.
      let (there, left) = keep-any p q x f rows h in
      let dir = v.parents q x a there below in
      any-keep p q a f rows dir (
        ground (
          arith,
          plain,
          ===_iff q p,
          ===_iff a f.path,
          is_descendant_of_trans x a f.path,
          below_path x a f.path,
        ));
}

same_path_comm : (r s : FileRow) → same_path r s ≡ same_path s r
unfolding same_path at_path
same_path_comm r s = ground (arith, ===_comm r.project_id s.project_id, ===_comm r.path s.path)

same_path_refl : (r : FileRow) → same_path r r ≡ true
unfolding same_path at_path
same_path_refl r = ground (arith, ===_refl r.project_id, ===_refl r.path)

module _ (t : Table FileRow same_path) (p : Str) (f : FileRow) (d : t.Db) where
  abbrev chosen : FileRow → Bool
  chosen r = any (λ id. r.id === id) (deleted_ids t p f d)

  chosen-dir :
      (ys : List FileRow)
      → f.project_id ≡ p
      → f.is_dir ≡ true
      → All (λ r. same_row f r ≡ same_path f r) ys
      → All
          (λ r.
            any (λ j. r.id === j) (ids_of (λ s. (s.project_id === p) && is_doomed f s) (t.rows d))
            ≡ ((r.project_id === p) && is_doomed f r))
          ys
      → All (λ r. not (chosen r) ≡ not (gone_row p f r)) ys
  unfolding deleted_ids same_path at_path
  chosen-dir [] mine dir h k = tt
  chosen-dir (r ∷ ys) mine dir (h, hs) (k, ks) = (
    ground (arith, ===_comm r.id f.id, ===_iff r.project_id p, ===_iff r.project_id f.project_id),
    chosen-dir ys mine dir hs ks,
  )

  chosen-file :
      (ys : List FileRow)
      → f.project_id ≡ p
      → f.is_dir ≡ false
      → All (λ r. same_row f r ≡ same_path f r) ys
      → All (λ r. not (chosen r) ≡ not (gone_row p f r)) ys
  unfolding deleted_ids same_path at_path
  chosen-file [] mine file h = tt
  chosen-file (r ∷ ys) mine file (h, hs) = (
    ground (arith, ===_comm r.id f.id, ===_iff r.project_id p, ===_iff r.project_id f.project_id),
    chosen-file ys mine file hs,
  )

  -- The test of the deletion is one on the project and the path.
  chosen-All :
      (file_id : Str)
      → f.project_id ≡ p
      → find (in_project p file_id) (t.rows d) ≡ some f
      → Distinct same_path (t.rows d)
      → Distinct same_row (t.rows d)
      → All (λ r. not (chosen r) ≡ not (gone_row p f r)) (t.rows d)
  chosen-All file_id mine found paths ids =
      let same =
        twin same_row same_path (in_project p file_id) (λ r s. ===_comm r.id s.id) same_path_comm
          (λ r. ===_refl r.id) same_path_refl (t.rows d) f ids paths found in
      elim (Bool-cases f.is_dir) [
        | inl dir ↦
            chosen-dir (t.rows d) mine dir same
              (ids_of-All (λ s. (s.project_id === p) && is_doomed f s) (t.rows d) ids)
        | inr plain ↦ chosen-file (t.rows d) mine plain same
      ]

module _ (t : Table FileRow same_path) where
  -- What `delete_file` has found and removed.
  record Deletion (p file_id : Str) (d d' : t.Db) : Type 0 where
    file : FileRow
    found : find (in_project p file_id) (t.rows d) ≡ some file
    mine : file.project_id ≡ p
    left : t.rows d' ≡ keep (λ r. not (chosen t p file d r)) (t.rows d)

  delete_file_inv :
      (p file_id : Str) (d : t.Db) (n : ℕ) (d' : t.Db) (fx : List Effect)
      → delete_file t p file_id d ≡ ok (n, d', fx)
      → Deletion p file_id d d'
  unfolding delete_file
  delete_file_inv p file_id d n d' fx e =
      let (f, there, e') =
        bind_ok (or_throw (find_first t (in_project p file_id) d) file_not_found) _ (n, d', fx) e in
      let found = create_ok (find_first t (in_project p file_id) d) file_not_found f there in
      let picked = find-holds (in_project p file_id) (t.rows d) found in
      let same : t.delete_many (chosen t p f d) d ≡ d' = ground arith in
      record {
        file = f;
        found = found;
        mine = ground (arith, ===_iff f.project_id p);
        left = rw (← same) (t.rows-delete_many (chosen t p f d) d);
      }

  -- Where each ancestor of each path in a project is a directory row of that project, and paths and ids are unique, it is so after deleting a file, or a directory with everything below it.
  pub delete_file-Rooted :
      (p file_id : Str) (d : t.Db) (n : ℕ) (d' : t.Db) (fx : List Effect)
      → delete_file t p file_id d ≡ ok (n, d', fx)
      → Distinct same_path (t.rows d)
      → Distinct same_row (t.rows d)
      → Rooted (t.rows d)
      → Rooted (t.rows d')
  delete_file-Rooted p file_id d n d' fx e paths ids v =
      let c = delete_file_inv p file_id d n d' fx e in
      let agree = chosen-All t p c.file d file_id c.mine c.found paths ids in
      rw
        (
          c.left,
          keep-cong (λ r. not (chosen t p c.file d r)) (λ r. not (gone_row p c.file r)) (t.rows d)
              agree,
        )
        (keep-Rooted p c.file (t.rows d)
          (λ plain. no_dir p c.file (t.rows d) (in_project p file_id) c.mine plain paths c.found) v)
