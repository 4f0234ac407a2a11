-- ===== src/Database/Memory.antt =====
-- A table kept as the list of its rows: it satisfies the laws, and tests run on it.
use collab_ide.Base.{
  refl, Bool, not, none, some, List, [], ◌∷◌, ◌++◌, map, any, keep, if◌then◌else◌,
}
use collab_ide.Database.{Table, update_row}

abbrev pub memory : (Row : Type 0) (conflict : Row → Row → Bool) → Table Row conflict
memory Row conflict = record {
  Db = List Row;
  rows = λ d. d;
  create = λ r d. if any (conflict r) d then none else some (d ++ r ∷ []);
  update_many = λ p f d. map (update_row p f) d;
  delete_many = λ p d. keep (λ r. not (p r)) d;
  create_conflict = λ r d h. rw h;
  create_rows = λ r d h. (d ++ r ∷ [], rw h, refl);
  rows-update_many = λ p f d. refl;
  rows-delete_many = λ p d. refl;
}
