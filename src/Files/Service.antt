-- ===== src/Files/Service.antt =====
-- apps/server/src/modules/files/service.ts: reading, creating and deleting. `new_id` is the id that
-- the database gives a new row, by its path; a directory row has no content.
pub mod Parents
pub mod Rooted
pub mod Keys
pub mod Deleted
use collab_ide.Base.{
  ℕ, Bool, true, false, ◌&&◌, ◌||◌, Option, none, some, List, [], ◌∷◌, ◌++◌, map, any, length, Str,
  text, ◌===◌, if◌then◌else◌, AppError, Result, ok, err, ◌>>=◌, ◌>>◌, throw_if, or_throw, conflict,
  is_some,
}
use collab_ide.Database.{Table, find_first, find_many}
use collab_ide.Effects.{Effect, close_file_rooms, delete_doc}
use collab_ide.Shared.Protocol.{make_doc_id}
use collab_ide.Files.Rows.{FileRow, at_path, same_path}
use collab_ide.Files.Paths.{Unknown, assert_valid_path, ancestor_paths, is_descendant_of}

abbrev pub file_not_found : AppError
file_not_found = record {
  status = 404;
  code = text "FILE_NOT_FOUND";
  message = text "File not found";
}

abbrev pub is_directory : AppError
is_directory = record {
  status = 400;
  code = text "IS_DIRECTORY";
  message = text "That path is a directory, not a file";
}

abbrev pub path_exists : AppError
path_exists = record {
  status = 409;
  code = text "PATH_EXISTS";
  message = text "Something already exists at that path";
}

abbrev pub parent_not_directory : Str → AppError
parent_not_directory ancestor = record {
  status = 409;
  code = text "PARENT_NOT_DIRECTORY";
  message = b'"' ∷ ancestor ++ text "\" is a file, not a directory";
}

abbrev pub in_project : Str → Str → FileRow → Bool
in_project project_id file_id r = (r.id === file_id) && (r.project_id === project_id)

abbrev pub has_id : Str → FileRow → Bool
has_id id r = r.id === id

-- The row itself and, for a directory, what is below it.
abbrev pub is_doomed : FileRow → FileRow → Bool
is_doomed file r = has_id file.id r || is_descendant_of r.path file.path

module _ (t : Table FileRow same_path) where
  unfoldable pub find_in_project : Str → Str → t.Db → Result FileRow
  find_in_project project_id file_id d =
      or_throw (find_first t (in_project project_id file_id) d) file_not_found

  unfoldable pub read_file : Str → Str → t.Db → Result FileRow
  read_file project_id file_id d = do
    file ← find_in_project project_id file_id d
    throw_if file.is_dir is_directory
    ok file

  -- The ids of the rows that are deleted.
  unfoldable pub deleted_ids : Str → FileRow → t.Db → List Str
  deleted_ids project_id file d =
      if file.is_dir
      then map (λ r. r.id) (find_many t (λ r. (r.project_id === project_id) && is_doomed file r) d)
      else file.id ∷ []

  unfoldable pub delete_file : Str → Str → t.Db → Result (ℕ × t.Db × List Effect)
  unfolding deleted_ids
  delete_file project_id file_id d = do
    file ← or_throw (find_first t (in_project project_id file_id) d) file_not_found
    let deleted : List Str = deleted_ids project_id file d
    ok (
      length deleted,
      t.delete_many (λ r. any (λ id. r.id === id) deleted) d,
      close_file_rooms deleted ∷ map (λ id. delete_doc (make_doc_id project_id id)) deleted,
    )

  module _ (new_id : Str → Str) where
    abbrev pub row_of : Str → Str → Bool → FileRow
    row_of project_id path is_dir = record {
      id = new_id path;
      project_id = project_id;
      path = path;
      content = [];
      is_dir = is_dir;
    }

    -- One round of the loop over the ancestors, by the row that is found there.
    unfoldable pub make_parent : Str → Str → Option FileRow → t.Db → Result t.Db
    make_parent project_id ancestor none d =
        or_throw (t.create (row_of project_id ancestor true) d) conflict
    make_parent project_id ancestor (some r) d =
        if r.is_dir then ok d else err (parent_not_directory ancestor)

    unfoldable pub make_parents : Str → List Str → t.Db → Result t.Db
    unfolding make_parent
    make_parents project_id [] d = ok d
    make_parents project_id (ancestor ∷ rest) d =
        make_parent project_id ancestor (find_first t (at_path project_id ancestor) d) d >>= λ made.
        make_parents project_id rest made

    unfoldable pub create_file : Str → Unknown → Bool → t.Db → Result (FileRow × t.Db)
    unfolding make_parents
    create_file project_id raw_path is_dir d = do
      path ← assert_valid_path raw_path
      throw_if (is_some (find_first t (at_path project_id path) d)) path_exists
      made ← make_parents project_id (ancestor_paths path) d
      let row : FileRow = row_of project_id path is_dir
      created ← or_throw (t.create row made) conflict
      ok (row, created)
