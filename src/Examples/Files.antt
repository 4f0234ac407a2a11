-- ===== src/Examples/Files.antt =====
-- The path src/main.py.
use collab_ide.Base.{◌≡◌, ◌↔◌, Str, text, ◌===◌, ok, false}
use collab_ide.Base.{
  refl, arith, [], ◌∷◌, true, split, join, trim, trim_start, starts_with, ends_with_char, is_space,
}
use collab_ide.Effects.{close_file_rooms, delete_doc}
use collab_ide.Shared.Protocol.{make_doc_id}
use collab_ide.Files.Service.{delete_file, deleted_ids}
use collab_ide.Files.Service.Deleted.{delete_file-Rooted}
use collab_ide.Database.{Table}
use collab_ide.Database.Memory.{memory}
use collab_ide.Files.Rows.{FileRow, at_path, same_path}
use collab_ide.Files.Service.{row_of, create_file, make_parents, make_parent}
use collab_ide.Files.Service.Parents.{Rooted}
use collab_ide.Files.Service.Rooted.{create_file-Rooted}
use collab_ide.Files.Paths.{
  assert_valid_string, check_segments, check_segment, ancestors_from, pop, string,
  assert_valid_path, ancestor_paths, is_descendant_of,
}
use collab_ide.Files.Paths.Valid.{IsValidPath, assert_valid_path_iff}

abbrev main : Str
main = text "src/main.py"

assert_valid_path_iff_example :
    (assert_valid_path (string main) ≡ ok main) ↔ ((string main ≡ string main) × IsValidPath main)
assert_valid_path_iff_example = assert_valid_path_iff (string main) main

abbrev file_table : Table FileRow same_path
file_table = memory FileRow same_path

abbrev id_of_path : Str → Str
id_of_path path = b'#' ∷ path

abbrev project : Str
project = b'p' ∷ []

abbrev dir_row : FileRow
dir_row = row_of file_table id_of_path project (b'a' ∷ []) true

abbrev file_row : FileRow
file_row = row_of file_table id_of_path project (b'a' ∷ b'/' ∷ b'b' ∷ []) false

-- The file a/b in an empty project: the directory a is made first.
created_lem :
    create_file file_table id_of_path project (string (b'a' ∷ b'/' ∷ b'b' ∷ [])) false []
    ≡ ok (file_row, dir_row ∷ file_row ∷ [])
unfolding create_file make_parents make_parent assert_valid_path assert_valid_string check_segments
    check_segment split join trim trim_start ancestor_paths ancestors_from pop same_path at_path
    ◌===◌ starts_with ends_with_char text is_space
created_lem = refl

create_file-Rooted_example : Rooted (dir_row ∷ file_row ∷ [])
create_file-Rooted_example =
    create_file-Rooted file_table id_of_path project (string (b'a' ∷ b'/' ∷ b'b' ∷ [])) false []
      file_row (dir_row ∷ file_row ∷ []) created_lem
      (record { parents = λ p x a h. absurd (ground arith) })

-- The directory is deleted with what is below it.
deleted_lem :
    delete_file file_table project dir_row.id (dir_row ∷ file_row ∷ [])
    ≡ ok (
      2,
      [],
      close_file_rooms (dir_row.id ∷ file_row.id ∷ [])
          ∷ delete_doc (make_doc_id project dir_row.id)
          ∷ delete_doc (make_doc_id project file_row.id)
          ∷ [],
    )
unfolding delete_file deleted_ids is_descendant_of starts_with ◌===◌
deleted_lem = refl

delete_file-Rooted_example : Rooted []
unfolding same_path at_path ◌===◌
delete_file-Rooted_example =
    delete_file-Rooted file_table project dir_row.id (dir_row ∷ file_row ∷ []) 2 []
      (close_file_rooms (dir_row.id ∷ file_row.id ∷ [])
        ∷ delete_doc (make_doc_id project dir_row.id)
        ∷ delete_doc (make_doc_id project file_row.id)
        ∷ [])
      deleted_lem (refl, (refl, tt)) (refl, (refl, tt)) create_file-Rooted_example
