-- ===== src/Examples/Shared.antt =====
-- A document id off the wire.
use collab_ide.Base.{◌≡◌, refl, some, [], ◌∷◌, split}
use collab_ide.Shared.Protocol.{DocRef, make_doc_id, parse_doc_id, is_id_part, is_id_char}

abbrev main_file : DocRef
main_file = record { project_id = b'p' ∷ b'1' ∷ []; file_id = b'f' ∷ [] }

main_file_read : parse_doc_id (make_doc_id (b'p' ∷ b'1' ∷ []) (b'f' ∷ [])) ≡ some main_file
unfolding parse_doc_id make_doc_id is_id_part is_id_char split
main_file_read = refl
