-- ===== src/Shared/Protocol.antt =====
-- packages/shared/src/protocol.ts: message types, close codes and document ids.
pub mod Laws
use collab_ide.Base.{
  ℕ, ◌+◌, ◌*◌, ◌≤◌, Bool, ◌&&◌, ◌||◌, Option, none, some, List, [], ◌∷◌, ◌++◌, Str, split, length,
  all, ltb, leb, ◌==◌, if◌then◌else◌,
}

pub data MessageType : Type 0 where
  sync awareness : MessageType

-- Byte 0 of a frame; `none` is a value that the protocol does not name.
unfoldable pub message_type : ℕ → Option MessageType
message_type n = if n == 0 then some sync else if n == 1 then some awareness else none

pub data CloseCode : Type 0 where
  bad_request unauthenticated forbidden not_found gone : CloseCode

unfoldable pub close_code : CloseCode → ℕ
close_code bad_request = 4400
close_code unauthenticated = 4401
close_code forbidden = 4403
close_code not_found = 4404
close_code gone = 4409

abbrev pub doc_id_separator : ℕ
doc_id_separator = b':'

abbrev pub max_doc_id_part_length : ℕ
max_doc_id_part_length = 64

abbrev pub max_doc_id_length : ℕ
max_doc_id_length = max_doc_id_part_length * 2 + 1

pub record DocRef : Type 0 where
  pub project_id : Str
  pub file_id : Str

unfoldable pub make_doc_id : Str → Str → Str
make_doc_id project_id file_id = project_id ++ doc_id_separator ∷ file_id

-- [A-Za-z0-9_-]
unfoldable pub is_id_char : ℕ → Bool
is_id_char c =
    (leb b'A' c && leb c b'Z')
    || (leb b'a' c && leb c b'z')
    || (leb b'0' c && leb c b'9')
    || (c == b'_')
    || (c == b'-')

unfoldable pub is_id_part : Str → Bool
is_id_part value =
    ltb 0 (length value) && leb (length value) max_doc_id_part_length && all is_id_char value

-- The last lines of `parseDocId`: exactly two parts, both of them id parts.
doc_ref_of : List Str → Option DocRef
doc_ref_of [] = none
doc_ref_of (p ∷ []) = none
doc_ref_of (p ∷ f ∷ []) =
    if is_id_part p && is_id_part f then some (record { project_id = p; file_id = f }) else none
doc_ref_of (p ∷ f ∷ g ∷ r) = none

unfoldable pub parse_doc_id : Str → Option DocRef
unfolding doc_ref_of
parse_doc_id doc_id =
    if (length doc_id == 0) || ltb max_doc_id_length (length doc_id)
    then none
    else doc_ref_of (split doc_id_separator doc_id)
