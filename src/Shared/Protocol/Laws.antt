-- ===== src/Shared/Protocol/Laws.antt =====
-- packages/shared/src/protocol.ts: `parseDocId` and `makeDocId`.
use collab_ide.Base.{
  ◌+◌, ◌≡◌, refl, sym, ◌∙◌, ap, true, false, some, List, [], ◌∷◌, Str, split, join, length,
  length-append, all, includes_char, split_at_sep, split_no_sep, join-split, arith,
}
use collab_ide.Shared.Protocol.{
  DocRef, make_doc_id, is_id_char, is_id_part, doc_ref_of, parse_doc_id, doc_id_separator,
}

abbrev pub IsDocRef : DocRef → Type 0
IsDocRef r = (is_id_part r.project_id ≡ true) × (is_id_part r.file_id ≡ true)

-- An id part holds no separator.
no_separator : (s : Str) → all is_id_char s ≡ true → includes_char s doc_id_separator ≡ false
unfolding is_id_char
no_separator [] h = refl
no_separator (c ∷ s) h = ground (arith, no_separator s)

split-make_doc_id :
    (p f : Str)
    → is_id_part p ≡ true
    → is_id_part f ≡ true
    → split doc_id_separator (make_doc_id p f) ≡ p ∷ f ∷ []
unfolding make_doc_id is_id_part
split-make_doc_id p f hp hf =
    split_at_sep doc_id_separator p f (ground (arith, no_separator p))
    ∙ ap (◌∷◌ p) (split_no_sep doc_id_separator f (ground (arith, no_separator f)))

length-make_doc_id : (p f : Str) → length (make_doc_id p f) ≡ length p + length f + 1
unfolding make_doc_id
length-make_doc_id p f = omega (arith, length-append p (doc_id_separator ∷ f))

-- Parsing inverts making: a reference with two valid parts is read back from its document id.
pub parse_doc_id-make_doc_id :
    (r : DocRef) → IsDocRef r → parse_doc_id (make_doc_id r.project_id r.file_id) ≡ some r
unfolding parse_doc_id is_id_part
parse_doc_id-make_doc_id r (hp, hf) =
    rw (split-make_doc_id r.project_id r.file_id hp hf)
      (ground (arith, length-make_doc_id r.project_id r.file_id))

doc_ref_of_sound :
    (parts : List Str) (r : DocRef)
    → doc_ref_of parts ≡ some r
    → (parts ≡ r.project_id ∷ r.file_id ∷ []) × IsDocRef r
unfolding doc_ref_of
doc_ref_of_sound [] r e = cc
doc_ref_of_sound (p ∷ []) r e = cc
doc_ref_of_sound (p ∷ f ∷ []) r e = ground arith
doc_ref_of_sound (p ∷ f ∷ g ∷ ps) r e = cc

-- An accepted text is the document id of the reference that is returned, whose parts are both
-- valid: nothing is repaired on the way.
pub parse_doc_id_sound :
    (s : Str) (r : DocRef)
    → parse_doc_id s ≡ some r
    → (make_doc_id r.project_id r.file_id ≡ s) × IsDocRef r
unfolding parse_doc_id make_doc_id join
parse_doc_id_sound s r e =
    let (parts, valid) = doc_ref_of_sound (split doc_id_separator s) r (ground arith) in
    (sym (ap (join doc_id_separator) parts) ∙ join-split doc_id_separator s, valid)
