-- ===== src/Shared/Languages/Laws.antt =====
-- packages/shared/src/languages.ts: the ids of the registry.
use collab_ide.Base.{◌≡◌, ◌↔◌, some, Str, text, ◌===◌, ===_iff, arith}
use collab_ide.Shared.Languages.{LanguageId, python, javascript, language_key, language_by_id}

-- An id off the wire is accepted exactly when it is the key of the entry that is returned.
pub language_by_id_iff :
    (id : Str) (l : LanguageId) → (language_by_id id ≡ some l) ↔ (language_key l ≡ id)
unfolding language_by_id language_key text ◌===◌
language_by_id_iff id python = (
  λ h. ground (arith, ===_iff (language_key python) id, ===_iff (language_key javascript) id),
  λ h. ground (arith, ===_iff (language_key python) id, ===_iff (language_key javascript) id),
)
language_by_id_iff id javascript = (
  λ h. ground (arith, ===_iff (language_key python) id, ===_iff (language_key javascript) id),
  λ h. ground (arith, ===_iff (language_key python) id, ===_iff (language_key javascript) id),
)
