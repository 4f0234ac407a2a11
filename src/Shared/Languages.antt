-- ===== src/Shared/Languages.antt =====
-- packages/shared/src/languages.ts: the language registry, the limits, jobs and output frames.
-- `toLowerCase` is a parameter, since its Unicode tables are not part of the program.
pub mod Laws
use collab_ide.Base.{
  ℕ, suc, ◌+◌, Bool, true, false, ◌||◌, Option, none, some, List, [], ◌∷◌, Str, text, ◌===◌, any,
  find, last_index_of, drop, length, ◌==◌, if◌then◌else◌,
}

pub data LanguageId : Type 0 where
  python javascript : LanguageId

pub record LanguageConfig : Type 0 where
  pub label : Str
  pub image : Str
  pub cmd : List Str
  pub extensions : List Str

unfoldable pub languages : LanguageId → LanguageConfig
languages python = record {
  label = text "Python";
  image = text "collab-sandbox-python:1";
  cmd = text "python" ∷ text "-u" ∷ [];
  extensions = text "py" ∷ [];
}
languages javascript = record {
  label = text "JavaScript";
  image = text "collab-sandbox-node:1";
  cmd = text "node" ∷ [];
  extensions = text "js" ∷ text "mjs" ∷ text "cjs" ∷ [];
}

-- The keys of the registry, in its order.
abbrev pub language_ids : List LanguageId
language_ids = python ∷ javascript ∷ []

unfoldable pub language_key : LanguageId → Str
language_key python = text "python"
language_key javascript = text "javascript"

-- Wall clock of a run, in milliseconds.
abbrev pub run_timeout_ms : ℕ
run_timeout_ms = 10_000

abbrev pub max_output_bytes : ℕ
max_output_bytes = 1_000_000

abbrev pub max_run_files : ℕ
max_run_files = 100

abbrev pub max_run_input_bytes : ℕ
max_run_input_bytes = 1_000_000

pub record RunFile : Type 0 where
  pub path : Str
  pub content : Str

pub record RunJob : Type 0 where
  pub job_id : Str
  pub project_id : Str
  pub language_id : LanguageId
  pub entrypoint : Str
  pub files : List RunFile

pub data RunStatus : Type 0 where
  finished timeout error : RunStatus

pub data OutputStream : Type 0 where
  stdout stderr : OutputStream

pub record ExitFrame : Type 0 where
  pub status : RunStatus
  pub exit_code : Option ℕ
  pub duration_ms : ℕ
  pub truncated : Bool
  pub message : Option Str

pub data RunFrame : Type 0 where
  output : OutputStream → Str → RunFrame
  exit : ExitFrame → RunFrame

abbrev pub is_exit : RunFrame → Bool
is_exit (output stream chunk) = false
is_exit (exit f) = true

abbrev slice_after : Option ℕ → Str → Str
slice_after none s = s
slice_after (some i) s = drop (suc i) s

module _ (to_lower_case : Str → Str) where
  -- The tests on `dot`: no dot, a leading one or a trailing one means no extension.
  extension_at : Option ℕ → Str → Option Str
  extension_at none base = none
  extension_at (some dot) base =
      if (dot == 0) || (suc dot == length base)
      then none
      else some (to_lower_case (drop (suc dot) base))

  unfoldable pub extension_of : Str → Option Str
  unfolding extension_at
  extension_of path =
      let base = slice_after (last_index_of path b'/') path in
      extension_at (last_index_of base b'.') base

  -- The map built from the registry at load; no extension is listed twice, so the order in which
  -- the entries are set does not matter.
  unfoldable pub extension_to_id : Str → Option LanguageId
  extension_to_id extension =
      find (λ id. any (λ e. e === extension) (languages id).extensions) language_ids

  language_of : Option Str → Option LanguageId
  language_of none = none
  language_of (some extension) = extension_to_id extension

  unfoldable pub language_for_path : Str → Option LanguageId
  unfolding language_of
  language_for_path path = language_of (extension_of path)

unfoldable pub language_by_id : Str → Option LanguageId
language_by_id id = find (λ k. language_key k === id) language_ids
