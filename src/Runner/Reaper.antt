-- ===== src/Runner/Reaper.antt =====
-- apps/runner/src/sandbox/reaper.ts: which containers a sweep removes. The docker command line and the
-- parser of dates, to the milliseconds since 1970, are arguments.
pub mod Sweeps
use collab_ide.Base.{
  ℕ, ◌+◌, ◌≡◌, Bool, true, false, not, List, [], ◌∷◌, ◌++◌, map, keep, Option, none, some, Str,
  text, ◌===◌, split, trim, is_space, length, ◌==◌, leb, if◌then◌else◌,
}

pub record Answer : Type 0 where
  pub code : Option ℕ
  pub stdout : Str

pub data Command : Type 0 where
  list_runs : Command
  inspect remove : List Str → Command

-- The count that the sweep answers with, and the commands that it issued.
pub record Sweep : Type 0 where
  pub removed : ℕ
  pub commands : List Command

abbrev pub run_label : Str
run_label = text "ce.run"

abbrev pub default_max_age_ms : ℕ
default_max_age_ms = 60_000

abbrev pub argv : Command → List Str
argv list_runs = text "ps" ∷ text "-aq" ∷ text "--filter" ∷ (text "label=" ++ run_label) ∷ []
argv (inspect ids) = text "inspect" ∷ text "-f" ∷ text "{{.ID}} {{.Created}}" ∷ ids
argv (remove ids) = text "rm" ∷ text "-fv" ∷ ids

-- `trimmed.split(/\s+/)`, where an empty text has one empty word: `in_word` says whether the character
-- before was not a space.
abbrev pub words_from : Bool → Str → List Str
words_from in_word [] = if in_word then [] ∷ [] else []
words_from in_word (c ∷ s) =
    let inside = words_from true s in
    let outside = words_from false s in
    if is_space c then (if in_word then [] ∷ outside else outside) else on_head c inside
  where
    on_head : ℕ → List Str → List Str
    on_head c [] = (c ∷ []) ∷ []
    on_head c (w ∷ ws) = (c ∷ w) ∷ ws

abbrev pub words : Str → List Str
words s = words_from true s

pub record Inspected : Type 0 where
  pub id : Str
  pub created_ms : ℕ

abbrev pub is_filled : Str → Bool
is_filled s = not (length s == 0)

module _ (parse_date : Str → Option ℕ) where
  abbrev pub dated : Str → Option ℕ → Option Inspected
  dated id none = none
  dated id (some created_ms) = some (record { id = id; created_ms = created_ms })

  abbrev pub of_words : List Str → Option Inspected
  of_words [] = none
  of_words (id ∷ []) = none
  of_words (id ∷ created ∷ rest) =
      if is_filled id
      then (if is_filled created then dated id (parse_date created) else none)
      else none

  unfoldable pub parse_inspect_line : Str → Option Inspected
  parse_inspect_line line = of_words (words (trim line))

abbrev pub present : List (Option Inspected) → List Inspected
present [] = []
present (none ∷ entries) = present entries
present (some entry ∷ entries) = entry ∷ present entries

-- `createdMs <= Date.now() - maxAgeMs`, without the subtraction.
abbrev pub is_stale : ℕ → ℕ → Inspected → Bool
is_stale now max_age_ms entry = leb (entry.created_ms + max_age_ms) now

module _ (parse_date : Str → Option ℕ) (docker : Command → Answer) (now max_age_ms : ℕ) where
  abbrev pub stale_ids : Str → List Str
  stale_ids stdout =
      map (λ entry. entry.id)
        (keep (is_stale now max_age_ms)
          (present (map (parse_inspect_line parse_date) (split b'\n' stdout))))

  abbrev pub is_done : Answer → Bool
  is_done answer = done answer.code
    where
      done : Option ℕ → Bool
      done none = false
      done (some n) = n == 0

  abbrev pub remove_stale : List Command → List Str → Sweep
  remove_stale issued [] = record { removed = 0; commands = issued }
  remove_stale issued (id ∷ ids) = record {
    removed = if is_done (docker (remove (id ∷ ids))) then length (id ∷ ids) else 0;
    commands = issued ++ remove (id ∷ ids) ∷ [];
  }

  abbrev pub inspect_listed : List Str → Sweep
  inspect_listed [] = record { removed = 0; commands = list_runs ∷ [] }
  inspect_listed (id ∷ ids) =
      let inspected = docker (inspect (id ∷ ids)) in
      let issued = list_runs ∷ inspect (id ∷ ids) ∷ [] in
      if is_done inspected
      then remove_stale issued (stale_ids inspected.stdout)
      else record { removed = 0; commands = issued }

  abbrev pub listed_ids : Str → List Str
  listed_ids stdout = keep is_filled (map trim (split b'\n' stdout))

  unfoldable pub reap_stale_containers : Sweep
  reap_stale_containers =
      let listed = docker list_runs in
      if is_done listed
      then inspect_listed (listed_ids listed.stdout)
      else record { removed = 0; commands = list_runs ∷ [] }
