-- ===== src/Client/Tabs.antt =====
-- The open tabs: apps/web/src/features/editor/useOpenFiles.ts.
use collab_ide.Base.{
  ℕ, suc, ◌≤◌, Bool, true, false, not, List, [], ◌∷◌, ◌++◌, map, Option, none, some, Str, ◌===◌,
  take, any, keep, if◌then◌else◌,
}
use collab_ide.Search.Contents.{file_name}
pub mod Distinct

pub record OpenTab : Type 0 where
  pub id : Str
  pub path : Str
  pub name : Str

pub record OpenFiles : Type 0 where
  pub tabs : List OpenTab
  pub active_id : Option Str
  pub recent_ids : List Str

abbrev pub max_recent : ℕ
max_recent = 10

abbrev pub has_id : Str → OpenTab → Bool
has_id id tab = tab.id === id

-- `baseName` is the same expression as the name in the search.
abbrev pub tab_of : Str → Str → OpenTab
tab_of id path = record { id = id; path = path; name = file_name path }

abbrev pub recent_with : Str → List Str → List Str
recent_with id recent = take max_recent (id ∷ keep (λ r. not (r === id)) recent)

unfoldable pub open_file : Str → Str → OpenFiles → OpenFiles
open_file id path s = record {
  tabs = if any (has_id id) s.tabs then s.tabs else s.tabs ++ tab_of id path ∷ [];
  active_id = some id;
  recent_ids = recent_with id s.recent_ids;
}

-- `remaining[remaining.length - 1]?.id ?? null`
abbrev pub last_id : List OpenTab → Option Str
last_id [] = none
last_id (tab ∷ []) = some tab.id
last_id (tab ∷ next ∷ tabs) = last_id (next ∷ tabs)

abbrev pub active_after : Option Str → Str → List OpenTab → Option Str
active_after none id remaining = none
active_after (some current) id remaining =
    if current === id then last_id remaining else some current

unfoldable pub close_file : Str → OpenFiles → OpenFiles
close_file id s =
    let remaining = keep (λ tab. not (has_id id tab)) s.tabs in
    record s { tabs = remaining; active_id = active_after s.active_id id remaining }

abbrev pub renamed : Str → Str → OpenTab → OpenTab
renamed id path tab =
    if has_id id tab then record tab { path = path; name = file_name path } else tab

unfoldable pub rename_tab : Str → Str → OpenFiles → OpenFiles
rename_tab id path s = record s { tabs = map (renamed id path) s.tabs }

abbrev pub set_active : Option Str → OpenFiles → OpenFiles
set_active id s = record s { active_id = id }

abbrev pub no_files : OpenFiles
no_files = record { tabs = []; active_id = none; recent_ids = [] }
