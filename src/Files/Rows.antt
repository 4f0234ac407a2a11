-- ===== src/Files/Rows.antt =====
-- The File model of apps/server/prisma/schema.prisma, without its two timestamps.
use collab_ide.Base.{Bool, ◌&&◌, Str, ◌===◌}

pub record FileRow : Type 0 where
  pub id : Str
  pub project_id : Str
  pub path : Str
  pub content : Str
  pub is_dir : Bool

-- The unique key projectId_path.
unfoldable pub at_path : Str → Str → FileRow → Bool
at_path project_id path r = (r.project_id === project_id) && (r.path === path)

unfoldable pub same_path : FileRow → FileRow → Bool
unfolding at_path
same_path r s = at_path r.project_id r.path s
