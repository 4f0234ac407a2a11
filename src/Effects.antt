-- ===== src/Effects.antt =====
-- What the services ask of the collaboration layer and of the document store once their change of
-- the database has committed: disconnectProjectUser, disconnectProject, closeFileRooms and
-- docStore.deleteDoc, as values in the order of the calls.
use collab_ide.Base.{List, Str}

pub data Effect : Type 0 where
  disconnect_project_user : Str → Str → Effect
  disconnect_project : Str → Effect
  close_file_rooms : List Str → Effect
  delete_doc : Str → Effect
