-- ===== src/Server/Admin/History.antt =====
-- The requests that change the sources, in the order in which they take the lock.
use geoverse_map_server.Base.{List, [], ◌∷◌, Option}
use geoverse_map_server.Base.Text.{Text}
use geoverse_map_server.Config.{Source}
use geoverse_map_server.Config.Save.{SaveFaults}
use geoverse_map_server.Server.Admin.{Site, Backend, handle_save, handle_delete}
use geoverse_map_server.Server.Admin.Laws.{
  IsManaged, handle_save-IsManaged, handle_delete-IsManaged,
}

-- A request, with what the decoder and the operating system do in it.
pub data Call : Type 0 where
  save_call : SaveFaults → Text → Option Source → Call
  delete_call : SaveFaults → Text → Text → Call

module _ (b : Backend) (to_lower : Text → Text) where
  open b use {Source'}

  -- One request.
  unfoldable pub step : Call → Site Source' → Site Source'
  step (save_call faults temp body) site = (handle_save b to_lower faults temp body site).1
  step (delete_call faults temp name) site = (handle_delete b faults temp name site).1

  unfoldable pub run : List Call → Site Source' → Site Source'
  run [] site = site
  run (c ∷ cs) site = run cs (step c site)

  step-IsManaged : (c : Call) (site : Site Source') → IsManaged site → IsManaged (step c site)
  unfolding step
  step-IsManaged (save_call faults temp body) site m =
      handle_save-IsManaged b faults temp to_lower body site m
  step-IsManaged (delete_call faults temp name) site m =
      handle_delete-IsManaged b faults temp name site m

  -- From a managed server, whatever requests save and delete sources, and whatever fails in them, the configuration stays
  -- one that `Validate` accepts, and the registry stays valid with the names of the configuration
  -- in its order.
  pub run-IsManaged :
      (cs : List Call) (site : Site Source') → IsManaged site → IsManaged (run cs site)
  unfolding run
  run-IsManaged [] site m = m
  run-IsManaged (c ∷ cs) site m = run-IsManaged cs (step c site) (step-IsManaged c site m)
