-- ===== src/Workspaces/Reads.antt =====
-- `_workspace_id` and `get_workspace` (app/crm.py) only read.
use ollum_sales.Prelude.{arith}
use ollum_sales.Text.{Text}
use ollum_sales.Exec.{Reads}
use ollum_sales.Workspaces.{workspace_id, get_workspace, require_workspace}

pub workspace_id-Reads : (value : Text) → Reads (workspace_id value)
unfolding workspace_id
workspace_id-Reads value db = ground arith

pub get_workspace-Reads : (value : Text) → Reads (get_workspace value)
unfolding get_workspace workspace_id
get_workspace-Reads value db = ground arith

pub require_workspace-Reads : (value : Text) → Reads (require_workspace value)
unfolding require_workspace workspace_id
require_workspace-Reads value db = ground arith
