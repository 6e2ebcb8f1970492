-- ===== src/Workflows/Gc.antt =====
-- apps/web/workflows/gc.ts
use zedspaces.Base.{ℕ, false, Text, lit, List, [], ◌∷◌, length}
use zedspaces.Effects.{Platform, M, ◌>>=◌, ◌>>◌, pure}
use zedspaces.Steps.Gc.{step_warn_retention, step_gc_candidates, step_close_stale_sessions}
use zedspaces.Steps.Commands.{step_list_orphan_sandboxes, step_delete_sandbox}
use zedspaces.Workflows.Child.{run_child}
use zedspaces.Workflows.Delete.{delete_workspace}

pub record GcReport : Type 0 where
  pub deleted_workspaces : ℕ
  pub orphaned_sandboxes : ℕ
  pub warned : ℕ
  pub stale_sessions : ℕ

module _ {p : Platform} where
  -- The child has no `child` flag, so it settles its own row.
  unfoldable pub delete_each : ℕ → List Text → M p (Unit {0})
  delete_each fuel [] = pure tt
  delete_each fuel (id ∷ ids) = do
    run_child fuel (lit "deleteWorkspace")
        (delete_workspace fuel (record { workspace_id = id; child = false }))
    delete_each fuel ids

  unfoldable pub delete_orphans : List Text → M p (Unit {0})
  delete_orphans [] = pure tt
  delete_orphans (name ∷ names) = do step_delete_sandbox name; delete_orphans names

  unfoldable pub gc : ℕ → ℕ → M p GcReport
  unfolding delete_each delete_orphans
  gc fuel at = do
    warned ← step_warn_retention at
    candidates ← step_gc_candidates at
    delete_each fuel candidates.expired_workspaces
    orphans ← step_list_orphan_sandboxes candidates.known_sandbox_names
    delete_orphans orphans
    stale ← step_close_stale_sessions at
    pure (record {
      deleted_workspaces = length candidates.expired_workspaces;
      orphaned_sandboxes = length orphans;
      warned = warned;
      stale_sessions = stale;
    })
