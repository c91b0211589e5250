-- ===== src/Server/System.antt =====
-- The manager as a whole: the table of tasks, and the goroutines that own an entry of it. A handler
-- owns its entry from `updateCommTaskCtxMap` to `go dispatchCommToNodes`, and `dispatchCommToNodes`
-- from there to its deferred `deleteCommTask`.
use ucl_tools.Base.{ℕ, ◌≡◌, none, some, List, [], ◌∷◌, ◌++◌, Text}
use ucl_tools.Tasks.{
  State, empty, cancel, update_comm_task_ctx_map, delete_comm_task, cancel_comm_task_ctx,
  cancel_all_comm_task_ctx_except_compositors,
}

pub record Worker : Type 0 where
  pub name : Text
  pub ctx : ℕ

pub record System : Type 0 where
  pub state : State
  pub workers : List Worker

-- One step of any goroutine of the manager.
pub data Step (s : System) : System → Type 0 where
  -- A handler enters a task, or is refused.
  enter :
      (name : Text) {t : State} {ctx : ℕ}
      → update_comm_task_ctx_map name s.state ≡ (t, some ctx)
      → Step s (record { state = t; workers = record { name = name; ctx = ctx } ∷ s.workers })
  refuse :
      (name : Text) {t : State}
      → update_comm_task_ctx_map name s.state ≡ (t, none)
      → Step s (record { state = t; workers = s.workers })
  -- A handler without a command, or the end of `dispatchCommToNodes`.
  leave :
      (before after : List Worker) (w : Worker)
      → s.workers ≡ before ++ w ∷ after
      → Step s (record { state = (delete_comm_task w.name s.state).0; workers = before ++ after })
  -- A context is cancelled by a goroutine that holds it.
  cancel_ctx : (ctx : ℕ) → Step s (record { state = cancel ctx s.state; workers = s.workers })
  stop :
      (name : Text)
      → Step s (record { state = (cancel_comm_task_ctx name s.state).0; workers = s.workers })
  stop_all :
      Step s (record {
        state = cancel_all_comm_task_ctx_except_compositors s.state;
        workers = s.workers;
      })

pub data Reach : System → Type 0 where
  start : Reach (record { state = empty; workers = [] })
  next : {s t : System} → Reach s → Step s t → Reach t
