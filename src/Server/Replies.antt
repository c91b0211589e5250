-- ===== src/Server/Replies.antt =====
-- What each handler replies, and on what that depends.
use ucl_tools.Base.{
  is_some, ℕ, ◌≡◌, Bool, true, false, not, ◌&&◌, Option, none, some, [], arith, if◌then◌else◌, Text,
  text_eq,
}
use ucl_tools.Settings.{stat_exec_success, stat_exec_err, stat_exec_fin, stat_exec_busy}
use ucl_tools.Tasks.{State, lookup, cancel, update_comm_task_ctx_map, cancel_comm_task_ctx}
use ucl_tools.Tasks.Laws.{delete_comm_task_free}
use ucl_tools.Server.{
  reply, Wake, grpc_done, dcm_get_app_status, dcm_run_app_command, dcm_run_app, dcm_run_app_async,
  dcm_stop_app,
}

-- A task can be entered under this name.
abbrev pub free : Text → State → Bool
free name s = not (is_some (lookup name s.tasks)) && not (text_eq name [])

-- `DcmRunApp` replies `Busy` if the name is empty or has a task, `Error` if it is free but no node has
-- its command, and `Finish` otherwise, whatever else happens meanwhile.
pub dcm_run_app-reply :
    (name : Text) (command : Option Text) (asking waiting : State → State) (wake : Wake) (s : State)
    → (dcm_run_app name command asking waiting wake s).1
      ≡ reply (
          if not (free name s)
          then stat_exec_busy
          else if is_some command
          then stat_exec_fin
          else stat_exec_err)
unfolding dcm_run_app update_comm_task_ctx_map
dcm_run_app-reply name command asking waiting wake s = ground arith

-- A refused `DcmRunApp` changes nothing; one that finds no command takes its entry back, so the name
-- is free again; and when the client goes away first, the context of the task is cancelled.
pub dcm_run_app-state :
    (name : Text) (command : Option Text) (asking waiting : State → State) (wake : Wake) (s : State)
    → let s' = (dcm_run_app name command asking waiting wake s).0 in
      (free name s ≡ false → s' ≡ s)
      × (free name s ≡ true → command ≡ none → lookup name s'.tasks ≡ none)
      × (free name s ≡ true → is_some command ≡ true → wake ≡ grpc_done → s'.done s.next ≡ true)
unfolding dcm_run_app update_comm_task_ctx_map cancel
dcm_run_app-state name command asking waiting wake s = (
  ground arith,
  λ h e. ground (arith, delete_comm_task_free name (asking (update_comm_task_ctx_map name s).0)),
  ground arith,
)

-- `DcmRunAppAsync` replies `Busy` if the name is empty or has a task, and `Success` otherwise: also
-- when no node has the command, so that nothing was started.
pub dcm_run_app_async-reply :
    (name : Text) (command : Option Text) (asking : State → State) (s : State)
    → (dcm_run_app_async name command asking s).1
      ≡ reply (if free name s then stat_exec_success else stat_exec_busy)
unfolding dcm_run_app_async update_comm_task_ctx_map
dcm_run_app_async-reply name command asking s = ground arith

-- `DcmRunAppCommand` replies as `DcmRunApp` does for an application whose command is known, and
-- `Error`, with no change, for a document that names no application.
pub dcm_run_app_command-reply :
    (name json : Text) (asking waiting : State → State) (wake : Wake) (s : State)
    → (text_eq name [] ≡ true
        → dcm_run_app_command name json asking waiting wake s ≡ (s, reply stat_exec_err))
      × (text_eq name [] ≡ false
          → dcm_run_app_command name json asking waiting wake s
            ≡ dcm_run_app name (some json) asking waiting wake s)
unfolding dcm_run_app_command dcm_run_app
dcm_run_app_command-reply name json asking waiting wake s = (ground arith, ground arith)

-- `DcmStopApp` replies `Finish` if the name has a task, whose context it cancels, and `Error` with no
-- change if it has none; the status of no application changes by it.
pub dcm_stop_app_lem :
    (name : Text) (s : State)
    → let (s', r) = dcm_stop_app name s in
      (r ≡ reply (if is_some (lookup name s.tasks) then stat_exec_fin else stat_exec_err))
      × ((c : ℕ) → lookup name s.tasks ≡ some c → s'.done c ≡ true)
      × (lookup name s.tasks ≡ none → s' ≡ s)
      × ((k : Text) → dcm_get_app_status k s' ≡ dcm_get_app_status k s)
unfolding dcm_stop_app cancel_comm_task_ctx cancel dcm_get_app_status
dcm_stop_app_lem name s = (ground arith, λ c h. ground arith, ground arith, λ k. ground arith)
