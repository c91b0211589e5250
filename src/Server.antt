-- ===== src/Server.antt =====
-- The gRPC handlers of cmd/ucl-lifecycle-manager/ucl_lifecycle_manager.go. A handler that waits takes
-- `asking`, what the rest of the manager does to the table while `getAppCmd` asks the nodes, and
-- `waiting`, what it does while the handler waits in its last `select`; `command` is what `getAppCmd`
-- returns.
pub mod Replies
pub mod System
pub mod Invariant
pub mod Owners
mod Tests
use ucl_tools.Base.{ℕ, Option, none, some, List, [], if◌then◌else◌, Text, text_eq}
use ucl_tools.Settings.{
  stat_exec_success, stat_exec_err, stat_exec_fin, stat_exec_busy, stat_app_running, stat_app_stop,
}
use ucl_tools.Tasks.{
  State, manage_compositors, cancel, update_comm_task_ctx_map, delete_comm_task,
  cancel_comm_task_ctx, cancel_all_comm_task_ctx_except_compositors, is_exists_comm_task_ctx,
  get_running_app_from_comm_task_ctx_map,
}

-- `dcm.Response`.
pub record Response : Type 0 where
  pub status : Text
  pub info : Text

abbrev pub reply : Text → Response
reply status = record { status = status; info = [] }

-- `DcmGetExecutableAppList`, over what `getAppListFromEachNode` returns.
unfoldable pub dcm_get_executable_app_list : Option Text → Response
dcm_get_executable_app_list none = record { status = stat_exec_err; info = [] }
dcm_get_executable_app_list (some apps) = record { status = stat_exec_fin; info = apps }

-- `DcmGetRunningAppList`, over the names of the table in the order of its iteration.
unfoldable pub dcm_get_running_app_list : List Text → Response
dcm_get_running_app_list names = elim (get_running_app_from_comm_task_ctx_map names) [
  | none ↦ record { status = stat_exec_err; info = [] }
  | some apps ↦ record { status = stat_exec_fin; info = apps }
]

-- `DcmGetAppStatus`.
unfoldable pub dcm_get_app_status : Text → State → Response
unfolding is_exists_comm_task_ctx
dcm_get_app_status app_name s = record {
  status = stat_exec_fin;
  info = if is_exists_comm_task_ctx app_name s then stat_app_running else stat_app_stop;
}

-- How a handler stands after its first part: it replied, or `go dispatchCommToNodes` was reached.
pub data Launch : Type 0 where
  replied : Response → Launch
  started : ℕ → Launch

-- From `getAppCmd` to `go dispatchCommToNodes`, with the context that the handler holds; `status` is
-- the handler's `responseStatus` so far.
unfoldable pub launch_found : Text → Text → ℕ → Option Text → State → State × Launch
launch_found status task_name ctx none s =
    ((delete_comm_task task_name s).0, replied (reply status))
launch_found status task_name ctx (some command) s = (s, started ctx)

-- From the entry of the task to `go dispatchCommToNodes`.
unfoldable pub launch : Text → Text → Option Text → (State → State) → State → State × Launch
unfolding launch_found
launch status task_name command asking s =
    let (s', entered) = update_comm_task_ctx_map task_name s in
    elim entered [
      | none ↦ (s', replied (reply stat_exec_busy))
      | some ctx ↦ launch_found status task_name ctx command (asking s')
    ]

-- Which of the two channels of the last `select` is ready.
pub data Wake : Type 0 where
  task_done grpc_done : Wake

-- The last `select` of the handlers that wait for the task.
unfoldable pub wait_done : (State → State) → Wake → State × Launch → State × Response
wait_done waiting wake (s, replied r) = (s, r)
wait_done waiting task_done (s, started ctx) = (waiting s, reply stat_exec_fin)
wait_done waiting grpc_done (s, started ctx) = (cancel ctx (waiting s), reply stat_exec_fin)

-- The reply of the handlers that do not wait.
unfoldable pub no_wait : Text → State × Launch → State × Response
no_wait status (s, replied r) = (s, r)
no_wait status (s, started ctx) = (s, reply status)

-- `DcmRunAppCommand`; `getAppName` returned `app_name`, which is empty if it found none. A conversion
-- to bytes is never nil, so the second error path is not taken.
unfoldable pub dcm_run_app_command :
    Text → Text → (State → State) → (State → State) → Wake → State → State × Response
unfolding launch wait_done
dcm_run_app_command app_name app_json asking waiting wake s =
    if text_eq app_name []
    then (s, reply stat_exec_err)
    else wait_done waiting wake (launch stat_exec_err app_name (some app_json) asking s)

-- `DcmRunApp`.
unfoldable pub dcm_run_app :
    Text → Option Text → (State → State) → (State → State) → Wake → State → State × Response
unfolding launch wait_done
dcm_run_app app_name command asking waiting wake s =
    wait_done waiting wake (launch stat_exec_err app_name command asking s)

-- `DcmRunAppAsync`.
unfoldable pub dcm_run_app_async : Text → Option Text → (State → State) → State → State × Response
unfolding launch no_wait
dcm_run_app_async app_name command asking s =
    no_wait stat_exec_success (launch stat_exec_success app_name command asking s)

-- `DcmStopApp`.
unfoldable pub dcm_stop_app : Text → State → State × Response
dcm_stop_app task_name s =
    let (s', ok) = cancel_comm_task_ctx task_name s in
    (s', reply (if ok then stat_exec_fin else stat_exec_err))

-- `DcmStopAppAll`.
unfoldable pub dcm_stop_app_all : State → State × Response
dcm_stop_app_all s = (cancel_all_comm_task_ctx_except_compositors s, reply stat_exec_fin)

-- `DcmLaunchCompositor`.
unfoldable pub dcm_launch_compositor :
    Option Text → (State → State) → (State → State) → Wake → State → State × Response
unfolding launch wait_done
dcm_launch_compositor command asking waiting wake s =
    wait_done waiting wake (launch stat_exec_err manage_compositors command asking s)

-- `DcmLaunchCompositorAsync`.
unfoldable pub dcm_launch_compositor_async :
    Option Text → (State → State) → State → State × Response
unfolding launch no_wait
dcm_launch_compositor_async command asking s =
    no_wait stat_exec_success (launch stat_exec_success manage_compositors command asking s)

-- `DcmStopCompositor`.
unfoldable pub dcm_stop_compositor : State → State × Response
dcm_stop_compositor s =
    let (s', ok) = cancel_comm_task_ctx manage_compositors s in
    (s', reply (if ok then stat_exec_fin else stat_exec_err))
