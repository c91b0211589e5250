-- ===== src/Client/Codes.antt =====
-- The codes of the client and the table of the lifecycle manager that it calls.
use ucl_tools.Base.{
  is_some, ◌≡◌, refl, ap, ◌∙◌, Bool, true, false, not, Option, some, if◌then◌else◌, Text, text_eq,
  pos, negsuc,
}
use ucl_tools.Settings.{
  stat_exec_err, stat_exec_fin, stat_exec_busy, stat_app_running, stat_app_stop,
}
use ucl_tools.Tasks.{State, lookup, is_exists_comm_task_ctx}
use ucl_tools.Server.{Response, reply, Wake, dcm_get_app_status, dcm_run_app, dcm_stop_app}
use ucl_tools.Server.Replies.{free, dcm_run_app-reply, dcm_stop_app_lem}
use ucl_tools.Client.{
  parse_info, Call, parse_status, dcm_client_get_app_status, dcm_client_run_app,
  dcm_client_stop_app,
}

-- The manager at the other end of the connection answers with this response.
abbrev pub answers : Response → Call
answers r conn = some r

-- A client that runs an application through a connection gets 2 if the name is empty or has a task, -1
-- if it is free but no node has its command, and 0 otherwise.
pub client_run_app_lem :
    (conn : Option Text) (name : Text) (command : Option Text) (asking waiting : State → State)
    (wake : Wake) (s : State)
    → dcm_client_run_app (some conn) (answers (dcm_run_app name command asking waiting wake s).1)
      ≡ (if not (free name s) then pos 2 else if is_some command then pos 0 else negsuc 0)
unfolding dcm_client_run_app parse_status text_eq
client_run_app_lem conn name command asking waiting wake s =
    ap (λ r. dcm_client_run_app (some conn) (answers r))
      (dcm_run_app-reply name command asking waiting wake s)
    ∙ by_case (free name s) (is_some command)
  where
    by_case :
        (a b : Bool)
        → dcm_client_run_app (some conn) (
            answers (
              reply (if not a then stat_exec_busy else if b then stat_exec_fin else stat_exec_err)))
          ≡ (if not a then pos 2 else if b then pos 0 else negsuc 0)
    by_case false b = refl
    by_case true false = refl
    by_case true true = refl

-- A client that asks for the status of an application gets 1 if the table has a task of its name and
-- 0 if not; one that stops it gets 0 if the table has a task of its name and -1 if not.
pub client_status_stop :
    (conn : Option Text) (name : Text) (s : State)
    → (dcm_client_get_app_status (some conn) (answers (dcm_get_app_status name s))
        ≡ (if is_exists_comm_task_ctx name s then pos 1 else pos 0))
      × (dcm_client_stop_app (some conn) (answers (dcm_stop_app name s).1)
          ≡ (if is_exists_comm_task_ctx name s then pos 0 else negsuc 0))
unfolding dcm_get_app_status is_exists_comm_task_ctx dcm_client_get_app_status dcm_client_stop_app
    parse_info parse_status text_eq
client_status_stop conn name s = (
  status (is_some (lookup name s.tasks)),
  ap (λ r. dcm_client_stop_app (some conn) (answers r)) (dcm_stop_app_lem name s).0
      ∙ stop (is_some (lookup name s.tasks)),
)
  where
    status :
        (b : Bool)
        → dcm_client_get_app_status (some conn) (
            answers (record {
              status = stat_exec_fin;
              info = if b then stat_app_running else stat_app_stop;
            }))
          ≡ (if b then pos 1 else pos 0)
    status false = refl
    status true = refl

    stop :
        (b : Bool)
        → dcm_client_stop_app
            (some conn)
            (answers (reply (if b then stat_exec_fin else stat_exec_err)))
          ≡ (if b then pos 0 else negsuc 0)
    stop false = refl
    stop true = refl
