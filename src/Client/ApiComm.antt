-- ===== src/Client/ApiComm.antt =====
-- cmd/ucl-api-comm/ucl_api_comm.go: the command line of the client.
use ucl_tools.Base.{
  Option, none, some, List, [], ◌∷◌, if◌then◌else◌, Text, text, text_eq, ℤ, pos, negsuc,
}

-- What `main` of ucl-api-comm asks for.
pub data Request : Type 0 where
  launch_compositor launch_compositor_async stop_compositor stop_all get_app_list
        get_running_app_list :
      Request
  run_command run run_async stop get_app_status : Text → Request

-- Its `switch`, over the option `-c` and `arg0`.
unfoldable pub request_of : Text → Text → Option Request
request_of command arg0 =
    if text_eq command (text "launch_compositor")
    then some launch_compositor
    else if text_eq command (text "launch_compositor_async")
    then some launch_compositor_async
    else if text_eq command (text "stop_compositor")
    then some stop_compositor
    else if text_eq command (text "run_command")
    then some (run_command arg0)
    else if text_eq command (text "run")
    then some (run arg0)
    else if text_eq command (text "run_async")
    then some (run_async arg0)
    else if text_eq command (text "stop")
    then some (stop arg0)
    else if text_eq command (text "stop_all")
    then some stop_all
    else if text_eq command (text "get_app_status")
    then some (get_app_status arg0)
    else if text_eq command (text "get_app_list")
    then some get_app_list
    else if text_eq command (text "get_running_app_list")
    then some get_running_app_list
    else none

-- The value that `main` prints, over what the client calls return; a list counts as 0.
unfoldable pub exit_value : (Request → ℤ) → Text → List Text → ℤ
unfolding request_of
exit_value perform command args =
    elim (request_of command (elim args [ [] ↦ [] | arg0 ∷ _ ↦ arg0 ])) [
      | none ↦ negsuc 0
      | some get_app_list ↦ pos 0
      | some get_running_app_list ↦ pos 0
      | some r ↦ perform r
    ]
