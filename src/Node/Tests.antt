-- ===== src/Node/Tests.antt =====
-- Environments, a document, and connections.
use ucl_tools.Base.{
  ◌≡◌, refl, ◌⊎◌, true, Option, none, some, List, [], ◌∷◌, ◌++◌, arith, Text, text, text_eq, All,
  pos,
}
use ucl_tools.Screen.{UclNode}
use ucl_tools.Document.{str, obj, Fields, end, field, get}
use ucl_tools.Node.Apps.{launcher_exists, validate_format, validate_local}
use ucl_tools.Node.Accepted.{
  IsRemote, IsLocal, RemoteLaunched, IsLaunched, validate_format-IsLaunched,
}
use ucl_tools.Node.Env.{convert_env_vars}
use ucl_tools.Node.Env.Total.{has_eq, convert_env_vars-total}
use ucl_tools.Node.Env.Plain.{convert_env_vars-settings, convert_env_vars_empty_value}
use ucl_tools.Document.{ok as listed}
use ucl_tools.Gather.{get_app_info_from_node}
use ucl_tools.Wire.{
  Writer, send_command, send_magic_code, conn_write_with_size, conn_write, put_uint32, read_command,
  wait_magic_code, conn_read_with_size, conn_read, uint32,
}
use ucl_tools.Wire.Segments.{Flowing}
use ucl_tools.Node.Serve.{
  closed, serve_read, dispatch_comm, from_lcm, to_send, task_done, write, give_count, link_loop,
}
use ucl_tools.Node.Serve.Fetch.{fresh, read_reply, dispatch_comm-fetch}

convert_env_vars-total_example :
    (r : List Text) × (convert_env_vars (text "A='x y' B") ≡ some r) × All (λ v. has_eq v ≡ true) r
convert_env_vars-total_example = convert_env_vars-total (text "A='x y' B")

convert_env_vars-settings_example :
    convert_env_vars (text "A=1 B=2 ") ≡ some (text "A=1" ∷ text "B=2" ∷ [])
convert_env_vars-settings_example =
    convert_env_vars-settings ((text "A", text "1") ∷ (text "B", text "2") ∷ [])
      ((refl, refl, omega arith), ((refl, refl, omega arith), tt))

convert_env_vars_empty_value_example : convert_env_vars (text "A= B=2") ≡ some (text "A=B=2" ∷ [])
convert_env_vars_empty_value_example =
    convert_env_vars_empty_value b'A' [] (text "B") (text "2") refl refl refl

abbrev here : UclNode
here = record { ip = text "10.0.0.2"; port = pos 7654; host_name = text "ivi" }

abbrev at_ivi : Fields
at_ivi = field (text "launcher") (str (text "ivi")) end

abbrev local_app : Fields
local_app = field (text "command_type") (str (text "local")) (field (text "local") (obj at_ivi) end)

validate_format-IsLaunched_example :
    (IsRemote local_app
      × RemoteLaunched
          (here ∷ [])
          (get (text "sender") local_app)
          (get (text "receivers") local_app))
    ⊎ (IsLocal local_app
        × ((x : Fields) × (get (text "local") local_app ≡ obj x) × IsLaunched (here ∷ []) x))
unfolding validate_format validate_local launcher_exists get text_eq
validate_format-IsLaunched_example = validate_format-IsLaunched (here ∷ []) local_app refl

-- A request for the document of an application, in one segment, and the answer in two.
abbrev request : Text
request =
    0x55 ∷ 0x48 ∷ 0x4d ∷ 0x49 ∷ 0 ∷ 0 ∷ 0 ∷ 9 ∷ (text "getAppCmd" ++ (0 ∷ 0 ∷ 0 ∷ 3 ∷ text "map"))

abbrev halves : List Text
halves = (0 ∷ 0 ∷ 0 ∷ []) ∷ (2 ∷ text "{}") ∷ []

abbrev app_files : Text → Option Text
app_files name = some (text "{}")

request-Flowing : Flowing (request ∷ [])
request-Flowing = ground arith

halves-Flowing : Flowing halves
halves-Flowing = ground arith

dispatch_comm-fetch_example :
    (conn : Writer) × (dispatch_comm app_files (λ request. listed none) (request ∷ []) (fresh 2)
      ≡ closed conn)
    × (get_app_info_from_node true
          (send_command (fresh 5) (text "getAppCmd") (text "map")).1
          (read_reply (conn_read_with_size halves))
        ≡ some (some (text "{}")))
unfolding send_command send_magic_code conn_write_with_size conn_write put_uint32 dispatch_comm
    serve_read read_command wait_magic_code conn_read_with_size conn_read uint32 text_eq
dispatch_comm-fetch_example =
    dispatch_comm-fetch app_files (λ request. listed none) (fresh 5) (text "map") (request ∷ [])
      halves 2 refl (omega arith) request-Flowing refl (refl, omega arith) halves-Flowing refl

-- A message of another type ends the loop, and one that is not read keeps the type of the last one.
loop_ends :
    link_loop [] (
      from_lcm (some (text "a", some (text "ncount")))
      ∷ from_lcm (some (text "b", none))
      ∷ to_send (text "c") true
      ∷ from_lcm (some (text "d", some (text "other")))
      ∷ task_done
      ∷ [])
    ≡ (give_count (text "a") ∷ give_count (text "b") ∷ write (text "c") ∷ [], true)
unfolding link_loop text_eq
loop_ends = refl
