-- ===== src/Settings.antt =====
-- internal/ucl/common_settings.go: the words of the protocols, repeated flags, the environment and the
-- addresses of the host.
use ucl_tools.Base.{Option, none, some, List, [], ◌∷◌, ◌++◌, Text, text, join}

abbrev pub stat_exec_success : Text
stat_exec_success = text "Success"

abbrev pub stat_exec_err : Text
stat_exec_err = text "Error"

abbrev pub stat_exec_fin : Text
stat_exec_fin = text "Finish"

abbrev pub stat_exec_busy : Text
stat_exec_busy = text "Busy"

abbrev pub stat_app_running : Text
stat_app_running = text "AppRunning"

abbrev pub stat_app_stop : Text
stat_app_stop = text "AppStop"

-- The command types that go over a connection.
abbrev pub cmd_distrib_comm : Text
cmd_distrib_comm = text "launchApp"

abbrev pub cmd_get_app_comm : Text
cmd_get_app_comm = text "getAppCmd"

abbrev pub cmd_get_executable_app_list : Text
cmd_get_executable_app_list = text "getExecutableAppList"

-- `MultiFlag`, its `Set` and its `String`.
abbrev pub MultiFlag : Type 0
MultiFlag = List Text

unfoldable pub set_flag : MultiFlag → Text → MultiFlag
set_flag m value = m ++ value ∷ []

unfoldable pub string_flag : MultiFlag → Text
string_flag m = join (text ", ") m

-- `GetEnv`, over what `os.LookupEnv` finds for the key.
unfoldable pub get_env : Option Text → Text → Text
get_env (some value) fallback = value
get_env none fallback = fallback

-- What `i.Addrs()` gives for an interface: an error, or for each address the text of its IPv4 form, if
-- `To4` finds one.
abbrev pub Interface : Type 0
Interface = Option (List (Option Text))

unfoldable pub addrs_of : List (Option Text) → List Text
addrs_of [] = []
addrs_of (none ∷ addrs) = addrs_of addrs
addrs_of (some ip ∷ addrs) = ip ∷ addrs_of addrs

unfoldable pub addrs_of_interfaces : List Interface → List Text
unfolding addrs_of
addrs_of_interfaces [] = []
addrs_of_interfaces (none ∷ ifaces) = addrs_of_interfaces ifaces
addrs_of_interfaces (some addrs ∷ ifaces) = addrs_of addrs ++ addrs_of_interfaces ifaces

-- `GetIpv4AddrsOfAllInterfaces`, over what `net.Interfaces` returns; `none` is an error.
unfoldable pub get_ipv4_addrs_of_all_interfaces : Option (List Interface) → Option (List Text)
unfolding addrs_of_interfaces
get_ipv4_addrs_of_all_interfaces none = none
get_ipv4_addrs_of_all_interfaces (some ifaces) = elim (addrs_of_interfaces ifaces) [
  | [] ↦ none
  | ip ∷ ips ↦ some (ip ∷ ips)
]
