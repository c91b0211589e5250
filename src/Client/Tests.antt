-- ===== src/Client/Tests.antt =====
-- A client on a host with two addresses, and its codes.
use ucl_tools.Base.{
  ◌≡◌, refl, true, false, none, some, List, [], ◌∷◌, Text, text, text_eq, length, pos,
}
use ucl_tools.Tasks.{State, lookup}
use ucl_tools.Screen.{VScrnDef, is_candidate}
use ucl_tools.Server.{task_done, dcm_run_app}
use ucl_tools.Client.{
  Net, try_dial, dial_lcm, candidate_ips, filter_ips, is_loopback, dcm_client_run_app,
}
use ucl_tools.Client.Dial.{is_dialable, try_dial_lem, dial_lcm-remote}
use ucl_tools.Client.Codes.{answers, client_run_app_lem}
use ucl_tools.Client.Memory.{no_blocks, get_executable, free_executable, after_all, after_all-leak}

abbrev host : Net
host = record {
  hostname = none;
  ifaces = none;
  split_host_port = λ _. none;
  parse_ip = λ ip. some (text_eq ip (text "127.0.0.1"));
  dial = λ _. true;
}

abbrev own : List Text
own = text "127.0.0.1" ∷ text "10.0.0.1" ∷ []

abbrev screen : VScrnDef
screen = record {
  real_displays = [];
  nodes = [];
  life_cycle_manager = record { node_id = pos 0; port = pos 8080 };
  framework_node = [];
}

try_dial_lem_example : try_dial host own none false ≡ (some (text "127.0.0.1"), false)
try_dial_lem_example = try_dial_lem host own

dial_lcm-remote_example :
    (is_candidate (text "10.0.0.1") own ≡ true)
    × (is_loopback host (text "10.0.0.1") ≡ false)
    × (is_dialable host (text "10.0.0.1") ≡ true)
unfolding text_eq dial_lcm filter_ips try_dial candidate_ips
dial_lcm-remote_example =
    dial_lcm-remote host screen (text "10.0.0.2") own none (text "10.0.0.1") refl refl

abbrev one : State
one = record { tasks = (text "map", 0) ∷ []; next = 1; done = λ _. false }

client_run_app_lem_example :
    dcm_client_run_app
      (some none)
      (answers (dcm_run_app (text "map") none (λ s. s) (λ s. s) task_done one).1)
    ≡ pos 2
unfolding text_eq lookup
client_run_app_lem_example =
    client_run_app_lem none (text "map") none (λ s. s) (λ s. s) task_done one

after_all-leak_example :
    length (after_all (get_executable false (text "map") ∷ free_executable ∷ []) no_blocks).blocks
    ≡ 1
after_all-leak_example = after_all-leak (get_executable false (text "map") ∷ free_executable ∷ [])
