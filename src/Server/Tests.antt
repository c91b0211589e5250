-- ===== src/Server/Tests.antt =====
-- The handlers and the manager at small tables.
use ucl_tools.Base.{◌≡◌, refl, ◌≢◌, true, false, none, some, [], ◌∷◌, text, text_eq}
use ucl_tools.Settings.{stat_exec_success, stat_exec_busy}
use ucl_tools.Tasks.{State, empty, lookup, delete_comm_task, update_comm_task_ctx_map}
use ucl_tools.Server.{reply, task_done, grpc_done, dcm_run_app, dcm_run_app_async}
use ucl_tools.Server.Replies.{dcm_run_app-reply, dcm_run_app-state, dcm_run_app_async-reply}
use ucl_tools.Server.System.{Worker, Reach, start, next, enter}
use ucl_tools.Server.Owners.{one_owner, owner_entry}

abbrev one : State
one = record { tasks = (text "map", 0) ∷ []; next = 1; done = λ _. false }

dcm_run_app-reply_example :
    (dcm_run_app (text "map") (some []) (λ s. s) (λ s. s) task_done one).1 ≡ reply stat_exec_busy
unfolding lookup text_eq
dcm_run_app-reply_example = dcm_run_app-reply (text "map") (some []) (λ s. s) (λ s. s) task_done one

dcm_run_app-state_example :
    (dcm_run_app (text "ivi") (some []) (λ s. s) (λ s. s) grpc_done one).0.done 1 ≡ true
unfolding lookup text_eq
dcm_run_app-state_example =
    (dcm_run_app-state (text "ivi") (some []) (λ s. s) (λ s. s) grpc_done one).2 refl refl refl

dcm_run_app_async-reply_example :
    (dcm_run_app_async (text "ivi") none (λ s. s) one).1 ≡ reply stat_exec_success
unfolding lookup text_eq
dcm_run_app_async-reply_example = dcm_run_app_async-reply (text "ivi") none (λ s. s) one

abbrev map_owner : Worker
map_owner = record { name = text "map"; ctx = 0 }

abbrev ivi_owner : Worker
ivi_owner = record { name = text "ivi"; ctx = 1 }

abbrev map_entered : State
map_entered = (update_comm_task_ctx_map (text "map") empty).0

abbrev ivi_entered : State
ivi_entered = (update_comm_task_ctx_map (text "ivi") map_entered).0

two_run : Reach (record { state = ivi_entered; workers = ivi_owner ∷ map_owner ∷ [] })
unfolding update_comm_task_ctx_map lookup text_eq
two_run = next (next start (enter (text "map") refl)) (enter (text "ivi") refl)

one_owner_example : text "ivi" ≢ text "map"
one_owner_example = one_owner [] [] [] ivi_owner map_owner two_run refl

owner_entry_example : lookup (text "map") (delete_comm_task (text "map") ivi_entered).0.tasks ≡ none
owner_entry_example = (owner_entry (ivi_owner ∷ []) [] map_owner two_run refl).2
