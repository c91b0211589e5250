-- ===== src/Keeper/Process.antt =====
-- The rest of a task on its node: `NkeepWorker`, `processExitHandler` and `waitProcess`.
use ucl_tools.Base.{Bool, true, false, ◌||◌, Option, none, some, List, [], ◌∷◌, ◌++◌, Text, text}
use ucl_tools.Signals.{Signal, watch_dog_kill}
use ucl_tools.Keeper.{Message, nkeep}

-- The message that `NkeepWorker` answers with, by the name of the task and what `os.Hostname` returns.
abbrev pub keep_answer : Text → Option Text → Message
keep_answer app_name hostname = record {
  comm_type = nkeep;
  comm_data =
      text "Response from "
      ++ (app_name
          ++ (text " on " ++ elim hostname [ none ↦ text "Unknown-Host" | some name ↦ name ]));
}

-- What the `select` of `NkeepWorker` finds.
pub data KeepEvent : Type 0 where
  asked task_done : KeepEvent

-- `NkeepWorker`: what it sends, and whether it has returned.
unfoldable pub nkeep_worker : Message → List KeepEvent → List Message × Bool
nkeep_worker message [] = ([], false)
nkeep_worker message (asked ∷ events) =
    let (sent, returned) = nkeep_worker message events in (message ∷ sent, returned)
nkeep_worker message (task_done ∷ events) = ([], true)

-- `processExitHandler`: once the context is done, the signals to the process, over what its probes answer,
-- and whether it has returned.
unfoldable pub process_exit_handler : Bool → List Bool → List Signal × Bool
process_exit_handler false answers = ([], false)
process_exit_handler true answers =
    let (sent, left) = watch_dog_kill true answers in
    elim left [ none ↦ (sent, false) | some rest ↦ (sent, true) ]

-- `waitProcess`: the context is cancelled once the process has ended.
unfoldable pub wait_process : Bool → Bool → Bool
wait_process ended cancelled = ended || cancelled
