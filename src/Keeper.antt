-- ===== src/Keeper.antt =====
-- internal/ucl/ucl_consistency_keeper.go, and the two connection loops that carry its messages:
-- `handleNodeConnection` of cmd/ucl-lifecycle-manager/ucl_lifecycle_manager.go and the loop of
-- `handleConnection` of cmd/ucl-node/ucl_node.go. A message is kept as the record that `json.Marshal`
-- and `json.Unmarshal` convert; both are exact on it, so comparing the bytes compares the records.
pub mod Count
pub mod Alive
pub mod Launch
pub mod Process
pub mod Barrier
mod Tests
use ucl_tools.Base.{
  ℕ, ◌+◌, ◌-◌, Bool, true, false, ◌&&◌, Option, none, some, List, [], ◌∷◌, ◌++◌, leb, if◌then◌else◌,
  Text, text, text_eq, itoa, pos,
}

-- `ConsistencyProtocol`.
pub record Message : Type 0 where
  pub comm_type : Text
  pub comm_data : Text

abbrev pub ncount : Text
ncount = text "ncount"

abbrev pub nkeep : Text
nkeep = text "nkeep"

abbrev pub is_ncount : Message → Bool
is_ncount m = text_eq m.comm_type ncount

abbrev pub is_nkeep : Message → Bool
is_nkeep m = text_eq m.comm_type nkeep

-- `reflect.DeepEqual` of two messages.
abbrev pub message_eq : Message → Message → Bool
message_eq a b = text_eq a.comm_type b.comm_type && text_eq a.comm_data b.comm_data

-- What `NcountMaster` sends to every connection, and `NkeepMaster` to its own.
abbrev pub ncount_message : Message
ncount_message = record { comm_type = ncount; comm_data = [] }

abbrev pub nkeep_message : Message
nkeep_message = record { comm_type = nkeep; comm_data = text "Check from Master" }

-- What the `select` of `NcountMaster` finds: the end of the task, a node that has counted, the watchdog.
pub data MasterEvent : Type 0 where
  task_closed counted watchdog : MasterEvent

-- How `NcountMaster` stands: the end of the task, a cancel by the watchdog, the message to all, or
-- still waiting with so many nodes.
pub data MasterEnd : Type 0 where
  closed cancelled completed : MasterEnd
  waiting : ℕ → MasterEnd

-- `connected++` and the test behind it: whether the loop is left.
abbrev pub count_one : ℕ → ℕ → ℕ × Bool
count_one num_worker connected = (connected + 1, leb num_worker (connected + 1))

-- `NcountMaster`, from `connected` on.
unfoldable pub ncount_master : ℕ → ℕ → List MasterEvent → MasterEnd
ncount_master num_worker connected [] = waiting connected
ncount_master num_worker connected (task_closed ∷ events) = closed
ncount_master num_worker connected (watchdog ∷ events) = cancelled
ncount_master num_worker connected (counted ∷ events) =
    let more = ncount_master num_worker (connected + 1) events in
    if (count_one num_worker connected).1 then completed else more

-- What the `select` of `ncountWorker` finds.
pub data WorkerEvent : Type 0 where
  received : Message → WorkerEvent
  task_closed : WorkerEvent

-- The result of `ncountWorker`: no error, an error with the task cancelled, an error.
pub data WorkerEnd : Type 0 where
  agreed mismatch other_reason : WorkerEnd

-- The message of `ncountWorker`; `number` is its random number.
abbrev pub worker_message : Text → ℕ → Message
worker_message app_name number = record {
  comm_type = ncount;
  comm_data = app_name ++ itoa (pos number);
}

-- `ncountWorker`, once it has sent its message.
unfoldable pub ncount_worker : Message → WorkerEvent → WorkerEnd
ncount_worker sent (received m) = if message_eq m sent then agreed else mismatch
ncount_worker sent task_closed = other_reason

-- What `TimingWrapper` does, in order.
pub data Action : Type 0 where
  send_ncount start_process cancel_task wait_process : Action

-- `TimingWrapper`: `waits` is `IsWaitDeps`, `starts` whether `appCmd.Start` returns no error, and
-- `answer` what `ncountWorker` finds.
unfoldable pub timing_wrapper : Bool → Bool → Message → WorkerEvent → List Action
timing_wrapper true starts sent answer = elim (ncount_worker sent answer) [
  | agreed ↦ send_ncount ∷ start_process ∷ (if starts then wait_process ∷ [] else cancel_task ∷ [])
  | mismatch ↦ send_ncount ∷ cancel_task ∷ []
  | other_reason ↦ send_ncount ∷ []
]
timing_wrapper false true sent answer = elim (ncount_worker sent answer) [
  | mismatch ↦ start_process ∷ send_ncount ∷ cancel_task ∷ wait_process ∷ []
  | _ ↦ start_process ∷ send_ncount ∷ wait_process ∷ []
]
timing_wrapper false false sent answer = start_process ∷ cancel_task ∷ []

-- `handleNodeConnection`, a message of `sendNodeChan`: what is written to the node, where `resp` is
-- `respNCountMsg`. An empty message stands for the nil slice that was not set.
unfoldable pub forward : Option Message → Message → Option Message
forward resp m = if is_ncount m then resp else some m

-- `handleNodeConnection`, a message of the node: the new `respNCountMsg`, and what is told to whom.
pub data Told : Type 0 where
  tell_ncount tell_nkeep leave_loop : Told

unfoldable pub take_from_node : Option Message → Message → Option Message × Told
take_from_node resp m =
    if is_ncount m
    then (some m, tell_ncount)
    else (resp, if is_nkeep m then tell_nkeep else leave_loop)

-- `NkeepMaster`, by seconds: how long until the next check is sent, and until the answer to the last
-- one is overdue, unless it came.
pub record Watch : Type 0 where
  pub send_in : ℕ
  pub overdue_in : Option ℕ
  pub checks : ℕ

abbrev pub retry_interval : ℕ
retry_interval = 10

abbrev pub timeout_interval : ℕ
timeout_interval = 4

-- A second passes, or the node answers.
pub data WatchEvent : Type 0 where
  second answer : WatchEvent

pub data WatchEnd : Type 0 where
  watching : Watch → WatchEnd
  gave_up : WatchEnd

-- `NkeepMaster` before its loop: the first check is sent.
abbrev pub nkeep_start : Watch
nkeep_start = record { send_in = retry_interval; overdue_in = some timeout_interval; checks = 1 }

-- `case <-sendt.C`, a second after the ticker stood at `send_in`.
abbrev pub send_check : ℕ → Option ℕ → ℕ → Watch
send_check send_in overdue_in checks =
    if leb send_in 1
    then record {
      send_in = retry_interval;
      overdue_in = some timeout_interval;
      checks = checks + 1;
    }
    else record { send_in = send_in - 1; overdue_in = overdue_in; checks = checks }

-- One event of the loop of `NkeepMaster`.
unfoldable pub nkeep_step : Watch → WatchEvent → WatchEnd
nkeep_step w answer = watching (record w { send_in = retry_interval; overdue_in = none })
nkeep_step w second = elim w.overdue_in [
  | none ↦ watching (send_check w.send_in none w.checks)
  | some left ↦
      if leb left 1 then gave_up else watching (send_check w.send_in (some (left - 1)) w.checks)
]

unfoldable pub nkeep_master : Watch → List WatchEvent → WatchEnd
nkeep_master w [] = watching w
nkeep_master w (e ∷ events) = elim (nkeep_step w e) [
  | watching w' ↦ nkeep_master w' events
  | gave_up ↦ gave_up
]
