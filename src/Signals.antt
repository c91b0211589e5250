-- ===== src/Signals.antt =====
-- internal/ucl/ucl_proc_sighandler.go: the signals to the processes that a program has started.
pub mod Killed
mod Tests
use ucl_tools.Base.{
  ℕ, ◌+◌, Bool, true, false, ◌&&◌, Option, none, some, List, [], ◌∷◌, ◌++◌, if◌then◌else◌,
}

pub data Signal : Type 0 where
  sigint sigterm sigkill : Signal

-- `CheckProcessAlive`: whether `os.FindProcess` and the signal 0 return no error.
abbrev pub check_process_alive : Bool → Bool → Bool
check_process_alive finds takes_signal = finds && takes_signal

-- The loop of `killWhenAlive` with `sync`, over what its probes answer: what is left behind the first
-- probe that finds no process, or `none` while it goes on.
unfoldable pub until_dead : List Bool → Option (List Bool)
until_dead [] = none
until_dead (false ∷ answers) = some answers
until_dead (true ∷ answers) = until_dead answers

-- `killWhenAlive`: the signals that are sent, and the answers that are left.
unfoldable pub kill_when_alive : Signal → Bool → List Bool → List Signal × Option (List Bool)
unfolding until_dead
kill_when_alive sig sync [] = ([], none)
kill_when_alive sig sync (false ∷ answers) = ([], some answers)
kill_when_alive sig sync (true ∷ answers) =
    (sig ∷ [], if sync then until_dead answers else some answers)

-- The second `killWhenAlive` of `watchDogKill`, if the first one has returned.
abbrev pub kill_again : Bool → List Signal → Option (List Bool) → List Signal × Option (List Bool)
kill_again sync sent none = (sent, none)
kill_again sync sent (some answers) =
    let (more, left) = kill_when_alive sigkill sync answers in (sent ++ more, left)

-- `watchDogKill`.
unfoldable pub watch_dog_kill : Bool → List Bool → List Signal × Option (List Bool)
unfolding kill_when_alive
watch_dog_kill sync answers =
    let (sent, left) = kill_when_alive sigterm sync answers in kill_again sync sent left

abbrev pub with_pid : ℕ → List Signal → List (ℕ × Signal)
with_pid pid [] = []
with_pid pid (sig ∷ sent) = (pid, sig) ∷ with_pid pid sent

-- What a child gets, and then the next ones, if `watchDogKill` has returned.
abbrev pub and_then :
    ℕ → List Signal × Option (List Bool) → List (ℕ × Signal) × Bool → List (ℕ × Signal) × Bool
and_then pid (sent, none) next = (with_pid pid sent, false)
and_then pid (sent, some rest) (more, done) = (with_pid pid sent ++ more, done)

-- `killAllChildren` with `sync`: what the children get, each with the answers of its probes, and whether
-- the loop has come to its end. It takes up a child when `watchDogKill` has returned for the one before.
unfoldable pub kill_all_children : List (ℕ × List Bool) → List (ℕ × Signal) × Bool
kill_all_children [] = ([], true)
kill_all_children ((pid, answers) ∷ children) =
    and_then pid (watch_dog_kill true answers) (kill_all_children children)

-- `killAllChildren` without `sync`: a goroutine for each child, with what it sends.
unfoldable pub start_kills : List (ℕ × List Bool) → List (ℕ × List Signal)
unfolding watch_dog_kill
start_kills [] = []
start_kills ((pid, answers) ∷ children) =
    (pid, (watch_dog_kill false answers).0) ∷ start_kills children

-- What the `select` of `SignalHandler` finds.
pub data SignalEvent : Type 0 where
  new_child : ℕ → SignalEvent
  got : Signal → SignalEvent

abbrev pub is_stop : Signal → Bool
is_stop sigint = true
is_stop sigterm = true
is_stop sigkill = false

-- `SignalHandler`: the lists that go to `killAllChildren`, and the children that are left.
unfoldable pub signal_handler : List ℕ → List SignalEvent → List (List ℕ) × List ℕ
signal_handler children [] = ([], children)
signal_handler children (new_child pid ∷ events) = signal_handler (children ++ pid ∷ []) events
signal_handler children (got s ∷ events) =
    let (killed, left) = signal_handler [] events in
    let other = signal_handler children events in
    if is_stop s then (children ∷ killed, left) else other

-- What `WaitApp` does: it waits for its process, and kills the own one.
pub data WaitDeed : Type 0 where
  wait_process kill_self count_down : WaitDeed

abbrev pub wait_app : List WaitDeed
wait_app = wait_process ∷ kill_self ∷ count_down ∷ []
