-- ===== src/Keeper/Launch.antt =====
-- `TimingWrapper`: its count and the start of the process.
use ucl_tools.Base.{◌≡◌, Bool, true, false, ◌||◌, List, [], ◌∷◌, arith, take}
use ucl_tools.Keeper.{
  Message, message_eq, WorkerEvent, received, task_closed, ncount_worker, Action, send_ncount,
  start_process, timing_wrapper,
}

abbrev pub is_send : Action → Bool
is_send send_ncount = true
is_send _ = false

abbrev pub is_start : Action → Bool
is_start start_process = true
is_start _ = false

-- Some action is of the kind.
abbrev pub does : (Action → Bool) → List Action → Bool
does p [] = false
does p (a ∷ actions) = p a || does p actions

-- The worker gets back the message that it sent.
abbrev pub echoes : Message → WorkerEvent → Bool
echoes sent (received m) = message_eq m sent
echoes sent task_closed = false

-- A process that waits for the others is counted first and started exactly when the manager sends
-- back the worker's own message. A process that does not wait is started first, and is counted exactly
-- when its start succeeds.
pub timing_wrapper_order :
    (starts : Bool) (sent : Message) (answer : WorkerEvent)
    → (take 1 (timing_wrapper true starts sent answer) ≡ send_ncount ∷ [])
      × (does is_start (timing_wrapper true starts sent answer) ≡ echoes sent answer)
      × (take 1 (timing_wrapper false starts sent answer) ≡ start_process ∷ [])
      × (does is_send (timing_wrapper false starts sent answer) ≡ starts)
unfolding timing_wrapper ncount_worker
timing_wrapper_order starts sent answer = (ground arith, ground arith, ground arith, ground arith)
