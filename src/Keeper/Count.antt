-- ===== src/Keeper/Count.antt =====
-- When `NcountMaster` lets the nodes go on.
use ucl_tools.Base.{ℕ, suc, ◌+◌, ◌<◌, ◌≡◌, refl, List, [], ◌∷◌, arith, leb, ◌==◌, if◌then◌else◌}
use ucl_tools.Keeper.{
  MasterEvent, task_closed, counted, watchdog, MasterEnd, closed, cancelled, completed, waiting,
  ncount_master,
}

-- The nodes that are needed: at least one.
abbrev pub needed : ℕ → ℕ
needed num_worker = if num_worker == 0 then 1 else num_worker

-- The nodes that count before anything else happens.
abbrev pub lead : List MasterEvent → ℕ
lead [] = 0
lead (counted ∷ events) = suc (lead events)
lead (_ ∷ events) = 0

-- The first event that is not a node's count decides, if the nodes do not.
abbrev pub ending : ℕ → List MasterEvent → MasterEnd
ending n [] = waiting n
ending n (counted ∷ events) = ending n events
ending n (task_closed ∷ events) = closed
ending n (watchdog ∷ events) = cancelled

ncount_master_from :
    (num_worker connected : ℕ) (events : List MasterEvent)
    → connected < needed num_worker
    → ncount_master num_worker connected events ≡ (
        if leb (needed num_worker) (connected + lead events)
        then completed
        else ending (connected + lead events) events)
unfolding ncount_master
ncount_master_from num_worker connected [] h = ground arith
ncount_master_from num_worker connected (counted ∷ events) h =
    ground (arith, ncount_master_from num_worker (connected + 1) events)
ncount_master_from num_worker connected (_ ∷ events) h = ground arith

-- The master lets the nodes go on exactly when as many as there are, and at least one, have counted
-- before the task ends or the watchdog barks; otherwise the first of these two decides: a task that
-- ended is left, and the watchdog cancels the task.
pub ncount_master_lem :
    (num_worker : ℕ) (events : List MasterEvent)
    → ncount_master num_worker 0 events
      ≡ (if leb (needed num_worker) (lead events) then completed else ending (lead events) events)
ncount_master_lem num_worker events =
    let same : 0 + lead events ≡ lead events = omega arith in
    rw (ncount_master_from num_worker 0 events (ground arith), same) refl
