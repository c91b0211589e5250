-- ===== src/Keeper/Tests.antt =====
-- A task on two nodes, run to the start of the process that waits; and the other theorems at inputs.
use ucl_tools.Base.{
  ℕ, ◌≡◌, refl, inl, inr, Bool, true, false, some, List, [], ◌∷◌, arith, text, text_eq, All, take,
  map,
}
use ucl_tools.Keeper.Alive.{rounds, asked, nkeep_alive}
use ucl_tools.Keeper.Barrier.Order.{Ready, waiting_starts_last}
use ucl_tools.Keeper.Barrier.Progress.{waits_of, all_started-Reach}
use ucl_tools.Keeper.Barrier.{
  Link, fresh, start_now, start_after, send_count, at_node, from_node, to_node, release, Task, link,
  count, Reach, start, next,
}
use ucl_tools.Keeper.Count.{ncount_master_lem}
use ucl_tools.Keeper.Launch.{does, is_send, is_start, echoes, timing_wrapper_order}
use ucl_tools.Keeper.{
  Message, ncount, ncount_message, take_from_node, forward, counted, watchdog, completed,
  ncount_master, received, send_ncount, start_process, timing_wrapper, watching, nkeep_master,
}

ncount_master_lem_example : ncount_master 2 0 (counted ∷ counted ∷ watchdog ∷ []) ≡ completed
ncount_master_lem_example = ncount_master_lem 2 (counted ∷ counted ∷ watchdog ∷ [])

abbrev from_sender : Message
from_sender = record { comm_type = ncount; comm_data = text "app7" }

abbrev from_receiver : Message
from_receiver = record { comm_type = ncount; comm_data = text "app9" }

timing_wrapper_order_example :
    (take 1 (timing_wrapper true true from_sender (received from_sender)) ≡ send_ncount ∷ [])
    × (does is_start (timing_wrapper true true from_sender (received from_sender))
        ≡ echoes from_sender (received from_sender))
    × (take 1 (timing_wrapper false true from_sender (received from_sender)) ≡ start_process ∷ [])
    × (does is_send (timing_wrapper false true from_sender (received from_sender)) ≡ true)
timing_wrapper_order_example = timing_wrapper_order true from_sender (received from_sender)

nkeep_alive_example : nkeep_master (asked 1) (rounds (3 ∷ 0 ∷ [])) ≡ watching (asked 3)
nkeep_alive_example = nkeep_alive (3 ∷ 0 ∷ []) 1 (omega arith)

abbrev nodes : List Bool
nodes = true ∷ false ∷ []

-- The receiver starts and counts; the sender counts.
abbrev receiver_started : Link
receiver_started = record (fresh false) { started = true }

abbrev receiver_sent : Link
receiver_sent = record receiver_started { sent = some from_receiver; up = from_receiver ∷ [] }

abbrev receiver_seen : Link
receiver_seen = record receiver_sent { up = []; resp = some from_receiver }

abbrev sender_sent : Link
sender_sent = record (fresh true) { sent = some from_sender; up = from_sender ∷ [] }

abbrev sender_seen : Link
sender_seen = record sender_sent { up = []; resp = some from_sender }

abbrev sender_queued : Link
sender_queued = record sender_seen { released = true; to_send = ncount_message ∷ [] }

abbrev sender_told : Link
sender_told = record sender_queued { to_send = []; down = from_sender ∷ [] }

abbrev sender_passed : Link
sender_passed = record sender_told { down = []; passed = true }

abbrev sender_started : Link
sender_started = record sender_passed { started = true }

abbrev at : Link → Link → ℕ → ℕ → Bool → Task
at sender receiver tokens connected cast = record {
  num_worker = 2;
  links = sender ∷ receiver ∷ [];
  tokens = tokens;
  connected = connected;
  cast = cast;
}

counted_by_both : Reach nodes (at sender_seen receiver_seen 2 0 false)
unfolding take_from_node text_eq
counted_by_both =
    let r1 : Reach nodes (at (fresh true) receiver_started 0 0 false) =
      next start (link (fresh true ∷ []) [] (fresh false) refl (start_now refl)) in
    let r2 : Reach nodes (at (fresh true) receiver_sent 0 0 false) = next r1 (
      link (fresh true ∷ []) [] receiver_started refl
        (send_count from_receiver (inr refl) refl refl)) in
    let r3 : Reach nodes (at sender_sent receiver_sent 0 0 false) = next r2 (
      link [] (receiver_sent ∷ []) (fresh true) refl
        (send_count from_sender (inl refl) refl refl)) in
    let r4 : Reach nodes (at sender_seen receiver_sent 1 0 false) =
      next r3 (link [] (receiver_sent ∷ []) sender_sent refl (from_node from_sender [] refl)) in
    next r4 (link (sender_seen ∷ []) [] receiver_sent refl (from_node from_receiver [] refl))

sender_at_last : Reach nodes (at sender_started receiver_seen 0 2 true)
unfolding forward text_eq
sender_at_last =
    let r1 : Reach nodes (at sender_seen receiver_seen 1 1 false) =
      next counted_by_both (count 1 refl refl) in
    let r2 : Reach nodes (at sender_seen receiver_seen 0 2 true) = next r1 (count 0 refl refl) in
    let r3 : Reach nodes (at sender_queued receiver_seen 0 2 true) =
      next r2 (link [] (receiver_seen ∷ []) sender_seen refl (release refl refl)) in
    let r4 : Reach nodes (at sender_told receiver_seen 0 2 true) = next r3 (
      link [] (receiver_seen ∷ []) sender_queued refl
        (to_node ncount_message [] from_sender refl refl)) in
    let r5 : Reach nodes (at sender_passed receiver_seen 0 2 true) =
      next r4 (link [] (receiver_seen ∷ []) sender_told refl (at_node from_sender [] refl)) in
    next r5 (link [] (receiver_seen ∷ []) sender_passed refl (start_after refl refl))

waiting_starts_last_example : All Ready (sender_started ∷ receiver_seen ∷ [])
waiting_starts_last_example =
    waiting_starts_last [] (receiver_seen ∷ []) sender_started sender_at_last refl refl refl

all_started-Reach_example :
    (s : Task) × Reach (true ∷ false ∷ []) s
    × All (λ (l : Link). l.started ≡ true) s.links
    × (map waits_of s.links ≡ true ∷ false ∷ [])
    × All (λ (l : Link). l.passed ≡ true) s.links
    × (s.cast ≡ true)
all_started-Reach_example = all_started-Reach true (false ∷ [])
