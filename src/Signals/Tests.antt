-- ===== src/Signals/Tests.antt =====
-- Two children, of which the first does not end at SIGTERM.
use ucl_tools.Base.{concat, ◌++◌, ◌≡◌, refl, true, false, [], ◌∷◌, replicate}
use ucl_tools.Signals.{
  new_child, got, signal_handler, sigterm, sigkill, kill_when_alive, watch_dog_kill, start_kills,
  kill_all_children,
}
use ucl_tools.Signals.Killed.{dies, survives, kill_all_children_lem, signal_handler-once}

kill_all_children_lem_example :
    kill_all_children ((11, true ∷ true ∷ true ∷ []) ∷ (12, true ∷ false ∷ false ∷ []) ∷ [])
    ≡ ((11, sigterm) ∷ [], false)
unfolding replicate
kill_all_children_lem_example = kill_all_children_lem ((11, survives 3) ∷ (12, dies 1) ∷ [])

without_sync :
    start_kills ((11, true ∷ true ∷ []) ∷ (12, true ∷ false ∷ []) ∷ [])
    ≡ (11, sigterm ∷ sigkill ∷ []) ∷ (12, sigterm ∷ []) ∷ []
unfolding start_kills watch_dog_kill kill_when_alive
without_sync = refl

-- A child that is added behind the signal is still held.
signal_handler-once_example :
    concat (signal_handler (11 ∷ []) (new_child 12 ∷ got sigterm ∷ new_child 13 ∷ [])).0
      ++ (signal_handler (11 ∷ []) (new_child 12 ∷ got sigterm ∷ new_child 13 ∷ [])).1
    ≡ 11 ∷ 12 ∷ 13 ∷ []
signal_handler-once_example =
    signal_handler-once (11 ∷ []) (new_child 12 ∷ got sigterm ∷ new_child 13 ∷ [])
