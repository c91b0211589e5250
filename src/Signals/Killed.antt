-- ===== src/Signals/Killed.antt =====
-- Which children get which signals.
use ucl_tools.Base.{
  ℕ, zero, suc, ◌≡◌, refl, sym, ap, ◌∙◌, inl, inr, Bool, true, false, none, some, List, [], ◌∷◌,
  ◌++◌, append-nil, append_assoc, Bool-cases, concat, replicate,
}
use ucl_tools.Signals.{
  Signal, sigterm, until_dead, kill_when_alive, kill_again, watch_dog_kill, and_then,
  kill_all_children, SignalEvent, new_child, got, is_stop, signal_handler,
}

-- How long a process lives: it answers `n` probes and is gone, or it has answered `n` and lives on.
pub data Life : Type 0 where
  dies survives : ℕ → Life

abbrev pub answers_of : Life → List Bool
answers_of (dies n) = replicate n true ++ (false ∷ false ∷ [])
answers_of (survives n) = replicate n true

abbrev pub all_answers : List (ℕ × Life) → List (ℕ × List Bool)
all_answers [] = []
all_answers ((pid, life) ∷ children) = (pid, answers_of life) ∷ all_answers children

-- SIGTERM for each child that is alive when it is its turn, up to the first that lives on.
abbrev pub terminated : List (ℕ × Life) → List (ℕ × Signal) × Bool
terminated [] = ([], true)
terminated ((pid, dies zero) ∷ children) = terminated children
terminated ((pid, dies (suc n)) ∷ children) =
    let (sent, done) = terminated children in ((pid, sigterm) ∷ sent, done)
terminated ((pid, survives zero) ∷ children) = ([], false)
terminated ((pid, survives (suc n)) ∷ children) = ((pid, sigterm) ∷ [], false)

until_dead-dies :
    (n : ℕ) → until_dead (replicate n true ++ (false ∷ false ∷ [])) ≡ some (false ∷ [])
unfolding until_dead replicate
until_dead-dies zero = refl
until_dead-dies (suc n) = until_dead-dies n

until_dead-survives : (n : ℕ) → until_dead (replicate n true) ≡ none
unfolding until_dead replicate
until_dead-survives zero = refl
until_dead-survives (suc n) = until_dead-survives n

watch_dog_kill-gone : watch_dog_kill true (replicate 0 true ++ (false ∷ false ∷ [])) ≡ ([], some [])
unfolding watch_dog_kill kill_when_alive replicate
watch_dog_kill-gone = refl

watch_dog_kill-unasked : watch_dog_kill true (replicate 0 true) ≡ ([], none)
unfolding watch_dog_kill kill_when_alive replicate
watch_dog_kill-unasked = refl

watch_dog_kill-dies :
    (n : ℕ)
    → watch_dog_kill true (replicate (suc n) true ++ (false ∷ false ∷ [])) ≡ (sigterm ∷ [], some [])
unfolding watch_dog_kill kill_when_alive replicate
watch_dog_kill-dies n = ap (kill_again true (sigterm ∷ [])) (until_dead-dies n)

watch_dog_kill-survives :
    (n : ℕ) → watch_dog_kill true (replicate (suc n) true) ≡ (sigterm ∷ [], none)
unfolding watch_dog_kill kill_when_alive replicate
watch_dog_kill-survives n = ap (kill_again true (sigterm ∷ [])) (until_dead-survives n)

-- With `sync`, and with children that stay gone once they are, `killAllChildren` sends SIGTERM to the
-- children that are alive when it is their turn, in the order in which they were added, and to no child
-- anything else: SIGKILL is never sent. It comes to its end if every child dies; at the first that lives on
-- it stays, and the children behind it get nothing.
pub kill_all_children_lem :
    (children : List (ℕ × Life)) → kill_all_children (all_answers children) ≡ terminated children
unfolding kill_all_children
kill_all_children_lem [] = refl
kill_all_children_lem ((pid, dies zero) ∷ children) =
    let next = kill_all_children (all_answers children) in
    ap (λ w. and_then pid w next) watch_dog_kill-gone ∙ kill_all_children_lem children
kill_all_children_lem ((pid, dies (suc n)) ∷ children) =
    let next = kill_all_children (all_answers children) in
    ap (λ w. and_then pid w next) (watch_dog_kill-dies n)
    ∙ ap (and_then pid (sigterm ∷ [], some [])) (kill_all_children_lem children)
kill_all_children_lem ((pid, survives zero) ∷ children) =
    ap (λ w. and_then pid w (kill_all_children (all_answers children))) watch_dog_kill-unasked
kill_all_children_lem ((pid, survives (suc n)) ∷ children) =
    ap (λ w. and_then pid w (kill_all_children (all_answers children))) (watch_dog_kill-survives n)

abbrev pub added : List SignalEvent → List ℕ
added [] = []
added (new_child pid ∷ events) = pid ∷ added events
added (got s ∷ events) = added events

-- However children are added and signals come, the children that the handler has given to
-- `killAllChildren` and those that it still holds are, one after the other, the children that were added:
-- none is lost, none is given to it twice, and the order is kept.
pub signal_handler-once :
    (children : List ℕ) (events : List SignalEvent)
    → concat (signal_handler children events).0 ++ (signal_handler children events).1
      ≡ children ++ added events
unfolding signal_handler
signal_handler-once children [] = sym (append-nil children)
signal_handler-once children (new_child pid ∷ events) =
    signal_handler-once (children ++ pid ∷ []) events
    ∙ append_assoc children (pid ∷ []) (added events)
signal_handler-once children (got s ∷ events) = elim (Bool-cases (is_stop s)) [
  | inl e ↦ rw e (
      append_assoc children (concat (signal_handler [] events).0) (signal_handler [] events).1
      ∙ ap (λ rest. children ++ rest) (signal_handler-once [] events))
  | inr e ↦ rw e (signal_handler-once children events)
]
