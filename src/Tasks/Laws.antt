-- ===== src/Tasks/Laws.antt =====
-- What the operations do to the entry of each name.
use ucl_tools.Base.{
  is_some, ℕ, ◌≡◌, refl, ap, ◌∙◌, ◌≢◌, Bool, true, false, not, ◌&&◌, ◌||◌, none, some, List, [],
  ◌∷◌, ◌++◌, append_assoc, arith, ltb, ◌==◌, if◌then◌else◌, Text, text_eq, text_eq_iff,
  text_eq_refl, join, length, length-append, All,
}
use ucl_tools.Tasks.{
  State, manage_compositors, lookup, remove, cancel, update_comm_task_ctx_map, delete_comm_task,
  cancel_all_of, cancel_all_comm_task_ctx_except_compositors, running_app_list,
  get_running_app_from_comm_task_ctx_map,
}

pub lookup-remove :
    (name k : Text) (tasks : List (Text × ℕ))
    → lookup k (remove name tasks) ≡ (if text_eq name k then none else lookup k tasks)
unfolding lookup remove
lookup-remove name k [] = ground arith
lookup-remove name k ((j, c) ∷ tasks) =
    ground
      (arith, lookup-remove name k tasks, text_eq_iff j name, text_eq_iff j k, text_eq_iff name k)

-- A name that is free and not empty is entered with a fresh context that is not cancelled, and no
-- other entry changes; any other name is refused and nothing changes.
pub update_comm_task_ctx_map_lem :
    (name : Text) (s : State)
    → let free = not (is_some (lookup name s.tasks)) && not (text_eq name []) in
      let (s', r) = update_comm_task_ctx_map name s in
      (r ≡ (if free then some s.next else none))
      × (free ≡ false → s' ≡ s)
      × (free ≡ true → s'.done s.next ≡ false)
      × ((k : Text)
          → lookup k s'.tasks ≡ (if free && text_eq name k then some s.next else lookup k s.tasks))
unfolding update_comm_task_ctx_map lookup
update_comm_task_ctx_map_lem name s = (ground arith, ground arith, ground arith, λ k. ground arith)

-- After a delete the name is free, every other name keeps its entry, and no context is cancelled; the
-- delete fails exactly when the name is empty or had no entry.
pub delete_comm_task_lem :
    (name : Text) (s : State)
    → let (s', ok) = delete_comm_task name s in
      (ok ≡ (is_some (lookup name s.tasks) && not (text_eq name [])))
      × (s'.done ≡ s.done)
      × ((k : Text) → lookup k s'.tasks ≡ (if ok && text_eq name k then none else lookup k s.tasks))
unfolding delete_comm_task
delete_comm_task_lem name s =
    (ground arith, ground arith, λ k. ground (arith, lookup-remove name k s.tasks))

-- The contexts that the loop cancels are those of the entries that are not the compositors'.
abbrev pub reaches : List (Text × ℕ) → ℕ → Bool
reaches [] c = false
reaches ((name, ctx) ∷ tasks) c =
    not (text_eq name manage_compositors) && c == ctx || reaches tasks c

cancel_all_of-done :
    (tasks : List (Text × ℕ)) (s : State) (c : ℕ)
    → (cancel_all_of tasks s).done c ≡ (reaches tasks c || s.done c)
unfolding cancel_all_of
cancel_all_of-done [] s c = refl
cancel_all_of-done ((name, ctx) ∷ tasks) s c =
    rw (cancel_all_of-done tasks (if text_eq name manage_compositors then s else cancel ctx s) c)
      (unfold cancel in ground arith)

cancel_all_of-tasks :
    (tasks : List (Text × ℕ)) (s : State) → (cancel_all_of tasks s).tasks ≡ s.tasks
unfolding cancel_all_of
cancel_all_of-tasks [] s = refl
cancel_all_of-tasks ((name, ctx) ∷ tasks) s =
    cancel_all_of-tasks tasks (if text_eq name manage_compositors then s else cancel ctx s)
    ∙ unfold cancel in ground arith

-- Stopping every application cancels exactly the contexts of the entries other than the
-- compositors', leaves the other contexts as they were, and keeps every entry of the table.
pub cancel_all_lem :
    (s : State)
    → let s' = cancel_all_comm_task_ctx_except_compositors s in
      (s'.tasks ≡ s.tasks) × ((c : ℕ) → s'.done c ≡ (reaches s.tasks c || s.done c))
unfolding cancel_all_comm_task_ctx_except_compositors
cancel_all_lem s = (cancel_all_of-tasks s.tasks s, cancel_all_of-done s.tasks s)

running_app_list-join :
    (apps name : Text) (names : List Text)
    → All (λ n. n ≢ []) (name ∷ names)
    → running_app_list (apps ++ name) names ≡ apps ++ join (b',' ∷ []) (name ∷ names)
unfolding running_app_list join
running_app_list-join apps name [] h = refl
running_app_list-join apps name (next ∷ names) h =
    rw comma
      (running_app_list-join ((apps ++ name) ++ b',' ∷ []) next names h.1 ∙ simp append_assoc)
  where
    positive : (a b : Text) → b ≢ [] → ltb 0 (length (a ++ b)) ≡ true
    positive a [] e = absurd (e refl)
    positive a (x ∷ b) e = ground (arith, length-append a (x ∷ b))

    comma : ltb 0 (length (apps ++ name)) ≡ true
    comma = positive apps name h.0

-- The list of running applications is their names with a comma between two, if no name is empty.
pub get_running_app_lem :
    (name : Text) (names : List Text)
    → All (λ n. n ≢ []) (name ∷ names)
    → get_running_app_from_comm_task_ctx_map (name ∷ names) ≡ some (join (b',' ∷ []) (name ∷ names))
unfolding get_running_app_from_comm_task_ctx_map
get_running_app_lem name names h = ap some (running_app_list-join [] name names h)

-- After a delete of a name that is not empty, the name has no entry.
pub delete_comm_task_free :
    (name : Text) (s : State)
    → text_eq name [] ≡ false
    → lookup name (delete_comm_task name s).0.tasks ≡ none
unfolding delete_comm_task
delete_comm_task_free name s h = ground (arith, lookup-remove name name s.tasks, text_eq_refl name)

-- A delete leaves the entries of the other names.
pub delete_comm_task_other :
    (name other : Text) (s : State)
    → text_eq other name ≡ false
    → lookup other (delete_comm_task name s).0.tasks ≡ lookup other s.tasks
unfolding delete_comm_task
delete_comm_task_other name other s h =
    ground
      (arith, lookup-remove name other s.tasks, text_eq_iff name other, text_eq_iff other name, h)
