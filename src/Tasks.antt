-- ===== src/Tasks.antt =====
-- The table of running tasks of cmd/ucl-lifecycle-manager/ucl_lifecycle_manager.go, and the contexts
-- of internal/ucl/common_settings.go. A context is named by a number; `done` says which contexts are
-- cancelled. Each function runs under the mutex of the table, so it is one step.
pub mod Laws
use ucl_tools.Base.{
  ℕ, ◌+◌, Bool, true, false, not, ◌||◌, is_some, Option, none, some, List, [], ◌∷◌, ◌++◌, ltb, ◌==◌,
  if◌then◌else◌, Text, text, text_eq, length,
}

-- `commTaskCtxMap`, the next context to be made, and the cancelled contexts.
pub record State : Type 0 where
  pub tasks : List (Text × ℕ)
  pub next : ℕ
  pub done : ℕ → Bool

abbrev pub manage_compositors : Text
manage_compositors = text "manageCompositors"

unfoldable pub lookup : Text → List (Text × ℕ) → Option ℕ
lookup name [] = none
lookup name ((k, c) ∷ tasks) = if text_eq k name then some c else lookup name tasks

-- `delete(m, name)`.
unfoldable pub remove : Text → List (Text × ℕ) → List (Text × ℕ)
remove name [] = []
remove name ((k, c) ∷ tasks) =
    let rest = remove name tasks in if text_eq k name then rest else (k, c) ∷ rest

-- `NewCommTaskCtx`.
unfoldable pub new_comm_task_ctx : State → State × ℕ
new_comm_task_ctx s =
    (record s { next = s.next + 1; done = λ c. if c == s.next then false else s.done c }, s.next)

-- `commTaskCtx.Cancel()`.
unfoldable pub cancel : ℕ → State → State
cancel ctx s = record s { done = λ c. if c == ctx then true else s.done c }

-- `updateCommTaskCtxMap`; `none` is its error.
unfoldable pub update_comm_task_ctx_map : Text → State → State × Option ℕ
unfolding new_comm_task_ctx
update_comm_task_ctx_map name s =
    if is_some (lookup name s.tasks) || text_eq name []
    then (s, none)
    else let (s', ctx) = new_comm_task_ctx s in
      (record s' { tasks = (name, ctx) ∷ s'.tasks }, some ctx)

-- `deleteCommTask`, and whether it returned no error.
unfoldable pub delete_comm_task : Text → State → State × Bool
delete_comm_task name s =
    if not (is_some (lookup name s.tasks)) || text_eq name []
    then (s, false)
    else (record s { tasks = remove name s.tasks }, true)

-- `cancelCommTaskCtx`, and whether it returned no error.
unfoldable pub cancel_comm_task_ctx : Text → State → State × Bool
cancel_comm_task_ctx name s = elim (lookup name s.tasks) [
  | none ↦ (s, false)
  | some ctx ↦ (cancel ctx s, true)
]

-- The loop of `CancelAllCommTaskCtxExceptCompositors`, over the entries of the table.
unfoldable pub cancel_all_of : List (Text × ℕ) → State → State
unfolding cancel
cancel_all_of [] s = s
cancel_all_of ((name, ctx) ∷ tasks) s =
    cancel_all_of tasks (if text_eq name manage_compositors then s else cancel ctx s)

unfoldable pub cancel_all_comm_task_ctx_except_compositors : State → State
cancel_all_comm_task_ctx_except_compositors s = cancel_all_of s.tasks s

-- `isExistsCommTaskCtx`.
unfoldable pub is_exists_comm_task_ctx : Text → State → Bool
is_exists_comm_task_ctx name s = is_some (lookup name s.tasks)

-- The loop of `getRunningAppFromCommTaskCtxMap`, over the names in the order in which the iteration
-- of the map finds them, which Go leaves open.
unfoldable pub running_app_list : Text → List Text → Text
running_app_list apps [] = apps
running_app_list apps (name ∷ names) =
    running_app_list ((if ltb 0 (length apps) then apps ++ b',' ∷ [] else apps) ++ name) names

-- `getRunningAppFromCommTaskCtxMap`; `none` is a nil slice. A name is never empty.
unfoldable pub get_running_app_from_comm_task_ctx_map : List Text → Option Text
unfolding running_app_list
get_running_app_from_comm_task_ctx_map [] = none
get_running_app_from_comm_task_ctx_map (name ∷ names) = some (running_app_list [] (name ∷ names))

abbrev pub empty : State
empty = record { tasks = []; next = 0; done = λ _. false }
