-- ===== src/Server/Invariant.antt =====
-- The invariant of the manager: the entries of `commTaskCtxMap` and their owners.
use ucl_tools.Base.{
  is_some, ℕ, ◌+◌, ◌<◌, ◌≡◌, refl, ap, ◌∙◌, Bool, true, false, ◌&&◌, none, some, List, [], ◌∷◌,
  ◌++◌, arith, ◌==◌, if◌then◌else◌, Text, text_eq, text_eq_iff, text_eq_refl,
}
use ucl_tools.Tasks
use ucl_tools.Tasks.{
  State, lookup, cancel_all_of, manage_compositors, cancel, update_comm_task_ctx_map,
  delete_comm_task, cancel_comm_task_ctx, cancel_all_comm_task_ctx_except_compositors,
}
use ucl_tools.Tasks.Laws.{lookup-remove, cancel_all_lem}
use ucl_tools.Server.System.{
  Worker, System, Step, enter, refuse, leave, cancel_ctx, stop, stop_all, Reach, start, next,
}

-- How many goroutines own the name with this context, and how many own the name.
abbrev pub owned : Text → ℕ → List Worker → ℕ
owned n c [] = 0
owned n c (w ∷ ws) = (if text_eq w.name n && w.ctx == c then 1 else 0) + owned n c ws

abbrev pub named : Text → List Worker → ℕ
named n [] = 0
named n (w ∷ ws) = (if text_eq w.name n then 1 else 0) + named n ws

-- The name has an entry with this context.
abbrev pub entry : Text → ℕ → State → Bool
entry n c s = elim (lookup n s.tasks) [ none ↦ false | some d ↦ d == c ]

pub record Inv (s : System) : Type 0 where
  pub owns : (n : Text) (c : ℕ) → owned n c s.workers ≡ (if entry n c s.state then 1 else 0)
  pub names : (n : Text) → named n s.workers ≡ (if is_some (lookup n s.state.tasks) then 1 else 0)
  pub fresh : (n : Text) (c : ℕ) → entry n c s.state ≡ true → c < s.state.next
  pub apart : (n m : Text) (c : ℕ) → entry n c s.state ≡ true → entry m c s.state ≡ true → n ≡ m
  pub no_empty : lookup [] s.state.tasks ≡ none

pub named-append :
    (n : Text) (before after : List Worker)
    → named n (before ++ after) ≡ named n before + named n after
named-append n [] after = omega arith
named-append n (v ∷ before) after = omega (arith, named-append n before after)

pub owned-middle :
    (n : Text) (c : ℕ) (before after : List Worker) (w : Worker)
    → owned n c (before ++ w ∷ after) ≡ owned n c (w ∷ []) + owned n c (before ++ after)
owned-middle n c [] after w = omega arith
owned-middle n c (v ∷ before) after w = omega (arith, owned-middle n c before after w)

pub named-middle :
    (n : Text) (before after : List Worker) (w : Worker)
    → named n (before ++ w ∷ after) ≡ named n (w ∷ []) + named n (before ++ after)
named-middle n [] after w = omega arith
named-middle n (v ∷ before) after w = omega (arith, named-middle n before after w)

start-Inv : Inv (record { state = Tasks.empty; workers = [] })
unfolding lookup
start-Inv = record {
  owns = λ n c. refl;
  names = λ n. refl;
  fresh = λ n c h. cc;
  apart = λ n m c h. cc;
  no_empty = refl;
}

enter-Inv :
    {s : System} (name : Text) {t : State} {ctx : ℕ}
    → Inv s
    → update_comm_task_ctx_map name s.state ≡ (t, some ctx)
    → Inv (record { state = t; workers = record { name = name; ctx = ctx } ∷ s.workers })
unfolding update_comm_task_ctx_map lookup
enter-Inv {s} name {t} {ctx} i e = record {
  owns = λ n c. ground (arith, i.owns n c, text_eq_iff name n);
  names = λ n. ground (arith, i.names n, text_eq_iff name n);
  fresh = λ n c h. ground (arith, i.fresh n c, text_eq_iff name n);
  apart = λ n m c h k.
      ground
        (arith, i.apart n m c, i.fresh n c, i.fresh m c, text_eq_iff name n, text_eq_iff name m);
  no_empty = ground (arith, i.no_empty);
}

leave-Inv :
    {s : System} (before after : List Worker) (w : Worker)
    → Inv s
    → s.workers ≡ before ++ w ∷ after
    → Inv (record { state = (delete_comm_task w.name s.state).0; workers = before ++ after })
unfolding delete_comm_task
leave-Inv {s} before after w i e = record {
  owns = λ n c. ground (
    arith,
    i.owns n c,
    i.owns w.name w.ctx,
    owned-middle n c before after w,
    owned-middle w.name w.ctx before after w,
    lookup-remove w.name n s.state.tasks,
    text_eq_iff w.name n,
    text_eq_refl w.name,
    text_eq_iff w.name [],
    i.no_empty,
    e,
  );
  names = λ n. ground (
    arith,
    i.names n,
    i.names w.name,
    named-middle n before after w,
    named-middle w.name before after w,
    lookup-remove w.name n s.state.tasks,
    text_eq_iff w.name n,
    text_eq_refl w.name,
    text_eq_iff w.name [],
    i.no_empty,
    e,
  );
  fresh = λ n c h. ground (arith, i.fresh n c, lookup-remove w.name n s.state.tasks);
  apart = λ n m c h k. ground (
    arith,
    i.apart n m c,
    lookup-remove w.name n s.state.tasks,
    lookup-remove w.name m s.state.tasks,
  );
  no_empty = ground (arith, i.no_empty, lookup-remove w.name [] s.state.tasks);
}

-- A step that changes only which contexts are cancelled.
keep-Inv :
    {s : System} (t : State)
    → Inv s
    → t.tasks ≡ s.state.tasks
    → t.next ≡ s.state.next
    → Inv (record { state = t; workers = s.workers })
keep-Inv t i e e' = record {
  owns = λ n c. rw e (i.owns n c);
  names = λ n. rw e (i.names n);
  fresh = λ n c h. rw e' (i.fresh n c (rw e at h));
  apart = λ n m c h k. i.apart n m c (rw e at h) (rw e at k);
  no_empty = rw e i.no_empty;
}

refuse-state : (name : Text) (s t : State) → update_comm_task_ctx_map name s ≡ (t, none) → t ≡ s
unfolding update_comm_task_ctx_map
refuse-state name s t e = ground arith

cancel_all-next : (tasks : List (Text × ℕ)) (s : State) → (cancel_all_of tasks s).next ≡ s.next
unfolding cancel_all_of cancel
cancel_all-next [] s = refl
cancel_all-next ((name, ctx) ∷ tasks) s =
    cancel_all-next tasks (if text_eq name manage_compositors then s else cancel ctx s)
    ∙ ground arith

Step-Inv : {s t : System} → Inv s → Step s t → Inv t
Step-Inv i (enter name e) = enter-Inv name i e
Step-Inv {s} i (refuse name {t} e) =
    let same = refuse-state name s.state t e in
    keep-Inv t i (ap (λ x. x.tasks) same) (ap (λ x. x.next) same)
Step-Inv i (leave before after w e) = leave-Inv before after w i e
Step-Inv {s} i (cancel_ctx ctx) =
    keep-Inv (cancel ctx s.state) i (unfold cancel in refl) (unfold cancel in refl)
Step-Inv {s} i (stop name) =
    keep-Inv (cancel_comm_task_ctx name s.state).0 i
      (unfold cancel_comm_task_ctx cancel in ground arith)
      (unfold cancel_comm_task_ctx cancel in ground arith)
Step-Inv {s} i stop_all =
    keep-Inv (cancel_all_comm_task_ctx_except_compositors s.state) i (cancel_all_lem s.state).0
      (unfold cancel_all_comm_task_ctx_except_compositors in cancel_all-next s.state.tasks s.state)

pub Reach-Inv : {s : System} → Reach s → Inv s
Reach-Inv start = start-Inv
Reach-Inv (next r st) = Step-Inv (Reach-Inv r) st
