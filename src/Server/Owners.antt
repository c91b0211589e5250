-- ===== src/Server/Owners.antt =====
-- The goroutines of the manager that own an entry of `commTaskCtxMap`.
use ucl_tools.Base.{
  ℕ, ◌≤◌, ◌<◌, ◌≡◌, refl, ◌≢◌, true, false, none, some, List, [], ◌∷◌, ◌++◌, arith, if◌then◌else◌,
  Text, text_eq, text_eq_iff, text_eq_refl, All,
}
use ucl_tools.Tasks.{
  lookup, cancel, delete_comm_task, cancel_comm_task_ctx, is_exists_comm_task_ctx,
}
use ucl_tools.Tasks.Laws.{delete_comm_task_free, delete_comm_task_other}
use ucl_tools.Server.System.{Worker, System, Reach}
use ucl_tools.Server.Invariant.{
  Inv, owned, named, named-append, owned-middle, named-middle, Reach-Inv,
}

-- However requests, dispatches and cancellations interleave, no two live handlers or dispatches have
-- the same application name.
pub one_owner :
    {s : System} (before mid after : List Worker) (v w : Worker)
    → Reach s
    → s.workers ≡ before ++ v ∷ (mid ++ w ∷ after)
    → v.name ≢ w.name
one_owner {s} before mid after v w r e same =
    let i = Reach-Inv r in
    absurd (
      ground (
        arith,
        i.names v.name,
        named-middle v.name before (mid ++ w ∷ after) v,
        named-append v.name before (mid ++ w ∷ after),
        named-middle v.name mid after w,
        text_eq_refl v.name,
        text_eq_iff w.name v.name,
        e,
      ))

-- An application is reported as running exactly when one handler or dispatch owns its name.
pub status-owner :
    {s : System} (name : Text)
    → Reach s
    → named name s.workers ≡ (if is_exists_comm_task_ctx name s.state then 1 else 0)
unfolding is_exists_comm_task_ctx
status-owner name r = (Reach-Inv r).names name

owner_lookup :
    {s : System} (before after : List Worker) (w : Worker)
    → Inv s
    → s.workers ≡ before ++ w ∷ after
    → lookup w.name s.state.tasks ≡ some w.ctx
owner_lookup {s} before after w i e =
    ground
      (arith, i.owns w.name w.ctx, owned-middle w.name w.ctx before after w, text_eq_refl w.name, e)

-- Two owners have two contexts.
owner_apart :
    {s : System} (before after : List Worker) (v w : Worker)
    → Inv s
    → s.workers ≡ before ++ w ∷ after
    → 0 < owned v.name v.ctx (before ++ after)
    → v.ctx ≢ w.ctx
owner_apart {s} before after v w i e h same =
    let hw = owner_lookup before after w i e in
    absurd (
      ground (
        arith,
        hw,
        i.owns v.name v.ctx,
        i.apart v.name w.name w.ctx,
        owned-middle v.name v.ctx before after w,
        text_eq_iff w.name v.name,
        e,
      ))

module _ (P : Worker → Type 0) (all : List Worker)
    (p : (v : Worker) → 0 < owned v.name v.ctx all → P v) where
  owned-All : (vs : List Worker) → ((n : Text) (c : ℕ) → owned n c vs ≤ owned n c all) → All P vs
  owned-All [] h = tt
  owned-All (v ∷ vs) h = (
    p v (ground (arith, h v.name v.ctx, text_eq_refl v.name)),
    owned-All vs (λ n c. omega (arith, h n c)),
  )

-- The entry of a live owner is its own: the table holds its context under its name; its deferred
-- delete returns no error, leaves no entry of its name, and leaves what every other name has; and an application that was stopped by name has the
-- owner's context cancelled and the context of no other owner.
pub owner_entry :
    {s : System} (before after : List Worker) (w : Worker)
    → Reach s
    → s.workers ≡ before ++ w ∷ after
    → (lookup w.name s.state.tasks ≡ some w.ctx)
      × ((delete_comm_task w.name s.state).1 ≡ true)
      × (lookup w.name (delete_comm_task w.name s.state).0.tasks ≡ none)
      × ((other : Text)
          → text_eq other w.name ≡ false
          → lookup other (delete_comm_task w.name s.state).0.tasks ≡ lookup other s.state.tasks)
      × ((cancel_comm_task_ctx w.name s.state).0.done w.ctx ≡ true)
      × All
          (λ v. (cancel_comm_task_ctx w.name s.state).0.done v.ctx ≡ s.state.done v.ctx)
          (before ++ after)
unfolding delete_comm_task cancel_comm_task_ctx cancel
owner_entry {s} before after w r e =
    let i = Reach-Inv r in
    let own = owner_lookup before after w i e in
    let some_name : text_eq w.name [] ≡ false =
      ground (arith, own, i.no_empty, text_eq_iff w.name []) in
    (
      own,
      rw (own, some_name) refl,
      delete_comm_task_free w.name s.state some_name,
      λ other apart. delete_comm_task_other w.name other s.state apart,
      ground (arith, own),
      owned-All _ (before ++ after) (λ v h. ground (arith, own, owner_apart before after v w i e h))
          (before ++ after) (λ n c. omega arith),
    )
