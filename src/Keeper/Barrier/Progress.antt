-- ===== src/Keeper/Barrier/Progress.antt =====
-- The start of a task can always come to its end: a run of the system in which every process is started.
use ucl_tools.Base.{
  text, ℕ, zero, suc, ◌+◌, ◌≡◌, refl, sym, ap, subst, inl, inr, Bool, true, false, not, some, List,
  [], ◌∷◌, ◌++◌, append_assoc, map, arith, leb, text_eq, length, All,
}
use ucl_tools.Keeper.{Message, ncount_message, forward, take_from_node}
use ucl_tools.Keeper.Barrier.{
  Link, fresh, LinkStep, start_now, start_after, send_count, at_node, from_node, to_node, release,
  Task, link, count, Reach, start, next,
}

abbrev task : ℕ → List Link → ℕ → ℕ → Bool → Task
task num_worker links tokens connected cast = record {
  num_worker = num_worker;
  links = links;
  tokens = tokens;
  connected = connected;
  cast = cast;
}

-- Steps of one node, with the number of tokens that they make.
data Chain (cast : Bool) (l : Link) : Link → ℕ → Type 0 where
  here : Chain cast l l 0
  then_step :
      {l' l'' : Link} {n m : ℕ}
      → Chain cast l l' n
      → LinkStep cast l' l'' m
      → Chain cast l l'' (n + m)

-- The node while it has sent its count, and while it has its answer.
abbrev own : Message
own = record { comm_type = text "ncount"; comm_data = text "1" }

abbrev has_counted : Bool → Link
has_counted waits = record (fresh waits) { started = not waits; sent = some own; resp = some own }

abbrev has_started : Bool → Link
has_started waits = record (has_counted waits) { started = true; released = true; passed = true }

counts : (cast : Bool) (waits : Bool) → Chain cast (fresh waits) (has_counted waits) 1
unfolding text_eq take_from_node
counts cast true =
    then_step (then_step here (send_count own (inl refl) refl refl)) (from_node own [] refl)
counts cast false =
    then_step (then_step (then_step here (start_now refl)) (send_count own (inr refl) refl refl))
      (from_node own [] refl)

passes : (waits : Bool) → Chain true (has_counted waits) (has_started waits) 0
unfolding text_eq forward
passes true =
    then_step
      (then_step
        (then_step (then_step here (release refl refl)) (to_node ncount_message [] own refl refl))
        (at_node own [] refl))
      (start_after refl refl)
passes false =
    then_step
      (then_step (then_step here (release refl refl)) (to_node ncount_message [] own refl refl))
      (at_node own [] refl)

-- So many tokens for each node.
abbrev tokens_of : ℕ → List Bool → ℕ
tokens_of k [] = 0
tokens_of k (w ∷ ws) = k + tokens_of k ws

module _ (waits : List Bool) (num_worker connected : ℕ) (cast : Bool) where
  chain-Reach :
      (before after : List Link) (l : Link) (tokens : ℕ)
      → Reach waits (task num_worker (before ++ l ∷ after) tokens connected cast)
      → {l' : Link} {n : ℕ} → Chain cast l l' n
      → Reach waits (task num_worker (before ++ l' ∷ after) (tokens + n) connected cast)
  chain-Reach before after l tokens r here =
      subst (λ t. Reach waits (task num_worker (before ++ l ∷ after) t connected cast))
        (omega arith) r
  chain-Reach before after l tokens r (then_step {l'} {l''} {n} {m} c s) =
      subst (λ t. Reach waits (task num_worker (before ++ l'' ∷ after) t connected cast))
        (omega arith) (next (chain-Reach before after l tokens r c) (link before after l' refl s))

  -- Each node in turn takes the same steps.
  phase-Reach :
      (a b : Bool → Link) (k : ℕ)
      → ((w : Bool) → Chain cast (a w) (b w) k)
      → (before : List Link) (todo : List Bool) (tokens : ℕ)
      → Reach waits (task num_worker (before ++ map a todo) tokens connected cast)
      → Reach waits
          (task num_worker (before ++ map b todo) (tokens + tokens_of k todo) connected cast)
  phase-Reach a b k c before [] tokens r =
      subst (λ t. Reach waits (task num_worker (before ++ []) t connected cast)) (omega arith) r
  phase-Reach a b k c before (w ∷ todo) tokens r =
      let once = chain-Reach before (map a todo) (a w) tokens r (c w) in
      let moved =
        subst (λ ls. Reach waits (task num_worker ls (tokens + k) connected cast))
          (sym (append_assoc before (b w ∷ []) (map a todo))) once in
      let rest = phase-Reach a b k c (before ++ b w ∷ []) todo (tokens + k) moved in
      subst (λ t. Reach waits (task num_worker (before ++ b w ∷ map b todo) t connected cast))
        (omega arith)
        (subst
          (λ ls. Reach waits (task num_worker ls (tokens + k + tokens_of k todo) connected cast))
          (append_assoc before (b w ∷ []) (map b todo)) rest)

-- `NcountMaster` takes its tokens, one for each node.
master-Reach :
    (waits : List Bool) (num_worker : ℕ) (ls : List Link) (t connected : ℕ)
    → suc t + connected ≡ num_worker
    → Reach waits (task num_worker ls (suc t) connected false)
    → Reach waits (task num_worker ls 0 num_worker true)
master-Reach waits num_worker ls zero connected e r =
    let full : leb num_worker (connected + 1) ≡ true = ground arith in
    let all : connected + 1 ≡ num_worker = omega arith in
    subst (λ c. Reach waits (task num_worker ls 0 c true)) all
      (subst (λ b. Reach waits (task num_worker ls 0 (connected + 1) b)) full
        (next r (count 0 refl refl)))
master-Reach waits num_worker ls (suc t) connected e r =
    let more : leb num_worker (connected + 1) ≡ false = ground arith in
    master-Reach waits num_worker ls t (connected + 1) (omega arith) (
      subst (λ b. Reach waits (task num_worker ls (suc t) (connected + 1) b)) more
        (next r (count (suc t) refl refl)))

tokens_of-one : (ws : List Bool) → tokens_of 1 ws ≡ length ws
tokens_of-one [] = refl
tokens_of-one (w ∷ ws) = omega (arith, tokens_of-one ws)

all_tokens : (w : Bool) (ws : List Bool) → 0 + tokens_of 1 (w ∷ ws) ≡ suc (length ws)
all_tokens w ws = omega (arith, tokens_of-one ws)

all_started : (ws : List Bool) → All (λ (l : Link). l.started ≡ true) (map has_started ws)
all_started [] = tt
all_started (w ∷ ws) = (refl, all_started ws)

all_passed : (ws : List Bool) → All (λ (l : Link). l.passed ≡ true) (map has_started ws)
all_passed [] = tt
all_passed (w ∷ ws) = (refl, all_passed ws)

abbrev pub waits_of : Link → Bool
waits_of l = l.waits

waits_kept : (ws : List Bool) → map waits_of (map has_started ws) ≡ ws
waits_kept [] = refl
waits_kept (w ∷ ws) = ap (λ x. w ∷ x) (waits_kept ws)

-- On any nodes, at least one, whichever of them wait for the others, the task can be started: there is a
-- run of the nodes, the connections and the manager after which every process is started, also those that
-- wait, each node's own count has come back to it, and the manager has let them go on.
pub all_started-Reach :
    (w : Bool) (ws : List Bool)
    → (s : Task) × Reach (w ∷ ws) s
      × All (λ (l : Link). l.started ≡ true) s.links
      × (map waits_of s.links ≡ w ∷ ws)
      × All (λ (l : Link). l.passed ≡ true) s.links
      × (s.cast ≡ true)
all_started-Reach w ws =
    let waits = w ∷ ws in
    let n = length waits in
    let counted = phase-Reach waits n 0 false fresh has_counted 1 (counts false) [] waits 0 start in
    let ready : Reach waits (task n (map has_counted waits) (suc (length ws)) 0 false) =
      subst (λ t. Reach waits (task n (map has_counted waits) t 0 false)) (all_tokens w ws)
        counted in
    let let_go = master-Reach waits n (map has_counted waits) (length ws) 0 (omega arith) ready in
    (
      _,
      phase-Reach waits n n true has_counted has_started 0 passes [] waits 0 let_go,
      all_started waits,
      waits_kept waits,
      all_passed waits,
      refl,
    )
