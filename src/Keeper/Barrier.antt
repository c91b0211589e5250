-- ===== src/Keeper/Barrier.antt =====
-- The start of a task on all its nodes, as one system: `NcountMaster`, and for each node its
-- `TimingWrapper` and the two connection loops between them. A queue holds what is on its way; that a
-- full channel blocks its writer takes steps away and adds none.
pub mod Links
pub mod Order
pub mod Progress
use ucl_tools.Base.{
  ℕ, suc, ◌+◌, ◌≡◌, ◌⊎◌, Bool, true, false, ◌&&◌, ◌||◌, Option, none, some, List, [], ◌∷◌, ◌++◌,
  map, if◌then◌else◌, length,
}
use ucl_tools.Keeper.{
  Message, is_ncount, message_eq, nkeep_message, ncount_message, count_one, take_from_node, forward,
}

-- One node of the task. `sent` is the message of its `ncountWorker`, `up` what is on its way to the
-- manager, `resp` is `respNCountMsg`, `to_send` is `sendNodeChan`, `down` what is on its way to the
-- node, `passed` says that `ncountWorker` returned no error.
pub record Link : Type 0 where
  pub waits : Bool
  pub started : Bool
  pub sent : Option Message
  pub up : List Message
  pub resp : Option Message
  pub released : Bool
  pub to_send : List Message
  pub down : List Message
  pub passed : Bool

abbrev pub fresh : Bool → Link
fresh waits = record {
  waits = waits;
  started = false;
  sent = none;
  up = [];
  resp = none;
  released = false;
  to_send = [];
  down = [];
  passed = false;
}

-- `ncountWorker` compares a message with its own.
abbrev pub agrees : Option Message → Message → Bool
agrees none m = false
agrees (some s) m = is_ncount m && message_eq m s

-- A step that concerns one node, where `cast` says that `NcountMaster` has left its loop; the number is
-- what it puts on `waitNCountChan`.
pub data LinkStep (cast : Bool) (l : Link) : Link → ℕ → Type 0 where
  -- `TimingWrapper`: the start of a process that does not wait, and of one that does.
  start_now : l.waits ≡ false → LinkStep cast l (record l { started = true }) 0
  start_after : l.waits ≡ true → l.passed ≡ true → LinkStep cast l (record l { started = true }) 0
  -- `ncountWorker`: its message, and the answer to it.
  send_count :
      (m : Message)
      → (l.waits ≡ true) ⊎ (l.started ≡ true)
      → l.sent ≡ none
      → is_ncount m ≡ true
      → LinkStep cast l (record l { sent = some m; up = l.up ++ m ∷ [] }) 0
  at_node :
      (m : Message) (rest : List Message)
      → l.down ≡ m ∷ rest
      → LinkStep cast l (record l { down = rest; passed = l.passed || agrees l.sent m }) 0
  -- `NkeepWorker` and `NkeepMaster`.
  answer_check :
      (m : Message) → is_ncount m ≡ false → LinkStep cast l (record l { up = l.up ++ m ∷ [] }) 0
  send_check : LinkStep cast l (record l { to_send = l.to_send ++ nkeep_message ∷ [] }) 0
  -- `handleNodeConnection`: a message from the node, and one to it.
  from_node :
      (m : Message) (rest : List Message)
      → l.up ≡ m ∷ rest
      → LinkStep cast l
          (record l { up = rest; resp = (take_from_node l.resp m).0 })
          (if is_ncount m then 1 else 0)
  to_node :
      (m : Message) (rest : List Message) (w : Message)
      → l.to_send ≡ m ∷ rest
      → forward l.resp m ≡ some w
      → LinkStep cast l (record l { to_send = rest; down = l.down ++ w ∷ [] }) 0
  -- `NcountMaster` behind its loop.
  release :
      cast ≡ true
      → l.released ≡ false
      → LinkStep cast l (record l { released = true; to_send = l.to_send ++ ncount_message ∷ [] }) 0

pub record Task : Type 0 where
  pub num_worker : ℕ
  pub links : List Link
  pub tokens : ℕ
  pub connected : ℕ
  pub cast : Bool

pub data Step (s : Task) : Task → Type 0 where
  link :
      (before after : List Link) (l : Link) {l' : Link} {n : ℕ}
      → s.links ≡ before ++ l ∷ after
      → LinkStep s.cast l l' n
      → Step s (record s { links = before ++ l' ∷ after; tokens = s.tokens + n })
  -- `case <-waitNCountChan`.
  count :
      (t : ℕ)
      → s.tokens ≡ suc t
      → s.cast ≡ false
      → Step s (record s {
        tokens = t;
        connected = (count_one s.num_worker s.connected).0;
        cast = (count_one s.num_worker s.connected).1;
      })

-- The states of a task on nodes of which `waits` says which wait for the others.
pub data Reach (waits : List Bool) : Task → Type 0 where
  start : Reach waits (record {
    num_worker = length waits;
    links = map fresh waits;
    tokens = 0;
    connected = 0;
    cast = false;
  })
  next : {s t : Task} → Reach waits s → Step s t → Reach waits t
