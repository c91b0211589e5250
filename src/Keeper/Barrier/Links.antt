-- ===== src/Keeper/Barrier/Links.antt =====
-- What holds of each node at every moment.
use ucl_tools.Base.{
  ℕ, ◌+◌, ◌≤◌, ◌<◌, ◌≡◌, refl, ap, Bool, true, false, Option, none, some, List, [], ◌∷◌, ◌++◌,
  arith, if◌then◌else◌, text_eq,
}
use ucl_tools.Keeper.{Message, is_ncount, nkeep_message, ncount_message, take_from_node, forward}
use ucl_tools.Keeper.Barrier.{
  Link, fresh, agrees, LinkStep, start_now, start_after, send_count, at_node, answer_check,
  send_check, from_node, to_node, release,
}

-- The counting messages of a queue.
abbrev pub ncounts : List Message → ℕ
ncounts [] = 0
ncounts (m ∷ ms) = (if is_ncount m then 1 else 0) + ncounts ms

pub ncounts-concat :
    (ms : List Message) (m : Message)
    → ncounts (ms ++ m ∷ []) ≡ ncounts ms + (if is_ncount m then 1 else 0)
ncounts-concat [] m = omega arith
ncounts-concat (x ∷ ms) m = omega (arith, ncounts-concat ms m)

abbrev pub one_if {ℓ} : {A : Type ℓ} → Option A → ℕ
one_if none = 0
one_if (some _) = 1

pub record LinkInv (cast : Bool) (l : Link) : Type 0 where
  pub flow : ncounts l.up + one_if l.resp ≡ one_if l.sent
  pub early : l.waits ≡ false → one_if l.sent ≡ 1 → l.started ≡ true
  pub late : l.waits ≡ true → l.started ≡ true → l.passed ≡ true
  pub pass_cast : l.passed ≡ true → cast ≡ true
  pub queue_cast : 0 < ncounts l.to_send → cast ≡ true
  pub down_cast : 0 < ncounts l.down → cast ≡ true

pub fresh-LinkInv : (waits : Bool) → LinkInv false (fresh waits)
fresh-LinkInv waits = ground arith

-- What a message from the node brings: the message is counted once.
taken :
    (resp : Option Message) (m : Message) (n : ℕ)
    → (if is_ncount m then 1 else 0) + n + one_if resp ≤ 1
    → n + one_if (take_from_node resp m).0 ≡ (if is_ncount m then 1 else 0) + n + one_if resp
unfolding take_from_node
taken resp m n h = ground arith

forwarded :
    (resp : Option Message) (m w : Message)
    → forward resp m ≡ some w
    → is_ncount w ≡ true
    → is_ncount m ≡ true
unfolding forward
forwarded resp m w e h = ground arith

nkeep-is_ncount : is_ncount nkeep_message ≡ false
unfolding text_eq
nkeep-is_ncount = refl

agreed : (sent : Option Message) (m : Message) → agrees sent m ≡ true → is_ncount m ≡ true
agreed sent m h = ground arith

pub LinkStep-LinkInv :
    {cast : Bool} {l l' : Link} {n : ℕ} → LinkInv cast l → LinkStep cast l l' n → LinkInv cast l'
LinkStep-LinkInv i (start_now h) = ground arith
LinkStep-LinkInv i (start_after h k) = ground arith
LinkStep-LinkInv {l} i (send_count m h k c) = ground (arith, ncounts-concat l.up m)
LinkStep-LinkInv {l} i (at_node m rest e) = ground (arith, agreed l.sent m, ap ncounts e)
LinkStep-LinkInv {l} i (answer_check m h) = ground (arith, ncounts-concat l.up m)
LinkStep-LinkInv {l} i send_check =
    ground (arith, ncounts-concat l.to_send nkeep_message, nkeep-is_ncount)
LinkStep-LinkInv {l} i (from_node m rest e) =
    ground (arith, taken l.resp m (ncounts rest), ap ncounts e)
LinkStep-LinkInv {l} i (to_node m rest w e f) =
    ground (arith, ncounts-concat l.down w, forwarded l.resp m w, ap ncounts e)
LinkStep-LinkInv {l} i (release c r) = ground (arith, ncounts-concat l.to_send ncount_message)

-- What a step puts on `waitNCountChan` it has newly seen.
pub LinkStep-seen :
    {cast : Bool} {l l' : Link} {n : ℕ}
    → LinkInv cast l
    → LinkStep cast l l' n
    → one_if l'.resp ≡ one_if l.resp + n
LinkStep-seen {l} i (from_node m rest e) = unfold take_from_node in ground (arith, ap ncounts e)
LinkStep-seen i (start_now h) = omega arith
LinkStep-seen i _ = omega arith
