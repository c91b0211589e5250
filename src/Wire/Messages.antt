-- ===== src/Wire/Messages.antt =====
-- Messages with their size in front: `ConnReadWithSize`, `ConnWriteWithSize` and `ConnReadLoop`.
use ucl_tools.Base.{
  ℕ, zero, suc, ◌+◌, ◌-◌, ◌%◌, ◌^◌, ◌≤◌, ◌<◌, ◌≡◌, refl, ap, ◌∙◌, ◌⊎◌, inl, inr, Bool, true, false,
  none, some, List, [], ◌∷◌, ◌++◌, map, append_assoc, arith, Text, length, length-append, All, take,
  concat, length-take,
}
use ucl_tools.Wire.Bytes.{uint32-put_uint32, length-put_uint32}
use ucl_tools.Wire.Segments.{Flowing, Gives, conn_read-Gives, conn_read_short}
use ucl_tools.Wire.{
  Result, ok, err, Fault, disconnected, size_read_fail, then_write, too_huge, conn_read, max_size,
  put_uint32, uint32, read_sized, conn_read_with_size, conn_read_loop, Writer, conn_write,
  conn_write_with_size,
}

-- What a writer sends for a message.
abbrev pub frame : Text → Text
frame message = put_uint32 (length message) ++ message

-- The sizes that the reader takes.
abbrev pub Sendable : Text → Type 0
Sendable message = (0 < length message) × (length message ≤ max_size)

pub Gives_lem :
    (r : Result (Text × List Text)) {bytes rest : Text}
    → Gives r bytes rest
    → (left : List Text) × (r ≡ ok (bytes, left)) × (concat left ≡ rest) × Flowing left
Gives_lem (ok (bytes, left)) (e, c, f) = (left, cc, c, f)
Gives_lem (err _) g = absurd g

pub Result-cases {ℓ} :
    {A : Type ℓ} (r : Result A) → ((a : A) × (r ≡ ok a)) ⊎ ((f : Fault) × (r ≡ err f))
Result-cases (ok a) = inl (a, refl)
Result-cases (err f) = inr (f, refl)

-- The first four bytes of a connection are read as a size.
pub read_head :
    (segments : List Text) (n : ℕ) (rest : Text)
    → Flowing segments
    → concat segments ≡ put_uint32 n ++ rest
    → (left : List Text) × (conn_read segments 4 [] ≡ ok (put_uint32 n, left))
      × (concat left ≡ rest)
      × Flowing left
read_head segments n rest f e =
    Gives_lem (conn_read segments 4 [])
      (rw length-put_uint32 at (conn_read-Gives segments (put_uint32 n) rest [] f e))

-- A message of a size that the reader takes is read back, whatever follows it.
pub conn_read_with_size-Gives :
    (segments : List Text) (message rest : Text)
    → Flowing segments
    → Sendable message
    → concat segments ≡ frame message ++ rest
    → (left : List Text) × (conn_read_with_size segments ≡ ok (message, left))
      × (concat left ≡ rest)
      × Flowing left
unfolding conn_read_with_size
conn_read_with_size-Gives segments message rest f h e =
    let (after, head, c, f') =
      read_head segments (length message) (message ++ rest) f
        (e ∙ append_assoc (put_uint32 (length message)) message rest) in
    let (left, body, c', f'') =
      Gives_lem (conn_read after (length message) [])
        (conn_read-Gives after message rest [] f' c) in
    (
      left,
      rw (head, uint32-put_uint32 (length message) (omega arith)) (ground (arith, body)),
      c',
      f'',
    )

-- A message over the reader's limit is refused on its size.
pub conn_read_with_size_huge :
    (segments : List Text) (message rest : Text)
    → Flowing segments
    → max_size < length message
    → length message < 2 ^ 32
    → concat segments ≡ frame message ++ rest
    → conn_read_with_size segments ≡ err too_huge
unfolding conn_read_with_size
conn_read_with_size_huge segments message rest f h lt e =
    let (after, head, c, f') =
      read_head segments (length message) (message ++ rest) f
        (e ∙ append_assoc (put_uint32 (length message)) message rest) in
    rw (head, uint32-put_uint32 (length message) lt) (ground arith)

-- A closed connection has no size to read.
pub conn_read_with_size_closed :
    (segments : List Text)
    → Flowing segments
    → concat segments ≡ []
    → conn_read_with_size segments ≡ err (size_read_fail disconnected)
unfolding conn_read_with_size
conn_read_with_size_closed segments f e =
    rw (conn_read_short segments 4 [] f (omega (arith, ap length e)))

conn_read-length :
    (segments : List Text) (need : ℕ) (buf : Text) (r : Text × List Text)
    → conn_read segments need buf ≡ ok r
    → length r.0 ≡ length buf + need
unfolding conn_read
conn_read-length segments zero buf r h = ground arith
conn_read-length [] (suc need) buf r h = cc
conn_read-length ([] ∷ segments) (suc need) buf r h = cc
conn_read-length ((c ∷ s) ∷ segments) (suc need) buf r h = ground (
  arith,
  conn_read-length segments (need - length s) (buf ++ (c ∷ s)) r,
  length-append buf (c ∷ s),
  length-append buf (take (suc need) (c ∷ s)),
  length-take need s,
)

-- Whatever the bytes of the connection, a message that `ConnReadWithSize` returns without an error has from 1
-- to `max_size` bytes.
pub conn_read_with_size-Sendable :
    (segments : List Text) {r : Text × List Text}
    → conn_read_with_size segments ≡ ok r
    → Sendable r.0
unfolding conn_read_with_size
conn_read_with_size-Sendable segments {r} h = elim (Result-cases (conn_read segments 4 [])) [
  | inl (head, e) ↦ sized (uint32 head.0) head.1 (rw (e) at h)
  | inr (f, e) ↦ absurd (ground (arith, e))
]
  where
    sized : (n : ℕ) (left : List Text) → read_sized n left ≡ ok r → Sendable r.0
    sized n left h' = ground (arith, conn_read-length left n [] r)

pub conn_write_lem :
    (w : Writer) (m : Text)
    → (conn_write w m).1 ≡ true
    → (0 < length m) × ((conn_write w m).0.sent ≡ w.sent ++ m)
unfolding conn_write
conn_write_lem w m h = ground arith

-- A sequence of two writes succeeds when both do.
pub then_write_inv :
    (r : Writer × Bool) (next : Writer → Writer × Bool)
    → (then_write r next).1 ≡ true
    → (r.1 ≡ true) × ((next r.0).1 ≡ true) × (then_write r next ≡ next r.0)
then_write_inv (w, true) next h = (refl, h, refl)
then_write_inv (w, false) next h = cc

-- A write of a message that succeeds has sent its frame, and the message is not empty.
pub conn_write_with_size_lem :
    (w : Writer) (m : Text)
    → (conn_write_with_size w m).1 ≡ true
    → length m < 2 ^ 32
    → (0 < length m) × ((conn_write_with_size w m).0.sent ≡ w.sent ++ frame m)
unfolding conn_write_with_size
conn_write_with_size_lem w m h lt =
    let size = put_uint32 (length m % 2 ^ 32) in
    let (first, second, e) = then_write_inv (conn_write w size) (λ w'. conn_write w' m) h in
    let (_, sent) = conn_write_lem w size first in
    let (some_byte, sent') = conn_write_lem (conn_write w size).0 m second in
    let same : length m % 2 ^ 32 ≡ length m = omega arith in
    (some_byte, rw e (sent' ∙ rw (sent, same) (append_assoc w.sent (put_uint32 (length m)) m)))

-- The frames of messages, one after the other.
abbrev pub frames : List Text → Text
frames [] = []
frames (m ∷ ms) = frame m ++ frames ms

-- The reading loop hands on the messages that were written, in order, and a `nil` when the
-- connection is closed behind them; one round for each of these is enough.
pub conn_read_loop-frames :
    (ms : List Text) (fuel : ℕ) (segments : List Text)
    → Flowing segments
    → All Sendable ms
    → concat segments ≡ frames ms
    → length ms < fuel
    → conn_read_loop fuel segments ≡ map some ms ++ none ∷ []
unfolding conn_read_loop
conn_read_loop-frames ms zero segments f h e lt = absurd (omega arith)
conn_read_loop-frames [] (suc fuel) segments f h e lt =
    rw (conn_read_with_size_closed segments f e, conn_read_loop) refl
conn_read_loop-frames (m ∷ ms) (suc fuel) segments f h e lt =
    let (left, r, c, f') = conn_read_with_size-Gives segments m (frames ms) f h.0 e in
    rw (r, conn_read_loop)
      (ap (◌∷◌ (some m)) (conn_read_loop-frames ms fuel left f' h.1 c (omega arith)))
