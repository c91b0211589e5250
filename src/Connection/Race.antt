-- ===== src/Connection/Race.antt =====
-- The order of the writes on a connection.
use ucl_tools.Base.{
  ℕ, ◌≡◌, refl, ap, ◌∙◌, ◌≤◌, Bool, true, false, List, [], ◌∷◌, ◌++◌, append_assoc, arith, Text,
  concat,
}
use ucl_tools.Wire.{err, magic_mismatch, magic_code, max_size, put_uint32, wait_magic_code}
use ucl_tools.Wire.Bytes.{uint32-put_uint32}
use ucl_tools.Wire.Segments.{Flowing}
use ucl_tools.Wire.Messages.{read_head}
use ucl_tools.Connection.{Shared, send_magic, next_write, Reach, start, next, writes_of}

-- Before the magic code is sent, and with it: what `handleConnection` wrote before it and behind it.
abbrev pub Ordered : List Text → Shared → Bool → Type 0
Ordered ms s false = s.wire ++ s.queue ≡ writes_of ms
Ordered ms s true =
    (before after : List Text) × (s.wire ≡ before ++ put_uint32 magic_code ∷ after)
    × (before ++ (after ++ s.queue) ≡ writes_of ms)

magic-Ordered :
    (ms : List Text) (s : Shared) (b : Bool)
    → b ≡ false
    → Ordered ms s b
    → Ordered ms (record s { answered = true; wire = s.wire ++ put_uint32 magic_code ∷ [] }) true
magic-Ordered ms s false e o = (s.wire, [], refl, o)
magic-Ordered ms s true e o = cc

write-Ordered :
    (ms : List Text) (s : Shared) (b : Bool) (x : Text) (rest : List Text)
    → s.queue ≡ x ∷ rest
    → Ordered ms s b
    → Ordered ms (record s { queue = rest; wire = s.wire ++ x ∷ [] }) b
write-Ordered ms s false x rest h o = append_assoc s.wire (x ∷ []) rest ∙ rw (← h) o
write-Ordered ms s true x rest h (before, after, wire, all) = (
  before,
  after ++ x ∷ [],
  rw wire (append_assoc before (put_uint32 magic_code ∷ after) (x ∷ [])),
  ap (λ q. before ++ q) (append_assoc after (x ∷ []) rest) ∙ rw (← h) all,
)

Reach-Ordered : (ms : List Text) {s : Shared} → Reach ms s → Ordered ms s s.answered
Reach-Ordered ms start = refl
Reach-Ordered ms (next {s} r (send_magic h)) = magic-Ordered ms s s.answered h (Reach-Ordered ms r)
Reach-Ordered ms (next {s} r (next_write x rest h)) =
    write-Ordered ms s s.answered x rest h (Reach-Ordered ms r)

-- Once the magic code is sent, it stands between some of these writes and others.
pub answered-Ordered :
    (ms : List Text) (s : Shared) → Reach ms s → s.answered ≡ true → Ordered ms s true
answered-Ordered ms s r e = rw e at (Reach-Ordered ms r)

-- A connection that begins with the size of a message is not taken for an answer.
pub wait_magic_code-sized :
    (segments : List Text) (n : ℕ) (rest : Text)
    → Flowing segments
    → n ≤ max_size
    → concat segments ≡ put_uint32 n ++ rest
    → wait_magic_code segments ≡ err magic_mismatch
unfolding wait_magic_code
wait_magic_code-sized segments n rest f h e =
    let (left, r, _, _) = read_head segments n rest f e in
    rw (r, uint32-put_uint32 n (omega arith)) (ground arith)
