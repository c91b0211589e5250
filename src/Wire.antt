-- ===== src/Wire.antt =====
-- internal/ucl/ucl_node_conn.go: the framed messages between the lifecycle manager and the nodes.
-- A connection is read as the segments that the calls of `conn.Read` will find, in order; after the
-- last one it is closed. An empty segment is a `Read` that returns no byte and no error.
pub mod Bytes
pub mod Dialing
pub mod Segments
pub mod Messages
pub mod Commands
mod Tests
use ucl_tools.Base.{
  ℕ, zero, suc, ◌+◌, ◌-◌, ◌*◌, ◌/◌, ◌%◌, ◌^◌, Bool, true, false, Option, none, some, List, [], ◌∷◌,
  ◌++◌, Text, ltb, leb, ◌==◌, if◌then◌else◌, length, take, drop,
}

pub data Fault : Type 0 where
  disconnected message_eof zero_byte_read too_huge magic_mismatch write_error : Fault
  command_type_err command_data_err status_err : Fault
  size_read_fail command_read_fail wait_magic : Fault → Fault

pub data Result {ℓ} (A : Type ℓ) : Type ℓ where
  ok : A → Result A
  err : Fault → Result A

infixl 5 ◌>>=◌
abbrev pub ◌>>=◌ {ℓ κ} : {A : Type ℓ} {B : Type κ} → Result A → (A → Result B) → Result B
ok a >>= f = f a
err e >>= f = err e

-- An error is wrapped on its way up.
abbrev pub wrap {ℓ} : {A : Type ℓ} → (Fault → Fault) → Result A → Result A
wrap w (ok a) = ok a
wrap w (err e) = err (w e)

-- `binary.BigEndian.PutUint32` of a `uint32`.
unfoldable pub put_uint32 : ℕ → Text
put_uint32 n = n / 2 ^ 24 % 256 ∷ n / 2 ^ 16 % 256 ∷ n / 2 ^ 8 % 256 ∷ n % 256 ∷ []

-- `binary.BigEndian.Uint32`; the code hands it four bytes.
unfoldable pub uint32 : Text → ℕ
uint32 (a ∷ b ∷ c ∷ d ∷ _) = a * 2 ^ 24 + b * 2 ^ 16 + c * 2 ^ 8 + d
uint32 _ = 0

-- 'UHMI'
abbrev pub magic_code : ℕ
magic_code = 0x55484d49

abbrev pub max_size : ℕ
max_size = 0x10000

-- `ConnRead`: `need` bytes are left to read into `buf`. One `Read` takes a segment whole, or as much
-- of it as fits.
unfoldable pub conn_read : List Text → ℕ → Text → Result (Text × List Text)
conn_read segments zero buf = ok (buf, segments)
conn_read [] (suc need) buf = err disconnected
conn_read ([] ∷ segments) (suc need) buf = err message_eof
conn_read ((b ∷ s) ∷ segments) (suc need) buf =
    let more = conn_read segments (need - length s) (buf ++ (b ∷ s)) in
    if leb (length s) need
    then more
    else ok (buf ++ take (suc need) (b ∷ s), drop (suc need) (b ∷ s) ∷ segments)

-- `ConnReadWithSize`, once the size is known.
unfoldable pub read_sized : ℕ → List Text → Result (Text × List Text)
read_sized size segments =
    if size == 0
    then err zero_byte_read
    else if ltb max_size size
    then err too_huge
    else wrap command_read_fail (conn_read segments size [])

-- `ConnReadWithSize`.
unfoldable pub conn_read_with_size : List Text → Result (Text × List Text)
unfolding read_sized
conn_read_with_size segments = do
  r ← wrap size_read_fail (conn_read segments 4 [])
  read_sized (uint32 r.0) r.1

-- `WaitMagicCode`; what is left of the connection.
unfoldable pub wait_magic_code : List Text → Result (List Text)
wait_magic_code segments = do
  r ← conn_read segments 4 []
  if uint32 r.0 == magic_code then ok r.1 else err magic_mismatch

-- `ReadCommand`: the command type, the command, and what is left of the connection.
unfoldable pub read_command : List Text → Result (Text × Text × List Text)
read_command segments = do
  rest ← wrap wait_magic (wait_magic_code segments)
  kind ← wrap (λ _. command_type_err) (conn_read_with_size rest)
  command ← wrap (λ _. command_data_err) (conn_read_with_size kind.1)
  ok (kind.0, command.0, command.1)

-- `ReadStatus`.
unfoldable pub read_status : List Text → Result (Text × List Text)
read_status segments = wrap (λ _. status_err) (conn_read_with_size segments)

-- `ConnReadLoop`: what it puts on its channel, a `nil` last; the fuel bounds its rounds.
unfoldable pub conn_read_loop : ℕ → List Text → List (Option Text)
conn_read_loop zero segments = []
conn_read_loop (suc fuel) segments = elim (conn_read_with_size segments) [
  | ok r ↦ some r.0 ∷ conn_read_loop fuel r.1
  | err _ ↦ none ∷ []
]

-- A connection for writing: the bytes that were sent, and how many more calls of `conn.Write` succeed;
-- the call that fails still sends `cut` bytes.
pub record Writer : Type 0 where
  pub sent : Text
  pub writes : ℕ
  pub cut : ℕ

-- `ConnWrite`: the connection after the call, and whether it returned no error. A `Write` that
-- returns 0 is an error too.
unfoldable pub conn_write : Writer → Text → Writer × Bool
conn_write w message =
    if w.writes == 0
    then (record w { sent = w.sent ++ take w.cut message }, false)
    else if length message == 0
    then (record w { writes = w.writes - 1 }, false)
    else (record w { sent = w.sent ++ message; writes = w.writes - 1 }, true)

-- The next step of a sequence of writes, unless the last one failed.
abbrev pub then_write : Writer × Bool → (Writer → Writer × Bool) → Writer × Bool
then_write (w, true) next = next w
then_write (w, false) next = (w, false)

-- `ConnWriteWithSize`.
unfoldable pub conn_write_with_size : Writer → Text → Writer × Bool
conn_write_with_size w message =
    then_write (conn_write w (put_uint32 (length message % 2 ^ 32))) (λ w'. conn_write w' message)

-- `SendMagicCode`.
unfoldable pub send_magic_code : Writer → Writer × Bool
send_magic_code w = conn_write w (put_uint32 magic_code)

-- `SendCommand`.
unfoldable pub send_command : Writer → Text → Text → Writer × Bool
send_command w kind command =
    then_write (send_magic_code w)
      (λ w1. then_write (conn_write_with_size w1 kind) (λ w2. conn_write_with_size w2 command))

-- `ResponseStatus`.
unfoldable pub response_status : Writer → Text → Writer × Bool
response_status w status = conn_write_with_size w status
