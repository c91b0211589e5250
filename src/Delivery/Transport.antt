-- ===== src/Delivery/Transport.antt =====
-- The ways between cmd/ucl-lifecycle-manager and a node: `SendCommand` and `ReadCommand` for a command,
-- `ConnWriteWithSize` and `ConnReadWithSize` for an answer, and the texts on both sides.
use ucl_tools.Base.{
  ◌≤◌, ◌<◌, ◌≡◌, refl, ap, ◌∙◌, sym, Option, none, some, List, [], ◌∷◌, ◌++◌, ◌≢◌, append-nil,
  concat, arith, Text, length, All,
}
use ucl_tools.Settings.{cmd_distrib_comm}
use ucl_tools.Document.{Value, obj, Fields, Run, ok as sends, fail, panic}
use ucl_tools.Document.Decode.{Json, marshal}
use ucl_tools.Screen.{◌>>=◌}
use ucl_tools.Wire.{
  Result, ok, err, read_command, send_command, conn_read_with_size, max_size, put_uint32,
  magic_code,
}
use ucl_tools.Wire.Segments.{Flowing}
use ucl_tools.Wire.Commands.{send_command_lem, send_command_succeeds, read_command-send_command}
use ucl_tools.Node.Command.{UclCommand}
use ucl_tools.Node.Decode.{decode_command}
use ucl_tools.Node.Serve.Fetch.{fresh, read_reply, sent_answer, IsAnswered, read_answer}

abbrev command_of : Result (Text × Text × List Text) → Option Text
command_of (ok r) = some r.1
command_of (err _) = none

-- What `ReadCommand` gives of a command that `SendCommand` sends as the first on a connection that takes its
-- writes: none where it is refused.
unfoldable pub carried : Text → Text → Option Text
carried kind command = command_of (read_command ((send_command (fresh 5) kind command).0.sent ∷ []))

head_not_nil : (rest : Text) → put_uint32 magic_code ++ rest ≢ []
unfolding put_uint32
head_not_nil rest e = cc

-- A text that is not empty and not longer than `max_size` arrives.
pub carried_lem :
    (kind command : Text)
    → 0 < length kind
    → length kind ≤ max_size
    → 0 < length command
    → length command ≤ max_size
    → carried kind command ≡ some command
unfolding carried
carried_lem kind command k small c fits =
    let sent = send_command_succeeds (fresh 5) kind command (omega arith) k c in
    let bytes = (send_command (fresh 5) kind command).0.sent in
    let (_, _, whole) = send_command_lem (fresh 5) kind command sent (omega arith) (omega arith) in
    let there : bytes ≢ [] = λ e. head_not_nil _ (sym whole ∙ e) in
    let (_, r, _, _) =
      read_command-send_command (fresh 5) kind command (bytes ∷ []) [] sent small fits (there, tt)
        refl in
    ap command_of r

-- A text in one piece, if there is one.
abbrev in_one : Text → List Text
in_one [] = []
in_one (c ∷ s) = (c ∷ s) ∷ []

in_one-Flowing : (s : Text) → Flowing (in_one s)
in_one-Flowing [] = tt
in_one-Flowing (c ∷ s) = (λ e. cc, tt)

concat-in_one : (s : Text) → concat (in_one s) ≡ s
concat-in_one [] = refl
concat-in_one (c ∷ s) = append-nil (c ∷ s)

-- What `ConnReadWithSize` gives the manager of a node's answer, where the node closes the connection behind
-- it, or without one.
unfoldable pub answered : Option Text → Option Text
answered reply = read_reply (conn_read_with_size (in_one (sent_answer 2 reply)))

pub answered_lem : (reply : Option Text) → IsAnswered 2 reply → answered reply ≡ reply
unfolding answered
answered_lem reply h =
    read_answer 2 reply (in_one (sent_answer 2 reply)) h (in_one-Flowing (sent_answer 2 reply))
      (concat-in_one (sent_answer 2 reply))

abbrev pub run_map : {A B : Type 0} → (A → B) → Run A → Run B
run_map f (sends a) = sends (f a)
run_map f (fail w) = fail w
run_map f panic = panic

module _ (json : Json) where
  -- What a struct of the node is read from, where the manager sends the text of a value; none where the node
  -- refuses the command or cannot parse it.
  unfoldable pub value_at : Text → Value → Option Value
  value_at kind value = do command ← carried kind (json.write value); json.parse command

  -- `json.Marshal` in the manager, the way to the node, and `json.Unmarshal` into `uclCommand` there.
  unfoldable pub read_of : Fields → Option UclCommand
  read_of m = do
    value ← value_at cmd_distrib_comm (marshal json.print (obj m))
    decode_command value

  -- What the node at each address reads.
  abbrev pub received : List (Text × Fields) → List (Text × Option UclCommand)
  received [] = []
  received ((addr, m) ∷ sent) = (addr, read_of m) ∷ received sent

  -- The value has a text that is not longer than `max_size` and is read back as this value.
  abbrev pub Fits : Value → Type 0
  Fits v =
      (0 < length (json.write v))
      × (length (json.write v) ≤ max_size)
      × (json.parse (json.write v) ≡ some v)

  -- So have all commands that are sent, if any are.
  abbrev pub AllFit : Run (List (Text × Fields)) → Type 0
  AllFit (sends sent) = All (λ (e : Text × Fields). Fits (marshal json.print (obj e.1))) sent
  AllFit (fail w) = Unit
  AllFit panic = Unit

  pub value_at_lem :
      (kind : Text) (value : Value)
      → 0 < length kind
      → length kind ≤ max_size
      → Fits value
      → value_at kind value ≡ some value
  unfolding value_at
  value_at_lem kind value k small (c, fits, parsed) =
      let arrives = carried_lem kind (json.write value) k small c fits in rw arrives parsed

  read_of_lem :
      (m : Fields)
      → Fits (marshal json.print (obj m))
      → read_of m ≡ decode_command (marshal json.print (obj m))
  unfolding read_of
  read_of_lem m f =
      let arrives =
        value_at_lem cmd_distrib_comm (marshal json.print (obj m)) (omega arith) (omega arith) f in
      rw arrives refl

  -- Without the way: what is decoded of the values.
  abbrev pub decoded : List (Text × Fields) → List (Text × Option UclCommand)
  decoded [] = []
  decoded ((addr, m) ∷ sent) = (addr, decode_command (marshal json.print (obj m))) ∷ decoded sent

  sent_decoded : (sent : List (Text × Fields)) → AllFit (sends sent) → received sent ≡ decoded sent
  sent_decoded [] h = refl
  sent_decoded ((addr, m) ∷ sent) h = rw (read_of_lem m h.0, sent_decoded sent h.1) refl

  pub received-decoded :
      (out : Run (List (Text × Fields))) → AllFit out → run_map received out ≡ run_map decoded out
  received-decoded (sends sent) h = ap sends (sent_decoded sent h)
  received-decoded (fail w) h = refl
  received-decoded panic h = refl
