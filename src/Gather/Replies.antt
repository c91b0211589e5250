-- ===== src/Gather/Replies.antt =====
-- The messages that `getAppCmdFromEachNode` waits for.
use ucl_tools.Base.{
  ℕ, zero, suc, ◌≤◌, ◌<◌, ◌≡◌, refl, inl, inr, Bool, true, false, Option, none, some, List, [], ◌∷◌,
  arith, if◌then◌else◌, Bool-cases, Text, length,
}
use ucl_tools.Gather.{on_channel, receive_command, get_app_cmd_from_each_node}

-- Every node puts something on the channel.
abbrev pub all_put : List (Option (Option Text)) → Bool
all_put [] = true
all_put (none ∷ nodes) = false
all_put (some _ ∷ nodes) = all_put nodes

-- The last command that came, or the one from before.
abbrev pub last_command : List (Option (Option Text)) → Option Text → Option Text
last_command [] before = before
last_command (some (some command) ∷ nodes) before = last_command nodes (some command)
last_command (_ ∷ nodes) before = last_command nodes before

channel-le : (nodes : List (Option (Option Text))) → length (on_channel nodes) ≤ length nodes
unfolding on_channel
channel-le [] = omega arith
channel-le (none ∷ nodes) = omega (arith, channel-le nodes)
channel-le (some _ ∷ nodes) = omega (arith, channel-le nodes)

waits_forever :
    (rounds : ℕ) (channel : List (Option Text)) (before : Option Text)
    → length channel < rounds
    → receive_command rounds channel before ≡ none
unfolding receive_command
waits_forever zero channel before h = absurd (omega arith)
waits_forever (suc rounds) [] before h = refl
waits_forever (suc rounds) (none ∷ channel) before h =
    waits_forever rounds channel before (omega arith)
waits_forever (suc rounds) (some command ∷ channel) before h =
    waits_forever rounds channel (some command) (omega arith)

silent-lt :
    (nodes : List (Option (Option Text)))
    → all_put nodes ≡ false
    → length (on_channel nodes) < length nodes
unfolding on_channel
silent-lt [] h = cc
silent-lt (none ∷ nodes) h = omega (arith, channel-le nodes)
silent-lt (some _ ∷ nodes) h = omega (arith, silent-lt nodes h)

all_come :
    (nodes : List (Option (Option Text))) (before : Option Text)
    → all_put nodes ≡ true
    → receive_command (length nodes) (on_channel nodes) before ≡ some (last_command nodes before)
unfolding receive_command on_channel
all_come [] before h = refl
all_come (none ∷ nodes) before h = cc
all_come (some none ∷ nodes) before h = all_come nodes before h
all_come (some (some command) ∷ nodes) before h = all_come nodes (some command) h

-- If every connectable node puts something on the channel, the manager gets the command that comes
-- last, or none if none comes; if one node puts nothing there, the manager waits forever.
pub get_app_cmd_from_each_node_lem :
    (nodes : List (Option (Option Text)))
    → get_app_cmd_from_each_node nodes
      ≡ (if all_put nodes then some (last_command nodes none) else none)
unfolding get_app_cmd_from_each_node
get_app_cmd_from_each_node_lem nodes = elim (Bool-cases (all_put nodes)) [
  | inl h ↦ rw h (all_come nodes none h)
  | inr h ↦ rw h (waits_forever (length nodes) (on_channel nodes) none (silent-lt nodes h))
]
