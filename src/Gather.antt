-- ===== src/Gather.antt =====
-- cmd/ucl-lifecycle-manager/ucl_lifecycle_manager.go: what the manager asks of the nodes, the command of
-- an application and the lists of applications. A channel is the list of what is put on it, in order.
pub mod Replies
pub mod Names
pub mod Lists
pub mod Compositors
pub mod Launched
mod Tests
use ucl_tools.Base.{
  ℕ, zero, suc, ◌+◌, Bool, true, false, ◌||◌, Option, none, some, List, [], ◌∷◌, ◌++◌, ltb, ◌==◌,
  if◌then◌else◌, Text, text_eq, join, length,
}
use ucl_tools.Tasks.{manage_compositors}

-- `getAppInfoFromNode`: what it puts on `rcvDataCh`, if anything, over whether the connection and the send
-- succeed and what `ConnReadWithSize` returns; `some none` is a nil slice.
unfoldable pub get_app_info_from_node : Bool → Bool → Option Text → Option (Option Text)
get_app_info_from_node false sent read = none
get_app_info_from_node true false read = none
get_app_info_from_node true true read = some read

-- What is put on the channel by the goroutines for the nodes, in the order in which they do.
unfoldable pub on_channel : List (Option (Option Text)) → List (Option Text)
on_channel [] = []
on_channel (none ∷ nodes) = on_channel nodes
on_channel (some data_read ∷ nodes) = data_read ∷ on_channel nodes

-- The loop of `getAppCmdFromEachNode`, with so many rounds left; `none` if it waits forever.
unfoldable pub receive_command : ℕ → List (Option Text) → Option Text → Option (Option Text)
receive_command zero channel app_command = some app_command
receive_command (suc rounds) [] app_command = none
receive_command (suc rounds) (none ∷ channel) app_command =
    receive_command rounds channel app_command
receive_command (suc rounds) (some command ∷ channel) app_command =
    receive_command rounds channel (some command)

-- `getAppCmdFromEachNode`, over what the goroutines for the connectable nodes do.
unfoldable pub get_app_cmd_from_each_node : List (Option (Option Text)) → Option (Option Text)
unfolding receive_command on_channel
get_app_cmd_from_each_node nodes = receive_command (length nodes) (on_channel nodes) none

-- `getAppCmd`; `compositors` is what `generateLaunchCompsitorsComm` returns.
unfoldable pub get_app_cmd : Text → Option Text → List (Option (Option Text)) → Option (Option Text)
unfolding get_app_cmd_from_each_node
get_app_cmd app_name compositors nodes =
    if text_eq app_name manage_compositors
    then some compositors
    else get_app_cmd_from_each_node nodes

-- The loop of `getAppListFromEachNode`. The lists that are read are never empty, so an empty `app_list`
-- is a nil slice.
unfoldable pub receive_lists : ℕ → List (Option Text) → Text → Option Text
receive_lists zero channel app_list = some app_list
receive_lists (suc rounds) [] app_list = none
receive_lists (suc rounds) (none ∷ channel) app_list = receive_lists rounds channel app_list
receive_lists (suc rounds) (some names ∷ channel) app_list =
    receive_lists rounds channel
      ((if ltb 0 (length app_list) then app_list ++ b',' ∷ [] else app_list) ++ names)

-- `bytes.Split(s, ",")`.
unfoldable pub split_comma : Text → List Text
split_comma [] = [] ∷ []
split_comma (c ∷ s) =
    let rest = split_comma s in
    if c == b',' then [] ∷ rest else elim rest [ [] ↦ (c ∷ []) ∷ [] | w ∷ ws ↦ (c ∷ w) ∷ ws ]

-- A key of the map `seen`.
unfoldable pub has_name : Text → List Text → Bool
has_name k [] = false
has_name k (p ∷ ps) = text_eq p k || has_name k ps

-- The loop that drops the names that were seen.
unfoldable pub drop_seen : List Text → List Text → List Text
unfolding has_name
drop_seen seen [] = []
drop_seen seen (p ∷ ps) =
    let skipped = drop_seen seen ps in
    let taken = drop_seen (p ∷ seen) ps in if has_name p seen then skipped else p ∷ taken

-- Duplicates are removed.
unfoldable pub unique_names : Text → Text
unfolding split_comma drop_seen
unique_names app_list =
    if length app_list == 0
    then app_list
    else join (b',' ∷ []) (drop_seen [] (split_comma app_list))

-- `getAppListFromEachNode`; `none` if it waits forever.
unfoldable pub get_app_list_from_each_node : List (Option (Option Text)) → Option Text
unfolding receive_lists on_channel unique_names
get_app_list_from_each_node nodes = elim (receive_lists (length nodes) (on_channel nodes) []) [
  | none ↦ none
  | some app_list ↦ some (unique_names app_list)
]
