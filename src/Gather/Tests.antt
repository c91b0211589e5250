-- ===== src/Gather/Tests.antt =====
-- Two nodes that answer, and one that does not.
use ucl_tools.Base.{◌≡◌, none, some, [], ◌∷◌, text}
use ucl_tools.Gather.{get_app_cmd_from_each_node}
use ucl_tools.Gather.Replies.{get_app_cmd_from_each_node_lem}

get_app_cmd_from_each_node_lem_example :
    get_app_cmd_from_each_node (some (some (text "{}")) ∷ none ∷ []) ≡ none
get_app_cmd_from_each_node_lem_example =
    get_app_cmd_from_each_node_lem (some (some (text "{}")) ∷ none ∷ [])
