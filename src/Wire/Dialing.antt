-- ===== src/Wire/Dialing.antt =====
-- `ConnectTarget` and `retryConnectTarget`.
use ucl_tools.Base.{Bool, true, false, List, [], ◌∷◌}

-- What `net.Dial` answers, one try after the other, until a second has passed: whether a connection comes
-- of it. The tries end with the first that succeeds.
unfoldable pub connect_target : List Bool → Bool
connect_target [] = false
connect_target (true ∷ tries) = true
connect_target (false ∷ tries) = connect_target tries
