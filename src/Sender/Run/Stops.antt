-- ===== src/Sender/Run/Stops.antt =====
-- What SIGTERM does to wl-send when its three processes run.
use ucl_tools.Base.{ℕ, suc, ◌≡◌, refl, ap, ◌∙◌, true, none, List, [], ◌∷◌, ◌++◌, Text}
use ucl_tools.Flags.{operand, token_of}
use ucl_tools.Node.Command.{Receiver, UclCommand}
use ucl_tools.Node.SenderProcess.{sender_args}
use ucl_tools.Signals.{sigterm, SignalEvent, new_child, got, signal_handler, kill_all_children}
use ucl_tools.Signals.Killed.{dies, all_answers, kill_all_children_lem}
use ucl_tools.Sender.Run.{Host, Child, proxy, wl_proxy, app, Act, register, sender_main}
use ucl_tools.Sender.Run.Started.{IsReady, screen_of, behind_app, shown_acts, sender_main-ready}

-- The processes that are handed to the signal handler, in order.
abbrev pub registered : List Act → List Child
registered [] = []
registered (register child ∷ acts) = child ∷ registered acts
registered (act ∷ acts) = registered acts

-- What the signal handler finds: the children, and then SIGTERM.
abbrev pub then_sigterm : (Child → ℕ) → List Child → List SignalEvent
then_sigterm pid [] = got sigterm ∷ []
then_sigterm pid (child ∷ children) = new_child (pid child) ∷ then_sigterm pid children

module _ (host : Host) (u : UclCommand) (r : Receiver) (rs : List Receiver) (card : ℕ)
    (size w : Text) (ws : List Text) where
  all_registered :
      host.starts (w ∷ ws) ≡ true
      → registered (shown_acts host (screen_of u) u.app_name (r ∷ rs) card size (w ∷ ws))
        ≡ app ∷ wl_proxy ∷ proxy ∷ []
  all_registered s = ap (λ b. registered (behind_app b)) s

  -- On a host that is ready for it, and on which the application starts, wl-send with the arguments of a
  -- node hands its processes over so that on SIGTERM the signal handler gives `killAllChildren` the
  -- application, rvgpu-wlproxy and rvgpu-proxy, in this order; and if each ends some time after SIGTERM,
  -- each gets SIGTERM alone, in this order, rvgpu-proxy last, and the loop comes to its end.
  pub sender_main-stops :
      (pid : Child → ℕ) (a l p : ℕ)
      → u.sender.qt_env ≡ none
      → u.receivers ≡ r ∷ rs
      → token_of w ≡ operand
      → IsReady host (screen_of u) u.app_name (r ∷ rs) card size
      → host.starts (w ∷ ws) ≡ true
      → (signal_handler []
            (then_sigterm pid (registered (sender_main host (sender_args u ++ (w ∷ ws)))))
          ≡ ((pid app ∷ pid wl_proxy ∷ pid proxy ∷ []) ∷ [], []))
        × (kill_all_children (
              all_answers (
                (pid app, dies (suc a))
                ∷ (pid wl_proxy, dies (suc l))
                ∷ (pid proxy, dies (suc p))
                ∷ []))
            ≡ ((pid app, sigterm) ∷ (pid wl_proxy, sigterm) ∷ (pid proxy, sigterm) ∷ [], true))
  sender_main-stops pid a l p q e o h s =
      let children : registered (sender_main host (sender_args u ++ (w ∷ ws)))
          ≡ app ∷ wl_proxy ∷ proxy ∷ [] =
        ap registered (sender_main-ready host u r rs card size w ws q e o h) ∙ all_registered s in
      (
        ap (λ cs. signal_handler [] (then_sigterm pid cs)) children
            ∙ (unfold signal_handler in refl),
        kill_all_children_lem (
            (pid app, dies (suc a))
            ∷ (pid wl_proxy, dies (suc l))
            ∷ (pid proxy, dies (suc p))
            ∷ []),
      )
