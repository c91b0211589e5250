-- ===== src/Route/Addresses.antt =====
-- Where the commands of an application are sent.
use ucl_tools.Base.{
  ◌≡◌, refl, sym, ◌∙◌, inl, inr, Bool, true, not, ◌&&◌, Option, none, some, List, [], ◌∷◌, arith,
  Bool-cases, Text, text, text_eq, All,
}
use ucl_tools.Document.{str, Fields, ok}
use ucl_tools.Screen.{UclNode, FrameworkNode, Node, addr_of, is_recv_compositor}
use ucl_tools.Route.{is_remote}
use ucl_tools.Route.Dispatch.{dispatch_comm_to_nodes}
use ucl_tools.Route.Spec.{
  SenderPart, ReceiverPart, App, document_of, sender_job, reachable, receiver_jobs, sender_ok,
  jobs_of, dispatch_app, messages_of, sent_of,
}
use ucl_tools.Route.Refines.{resolver, dispatch_comm_to_nodes_refines}

-- The address is that of a connectable node.
abbrev pub IsReached : (UclNode → Bool) → Text → Type 0
IsReached connectable addr = (n : UclNode) × (connectable n ≡ true) × (addr ≡ addr_of n.ip n.port)

module _ (resolve : Text → UclNode) (connectable : UclNode → Bool) where
  abbrev Up : ReceiverPart → Type 0
  Up r = connectable (resolve r.launcher) ≡ true

  reachable-Up : (rs : List ReceiverPart) → All Up (reachable resolve connectable rs)
  reachable-Up [] = tt
  reachable-Up (r ∷ rs) = elim (Bool-cases (connectable (resolve r.launcher))) [
    | inl e ↦ rw e (e, reachable-Up rs)
    | inr e ↦ rw e (reachable-Up rs)
  ]

  receiver_jobs-IsReached :
      (rows : List FrameworkNode) (a : App) (kind : Text) (ks : List ReceiverPart)
      → All Up ks
      → All (λ s. IsReached connectable s.0) (messages_of resolve a (receiver_jobs rows kind ks))
  receiver_jobs-IsReached rows a kind [] h = tt
  receiver_jobs-IsReached rows a kind (r ∷ ks) (h, hs) =
      let rest : All (λ s. IsReached connectable s.0)
          (messages_of resolve a (receiver_jobs rows kind ks)) =
        receiver_jobs-IsReached rows a kind ks hs in
      elim (Bool-cases
        (not (text_eq kind (text "launch_compositors")) && is_recv_compositor r.port rows)) [
          | inl e ↦ rw e rest
          | inr e ↦ rw e ((resolve r.launcher, h, refl), rest)
        ]

  dispatch_app-IsReached :
      (rows : List FrameworkNode) (a : App) (sender : Option SenderPart) (ks : List ReceiverPart)
      (sent : List (Text × Fields))
      → a.sender ≡ sender
      → sender_ok resolve connectable sender ≡ true
      → All Up ks
      → sent_of resolve a (jobs_of rows a ks) ≡ ok sent
      → All (λ s. IsReached connectable s.0) sent
  dispatch_app-IsReached rows a sender [] sent s c h e = absurd (ground arith)
  dispatch_app-IsReached rows a none (r ∷ ks) sent s c h e =
      let jobs : messages_of resolve a (receiver_jobs rows a.command_type (r ∷ ks)) ≡ sent =
        ground (arith, s, e) in
      rw (sym jobs) (receiver_jobs-IsReached rows a a.command_type (r ∷ ks) h)
  dispatch_app-IsReached rows a (some p) (r ∷ ks) sent s c h e =
      let jobs : messages_of resolve a
            (sender_job p (r ∷ ks) ∷ receiver_jobs rows a.command_type (r ∷ ks))
          ≡ sent =
        ground (arith, s, e) in
      rw (sym jobs)
        ((resolve p.launcher, c, refl), receiver_jobs-IsReached rows a a.command_type (r ∷ ks) h)

-- If the dispatch of an application of one of the three types with displays, whose launchers are names and
-- whose receivers have ports, succeeds, every command that it sends, that of the sender and those of the
-- receivers, goes to the address of a connectable node.
pub dispatch_comm_to_nodes-IsReached :
    (rows : List FrameworkNode) (nodes : List Node) (connectable : UclNode → Bool) (a : App)
    (sent : List (Text × Fields))
    → is_remote (str a.command_type) ≡ true
    → dispatch_comm_to_nodes rows nodes connectable (document_of str a a.receivers) ≡ ok sent
    → All (λ s. IsReached connectable s.0) sent
dispatch_comm_to_nodes-IsReached rows nodes connectable a sent h e =
    let resolve : Text → UclNode = resolver rows nodes in
    let known : sent_of resolve a (dispatch_app resolve connectable rows a) ≡ ok sent =
      sym (dispatch_comm_to_nodes_refines rows nodes connectable a h) ∙ e in
    elim (Bool-cases (sender_ok resolve connectable a.sender)) [
      | inl c ↦
          dispatch_app-IsReached resolve connectable rows a a.sender
            (reachable resolve connectable a.receivers) sent refl c
            (reachable-Up resolve connectable a.receivers) (rw c at known)
      | inr c ↦ absurd (ground (arith, c, known))
    ]
