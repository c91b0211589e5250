-- ===== src/Node/SenderProcess.antt =====
-- The process that a node starts for the sender of an application.
use ucl_tools.Base.{
  ◌≡◌, refl, sym, ap, ◌∙◌, Bool, true, ◌&&◌, Option, none, some, List, [], ◌∷◌, ◌++◌, append-nil,
  append_assoc, arith, Text, text, no_blank, ℤ, itoa, itoa-no_blank,
}
use ucl_tools.Node.Command.{
  QtEnv, Receiver, UclCommand, layer_param, make_qt_cmd_params, scan_out, receiver_addrs,
  make_sender_cmd_params,
}
use ucl_tools.Node.Argv.{spaced, all_no_blank, spaced-append}
use ucl_tools.Node.Process.{no_blank-both, all_no_blank-both, scan_out-no_blank}

abbrev pub layer_args : Option ℤ → List Text
layer_args none = []
layer_args (some layer) = text "-L" ∷ itoa layer ∷ []

abbrev pub qt_args : Option QtEnv → List Text
qt_args none = []
qt_args (some qenv) = text "-S" ∷ itoa qenv.ivi_surface_id ∷ layer_args qenv.ivi_layer_id

-- An address for each receiver.
abbrev pub addr_args : List Receiver → List Text
addr_args [] = []
addr_args (r ∷ rs) =
    text "-n" ∷ (r.launcher.ip ++ (b':' ∷ itoa r.backend_params.listen_port)) ∷ addr_args rs

-- The arguments of a sender, in front of those of its application.
abbrev pub sender_args : UclCommand → List Text
sender_args u =
    let p = u.sender.frontend_params in
    qt_args u.sender.qt_env
    ++ (text "-s"
        ∷ scan_out p.scan_out_w p.scan_out_h p.scan_out_x p.scan_out_y
        ∷ (addr_args u.receivers ++ (text "--appli_name" ∷ u.app_name ∷ [])))

qt_params : (o : Option QtEnv) → make_qt_cmd_params o [] ≡ spaced (qt_args o)
unfolding make_qt_cmd_params layer_param
qt_params none = refl
qt_params (some q) = layer q.ivi_surface_id q.ivi_layer_id
  where
    layer :
        (s : ℤ) (o : Option ℤ)
        → layer_param (text " -S " ++ itoa s) o ≡ spaced (text "-S" ∷ itoa s ∷ layer_args o)
    layer s none = ap (λ x. text " -S " ++ x) (sym (append-nil (itoa s)))
    layer s (some l) =
        ap (λ x. text " -S " ++ (itoa s ++ (text " -L " ++ x))) (sym (append-nil (itoa l)))

receiver_addrs-args :
    (rs : List Receiver) (m : Text) → receiver_addrs rs m ≡ m ++ spaced (addr_args rs)
unfolding receiver_addrs
receiver_addrs-args [] m = sym (append-nil m)
receiver_addrs-args (r ∷ rs) m =
    let addr = r.launcher.ip ++ (b':' ∷ itoa r.backend_params.listen_port) in
    receiver_addrs-args rs (m ++ (text " -n " ++ addr))
    ∙ append_assoc m (text " -n " ++ addr) (spaced (addr_args rs))

module _ (qt place addrs : Text) where
  sender_left :
      (rest : Text)
      → ((qt ++ (text " -s " ++ place)) ++ addrs) ++ rest
        ≡ qt ++ (text " -s " ++ (place ++ (addrs ++ rest)))
  sender_left rest =
      append_assoc (qt ++ (text " -s " ++ place)) addrs rest
      ∙ append_assoc qt (text " -s " ++ place) (addrs ++ rest)

  sender_right :
      (named rest : Text)
      → (qt ++ (text " -s " ++ (place ++ (addrs ++ named)))) ++ rest
        ≡ qt ++ (text " -s " ++ (place ++ (addrs ++ (named ++ rest))))
  sender_right named rest =
      append_assoc qt (text " -s " ++ (place ++ (addrs ++ named))) rest
      ∙ ap (λ x. qt ++ (text " -s " ++ x)) (append_assoc place (addrs ++ named) rest)
      ∙ ap (λ x. qt ++ (text " -s " ++ (place ++ x))) (append_assoc addrs named rest)

pub sender_params :
    (u : UclCommand)
    → make_sender_cmd_params u (make_qt_cmd_params u.sender.qt_env [])
      ≡ spaced (sender_args u) ++ (b' ' ∷ u.sender.appli)
unfolding make_sender_cmd_params
sender_params u =
    let p = u.sender.frontend_params in
    let place = scan_out p.scan_out_w p.scan_out_h p.scan_out_x p.scan_out_y in
    let qt = spaced (qt_args u.sender.qt_env) in
    let addrs = addr_args u.receivers in
    let named = text "--appli_name" ∷ u.app_name ∷ [] in
    let appli = b' ' ∷ u.sender.appli in
    let tail = text " --appli_name " ++ (u.app_name ++ appli) in
    ap (λ m. receiver_addrs u.receivers (m ++ (text " -s " ++ place)) ++ tail)
      (qt_params u.sender.qt_env)
    ∙ ap (λ m. m ++ tail) (receiver_addrs-args u.receivers (qt ++ (text " -s " ++ place)))
    ∙ sender_left qt place (spaced addrs) tail
    ∙ ap (λ x. qt ++ (text " -s " ++ (place ++ (spaced addrs ++ (text " --appli_name " ++ x)))))
        (sym (append_assoc u.app_name [] appli))
    ∙ sym (
        ap (λ m. m ++ appli)
          (spaced-append (qt_args u.sender.qt_env) (text "-s" ∷ place ∷ (addrs ++ named)))
        ∙ ap (λ x. (qt ++ (text " -s " ++ (place ++ x))) ++ appli) (spaced-append addrs named)
        ∙ sender_right qt place (spaced addrs) (spaced named) appli)

qt_args-no_blank : (o : Option QtEnv) → all_no_blank (qt_args o) ≡ true
qt_args-no_blank none = refl
qt_args-no_blank (some q) = rw (itoa-no_blank q.ivi_surface_id) (layer q.ivi_layer_id)
  where
    layer : (o : Option ℤ) → all_no_blank (layer_args o) ≡ true
    layer none = refl
    layer (some l) = rw (itoa-no_blank l) refl

-- No address of a receiver has a blank.
abbrev pub ips_no_blank : List Receiver → Bool
ips_no_blank [] = true
ips_no_blank (r ∷ rs) = no_blank r.launcher.ip && ips_no_blank rs

addr_args-no_blank :
    (rs : List Receiver) → ips_no_blank rs ≡ true → all_no_blank (addr_args rs) ≡ true
addr_args-no_blank [] h = refl
addr_args-no_blank (r ∷ rs) h =
    let port = itoa r.backend_params.listen_port in
    let addr : no_blank (r.launcher.ip ++ (b':' ∷ port)) ≡ true =
      no_blank-both r.launcher.ip (b':' ∷ port) (ground arith)
        (itoa-no_blank r.backend_params.listen_port) in
    rw addr (addr_args-no_blank rs (ground arith))

pub sender_args-no_blank :
    (u : UclCommand)
    → no_blank u.app_name ≡ true
    → ips_no_blank u.receivers ≡ true
    → all_no_blank (sender_args u) ≡ true
sender_args-no_blank u h k =
    let p = u.sender.frontend_params in
    all_no_blank-both (qt_args u.sender.qt_env) _ (qt_args-no_blank u.sender.qt_env) (
      rw (scan_out-no_blank p.scan_out_w p.scan_out_h p.scan_out_x p.scan_out_y) (
        all_no_blank-both (addr_args u.receivers) (text "--appli_name" ∷ u.app_name ∷ [])
          (addr_args-no_blank u.receivers k) (rw h refl)))
