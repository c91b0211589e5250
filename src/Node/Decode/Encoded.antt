-- ===== src/Node/Decode/Encoded.antt =====
-- What a node reads of the parts of a document that stand for a sender and for a receiver.
use ucl_tools.Base.{◌≡◌, refl, Option, none, some, Text, text, ℤ, pos, negsuc, arith}
use ucl_tools.Document.{number, node, field}
use ucl_tools.Document.Decode.{
  marshal_fields, same_key, ranged, into_fields, into_obj, marshal, is_exact, in_int64, PrintsExact,
}
use ucl_tools.Screen.{UclNode}
use ucl_tools.Node.Command.{FrontendParams, BackendParams, QtEnv, Sender, Receiver}
use ucl_tools.Route.Spec.{sender_value, receiver_value}
use ucl_tools.Node.Decode.{
  zero_node, set_node, zero_frontend, set_frontend, zero_backend, set_backend, zero_qt_env,
  set_qt_env, zero_sender, set_sender, zero_receiver, set_receiver,
}
use ucl_tools.Node.Decode.Parts.{
  InRange, Exact, OptExact, OptQtExact, FrontendExact, BackendExact, SenderExact, encode_frontend,
  encode_backend, encode_qt_env, sender_part, receiver_part,
}

ranged_lem : (z : ℤ) → InRange z → ranged z ≡ some z
unfolding ranged
ranged_lem z h = rw h refl

Exact-InRange : (z : ℤ) → Exact z → InRange z
unfolding is_exact in_int64
Exact-InRange (pos n) h = ground (arith, h)
Exact-InRange (negsuc n) h = ground (arith, h)

-- A node is read back: its port does not go through float64.
pub node_read :
    (print : ℤ → ℤ) (n : UclNode)
    → InRange n.port
    → into_obj set_node (marshal print (node n)) zero_node ≡ some n
unfolding set_node same_key
node_read print n h = rw (ranged_lem n.port h) refl

module _ (print : ℤ → ℤ) (prints : PrintsExact print) where
  -- A number that float64 holds comes through.
  exact_lem : (z : ℤ) → Exact z → ranged (print z) ≡ some z
  exact_lem z h = rw (prints z h) (ranged_lem z (Exact-InRange z h))

  frontend_read :
      (p : FrontendParams)
      → FrontendExact p
      → into_fields set_frontend (marshal_fields print (encode_frontend p)) zero_frontend ≡ some p
  unfolding set_frontend same_key
  frontend_read p f =
      rw
        (
          exact_lem p.scan_out_x f.x,
          exact_lem p.scan_out_y f.y,
          exact_lem p.scan_out_w f.w,
          exact_lem p.scan_out_h f.h,
          exact_lem p.server_port f.server,
          exact_lem p.session_time_out f.time_out,
        )
        refl

  backend_read :
      (p : BackendParams) (o : Option ℤ) (d : Option Text)
      → p.ivi_surface_id ≡ o
      → p.sock_domain_name ≡ d
      → OptExact o
      → BackendExact p
      → into_fields set_backend
          (marshal_fields print
            (field (text "listen_port") (number p.listen_port) (encode_backend p)))
          zero_backend
        ≡ some p
  unfolding set_backend same_key
  backend_read p none none eo ed g f =
      rw
        (
          eo,
          ed,
          exact_lem p.listen_port f.port,
          exact_lem p.scan_out_x f.x,
          exact_lem p.scan_out_y f.y,
          exact_lem p.scan_out_w f.w,
          exact_lem p.scan_out_h f.h,
        )
        refl
  backend_read p none (some n) eo ed g f =
      rw
        (
          eo,
          ed,
          exact_lem p.listen_port f.port,
          exact_lem p.scan_out_x f.x,
          exact_lem p.scan_out_y f.y,
          exact_lem p.scan_out_w f.w,
          exact_lem p.scan_out_h f.h,
        )
        refl
  backend_read p (some z) none eo ed g f =
      rw
        (
          eo,
          ed,
          exact_lem z g,
          exact_lem p.listen_port f.port,
          exact_lem p.scan_out_x f.x,
          exact_lem p.scan_out_y f.y,
          exact_lem p.scan_out_w f.w,
          exact_lem p.scan_out_h f.h,
        )
        refl
  backend_read p (some z) (some n) eo ed g f =
      rw
        (
          eo,
          ed,
          exact_lem z g,
          exact_lem p.listen_port f.port,
          exact_lem p.scan_out_x f.x,
          exact_lem p.scan_out_y f.y,
          exact_lem p.scan_out_w f.w,
          exact_lem p.scan_out_h f.h,
        )
        refl

  qt_read :
      (q : QtEnv) (o : Option ℤ)
      → q.ivi_layer_id ≡ o
      → OptExact o
      → Exact q.ivi_surface_id
      → into_fields set_qt_env (marshal_fields print (encode_qt_env q)) zero_qt_env ≡ some q
  unfolding set_qt_env same_key
  qt_read q none e g f = rw (e, exact_lem q.ivi_surface_id f) refl
  qt_read q (some z) e g f = rw (e, exact_lem z g, exact_lem q.ivi_surface_id f) refl

  -- A node reads the part of a receiver, with the node that it is launched on.
  pub receiver_read :
      (resolve : Text → UclNode) (r : Receiver)
      → InRange (resolve r.launcher.host_name).port
      → BackendExact r.backend_params
      → into_obj set_receiver
          (marshal print (receiver_value (λ k. node (resolve k)) (receiver_part r)))
          zero_receiver
        ≡ some (record r { launcher = resolve r.launcher.host_name })
  unfolding set_receiver same_key
  receiver_read resolve r h f =
      let p = r.backend_params in
      rw
        (
          node_read print (resolve r.launcher.host_name) h,
          backend_read p p.ivi_surface_id p.sock_domain_name refl refl f.surface f,
        )
        refl

  sender_fields_read :
      (resolve : Text → UclNode) (s : Sender) (o : Option QtEnv)
      → s.qt_env ≡ o
      → OptQtExact o
      → InRange (resolve s.launcher.host_name).port
      → FrontendExact s.frontend_params
      → into_obj set_sender
          (marshal print (sender_value (λ k. node (resolve k)) (sender_part s)))
          zero_sender
        ≡ some (record s { launcher = resolve s.launcher.host_name })
  unfolding set_sender same_key
  sender_fields_read resolve s none e g h f =
      rw (e, node_read print (resolve s.launcher.host_name) h, frontend_read s.frontend_params f)
        refl
  sender_fields_read resolve s (some q) e g h f =
      rw
        (
          e,
          node_read print (resolve s.launcher.host_name) h,
          frontend_read s.frontend_params f,
          qt_read q q.ivi_layer_id refl g.layer g.surface,
        )
        refl

  -- A node reads the part of a sender, with the node that it is launched on.
  pub sender_read :
      (resolve : Text → UclNode) (s : Sender)
      → InRange (resolve s.launcher.host_name).port
      → SenderExact s
      → into_obj set_sender
          (marshal print (sender_value (λ k. node (resolve k)) (sender_part s)))
          zero_sender
        ≡ some (record s { launcher = resolve s.launcher.host_name })
  sender_read resolve s h f = sender_fields_read resolve s s.qt_env refl f.qt h f.frontend
