-- ===== src/Node/Decode/Parts.antt =====
-- The parts of a document that stand for a sender and for a receiver, and the numbers in them that come
-- through the manager as they are.
use ucl_tools.Base.{◌≡◌, true, Option, none, some, Text, text, ℤ}
use ucl_tools.Document.{Value, number, str, obj, Fields, end, field}
use ucl_tools.Document.Decode.{in_int64, is_exact}
use ucl_tools.Node.Command.{FrontendParams, BackendParams, QtEnv, Sender, Receiver}
use ucl_tools.Route.Spec.{SenderPart, ReceiverPart}

-- A number of the range of `int`.
abbrev pub InRange : ℤ → Type 0
InRange z = in_int64 z ≡ true

-- A number that the manager's float64 holds.
abbrev pub Exact : ℤ → Type 0
Exact z = is_exact z ≡ true

abbrev pub OptExact : Option ℤ → Type 0
OptExact none = Unit
OptExact (some z) = Exact z

-- A field that is there for a pointer that is not nil.
abbrev pub optional {ℓ} : {A : Type ℓ} → Text → (A → Value) → Option A → Fields → Fields
optional key value none rest = rest
optional key value (some a) rest = field key (value a) rest

-- The numbers of a part are such that float64 holds them.
pub record FrontendExact (p : FrontendParams) : Type 0 where
  pub x : Exact p.scan_out_x
  pub y : Exact p.scan_out_y
  pub w : Exact p.scan_out_w
  pub h : Exact p.scan_out_h
  pub server : Exact p.server_port
  pub time_out : Exact p.session_time_out

pub record BackendExact (p : BackendParams) : Type 0 where
  pub surface : OptExact p.ivi_surface_id
  pub x : Exact p.scan_out_x
  pub y : Exact p.scan_out_y
  pub w : Exact p.scan_out_w
  pub h : Exact p.scan_out_h
  pub port : Exact p.listen_port

pub record QtExact (q : QtEnv) : Type 0 where
  pub surface : Exact q.ivi_surface_id
  pub layer : OptExact q.ivi_layer_id

abbrev pub OptQtExact : Option QtEnv → Type 0
OptQtExact none = Unit
OptQtExact (some q) = QtExact q

pub record SenderExact (s : Sender) : Type 0 where
  pub frontend : FrontendExact s.frontend_params
  pub qt : OptQtExact s.qt_env

-- The fields of the document for each part.
abbrev pub encode_frontend : FrontendParams → Fields
encode_frontend p = field (text "scanout_x") (number p.scan_out_x) (
    field (text "scanout_y") (number p.scan_out_y) (
      field (text "scanout_w") (number p.scan_out_w) (
        field (text "scanout_h") (number p.scan_out_h) (
          field (text "server_port") (number p.server_port)
            (field (text "session_timeout") (number p.session_time_out) end)))))

-- The parameters of a receiver, but for its port.
abbrev pub encode_backend : BackendParams → Fields
encode_backend p = field (text "scanout_x") (number p.scan_out_x) (
    field (text "scanout_y") (number p.scan_out_y) (
      field (text "scanout_w") (number p.scan_out_w) (
        field (text "scanout_h") (number p.scan_out_h) (
          field (text "initial_screen_color") (str p.initial_screen_color) (
            optional (text "ivi_surface_id") number p.ivi_surface_id
              (optional (text "sock_domain_name") str p.sock_domain_name end))))))

abbrev pub encode_qt_env : QtEnv → Fields
encode_qt_env q =
    field (text "ivi_surface_id") (number q.ivi_surface_id)
      (optional (text "ivi_layer_id") number q.ivi_layer_id end)

-- The parts of an application, each with the name of its launcher.
abbrev pub sender_part : Sender → SenderPart
sender_part s = record {
  launcher = s.launcher.host_name;
  rest = field (text "command") (str s.command) (
      field (text "frontend_params") (obj (encode_frontend s.frontend_params)) (
        field (text "env") (str s.env) (
          field (text "appli") (str s.appli)
            (optional (text "qt_env") (λ q. obj (encode_qt_env q)) s.qt_env end))));
}

abbrev pub receiver_part : Receiver → ReceiverPart
receiver_part r = record {
  launcher = r.launcher.host_name;
  port = r.backend_params.listen_port;
  params = encode_backend r.backend_params;
  rest = field (text "command") (str r.command) (field (text "env") (str r.env) end);
}
