-- ===== src/Node/Process.antt =====
-- The process that a node starts for a receiver of an application.
use ucl_tools.Base.{
  ◌≡◌, refl, sym, ap, ◌∙◌, Bool, true, Option, none, some, List, [], ◌∷◌, ◌++◌, append-nil,
  append_assoc, arith, Text, text, no_blank, no_blank-append, ℤ, itoa, itoa-no_blank,
}
use ucl_tools.Node.Command.{
  BackendParams, Receiver, scan_out, surface_param, domain_param, make_receiver_cmd_params,
}
use ucl_tools.Node.Argv.{spaced, all_no_blank, spaced-append}

pub no_blank-both : (a b : Text) → no_blank a ≡ true → no_blank b ≡ true → no_blank (a ++ b) ≡ true
no_blank-both a b h k = ground (arith, no_blank-append a b)

pub all_no_blank-both :
    (a b : List Text) → all_no_blank a ≡ true → all_no_blank b ≡ true → all_no_blank (a ++ b) ≡ true
all_no_blank-both [] b h k = k
all_no_blank-both (x ∷ a) b h k = ground (arith, all_no_blank-both a b)

pub scan_out-no_blank : (w h x y : ℤ) → no_blank (scan_out w h x y) ≡ true
scan_out-no_blank w h x y = no_blank-both (itoa w) _ (itoa-no_blank w) (
    no_blank-both (itoa h) _ (itoa-no_blank h)
      (no_blank-both (itoa x) _ (itoa-no_blank x) (itoa-no_blank y)))

-- The arguments that stand for a surface and for a socket.
abbrev pub surface_args : Option ℤ → List Text
surface_args none = []
surface_args (some surface) = text "-S" ∷ itoa surface ∷ []

abbrev pub domain_args : Option Text → List Text
domain_args none = []
domain_args (some name) = text "-D" ∷ name ∷ []

-- The arguments of a receiver.
abbrev pub receiver_args : BackendParams → List Text
receiver_args p =
    (text "-s"
      ∷ scan_out p.scan_out_w p.scan_out_h p.scan_out_x p.scan_out_y
      ∷ text "-P"
      ∷ itoa p.listen_port
      ∷ text "-B"
      ∷ p.initial_screen_color
      ∷ [])
    ++ (surface_args p.ivi_surface_id ++ domain_args p.sock_domain_name)

surface_param-args : (o : Option ℤ) (m : Text) → surface_param o m ≡ m ++ spaced (surface_args o)
surface_param-args none m = sym (append-nil m)
surface_param-args (some s) m = ap (λ x. m ++ (text " -S " ++ x)) (sym (append-nil (itoa s)))

domain_param-args : (o : Option Text) (m : Text) → domain_param o m ≡ m ++ spaced (domain_args o)
domain_param-args none m = sym (append-nil m)
domain_param-args (some s) m = ap (λ x. m ++ (text " -D " ++ x)) (sym (append-nil s))

display_args :
    (place port color : Text)
    → text " -s " ++ (place ++ (text " -P " ++ (port ++ (text " -B " ++ color))))
      ≡ spaced (text "-s" ∷ place ∷ text "-P" ∷ port ∷ text "-B" ∷ color ∷ [])
display_args place port color =
    ap (λ x. text " -s " ++ (place ++ (text " -P " ++ (port ++ (text " -B " ++ x)))))
      (sym (append-nil color))

pub receiver_params :
    (r : Receiver) → make_receiver_cmd_params [] r ≡ spaced (receiver_args r.backend_params)
unfolding make_receiver_cmd_params
receiver_params r =
    let p = r.backend_params in
    let place = scan_out p.scan_out_w p.scan_out_h p.scan_out_x p.scan_out_y in
    let base =
      text "-s"
      ∷ place
      ∷ text "-P"
      ∷ itoa p.listen_port
      ∷ text "-B"
      ∷ p.initial_screen_color
      ∷ [] in
    let display =
      text " -s "
      ++ (place
          ++ (text " -P " ++ (itoa p.listen_port ++ (text " -B " ++ p.initial_screen_color)))) in
    domain_param-args p.sock_domain_name (surface_param p.ivi_surface_id display)
    ∙ ap (λ m. m ++ spaced (domain_args p.sock_domain_name))
        (surface_param-args p.ivi_surface_id display)
    ∙ append_assoc display (spaced (surface_args p.ivi_surface_id))
        (spaced (domain_args p.sock_domain_name))
    ∙ ap
        (λ m.
          m ++ (spaced (surface_args p.ivi_surface_id) ++ spaced (domain_args p.sock_domain_name)))
        (display_args place (itoa p.listen_port) p.initial_screen_color)
    ∙ ap (λ m. spaced base ++ m)
        (sym (spaced-append (surface_args p.ivi_surface_id) (domain_args p.sock_domain_name)))
    ∙ sym (spaced-append base (surface_args p.ivi_surface_id ++ domain_args p.sock_domain_name))

surface_args-no_blank : (o : Option ℤ) → all_no_blank (surface_args o) ≡ true
surface_args-no_blank none = refl
surface_args-no_blank (some s) = rw (itoa-no_blank s) refl

abbrev pub opt_no_blank : Option Text → Bool
opt_no_blank none = true
opt_no_blank (some s) = no_blank s

domain_args-no_blank :
    (o : Option Text) → opt_no_blank o ≡ true → all_no_blank (domain_args o) ≡ true
domain_args-no_blank none h = refl
domain_args-no_blank (some s) h = rw h refl

pub receiver_args-no_blank :
    (p : BackendParams)
    → no_blank p.initial_screen_color ≡ true
    → opt_no_blank p.sock_domain_name ≡ true
    → all_no_blank (receiver_args p) ≡ true
receiver_args-no_blank p h k =
    all_no_blank-both
      (text "-s"
        ∷ scan_out p.scan_out_w p.scan_out_h p.scan_out_x p.scan_out_y
        ∷ text "-P"
        ∷ itoa p.listen_port
        ∷ text "-B"
        ∷ p.initial_screen_color
        ∷ [])
      (surface_args p.ivi_surface_id ++ domain_args p.sock_domain_name)
      (rw
        (
          scan_out-no_blank p.scan_out_w p.scan_out_h p.scan_out_x p.scan_out_y,
          itoa-no_blank p.listen_port,
          h,
        )
        refl)
      (all_no_blank-both (surface_args p.ivi_surface_id) (domain_args p.sock_domain_name)
        (surface_args-no_blank p.ivi_surface_id) (domain_args-no_blank p.sock_domain_name k))
