-- ===== src/Client/Library.antt =====
-- pkg/ucl-client-lib/ucl_client.go: the exported functions that return a code.
use ucl_tools.Base.{
  ◌-◌, ◌%◌, ◌^◌, ◌≡◌, refl, ◌⊎◌, inl, inr, Bool, Option, none, some, List, [], ◌∷◌, arith, ltb,
  if◌then◌else◌, Bool-cases, Text, ℤ, pos, negsuc,
}
use ucl_tools.Server.{Response}
use ucl_tools.Client.{
  Call, parse_status, parse_info, code_of, status_code, dcm_client_get_app_status,
  dcm_client_run_app_command, dcm_client_run_app, dcm_client_run_app_async, dcm_client_stop_app,
  dcm_client_stop_app_all, dcm_client_launch_compositor, dcm_client_launch_compositor_async,
  dcm_client_stop_compositor,
}

-- `C.int` of a Go `int`: 32 bits in two's complement.
unfoldable pub c_int : ℤ → ℤ
c_int (pos n) = let r = n % 2 ^ 32 in if ltb r (2 ^ 31) then pos r else negsuc (2 ^ 32 - 1 - r)
c_int (negsuc n) = let r = n % 2 ^ 32 in if ltb r (2 ^ 31) then negsuc r else pos (2 ^ 32 - 1 - r)

-- The exported functions, each with the text of its argument.
pub data Exported : Type 0 where
  get_app_status run_app_command run_app run_app_async run_app_async_cb stop_app : Text → Exported
  stop_app_all launch_compositor launch_compositor_async launch_compositor_async_cb
        stop_compositor :
      Exported

-- What an exported function returns, over what `uclLcmConnection` returns, the call that it makes, what
-- reading the file of a command gives, and whether it is a document. The two with a callback start their
-- client call as a goroutine.
unfoldable pub exported :
    Option (Option Text) → (Exported → Call) → (Text → Option Text) → (Text → Bool) → Exported → ℤ
unfolding c_int
exported conn call read_file is_json (get_app_status name) =
    c_int (dcm_client_get_app_status conn (call (get_app_status name)))
exported conn call read_file is_json (run_app_command path) = c_int (
    dcm_client_run_app_command (read_file path) is_json conn
      (λ content. call (run_app_command content)))
exported conn call read_file is_json (run_app name) =
    c_int (dcm_client_run_app conn (call (run_app name)))
exported conn call read_file is_json (run_app_async name) =
    c_int (dcm_client_run_app_async conn (call (run_app_async name)))
exported conn call read_file is_json (run_app_async_cb name) = pos 0
exported conn call read_file is_json (stop_app name) =
    c_int (dcm_client_stop_app conn (call (stop_app name)))
exported conn call read_file is_json stop_app_all =
    c_int (dcm_client_stop_app_all conn (call stop_app_all))
exported conn call read_file is_json launch_compositor =
    c_int (dcm_client_launch_compositor conn (call launch_compositor))
exported conn call read_file is_json launch_compositor_async =
    c_int (dcm_client_launch_compositor_async conn (call launch_compositor_async))
exported conn call read_file is_json launch_compositor_async_cb = pos 0
exported conn call read_file is_json stop_compositor =
    c_int (dcm_client_stop_compositor conn (call stop_compositor))

-- `doCallbackFunc`.
pub data CallbackDeed : Type 0 where
  lock_mutex invoke unlock_mutex : CallbackDeed

unfoldable pub do_callback_func : Bool → List CallbackDeed
do_callback_func is_null =
    lock_mutex ∷ (if is_null then unlock_mutex ∷ [] else invoke ∷ unlock_mutex ∷ [])

-- The codes of the client.
abbrev pub IsCode : ℤ → Type 0
IsCode z = ((z ≡ negsuc 0) ⊎ (z ≡ pos 0)) ⊎ ((z ≡ pos 1) ⊎ (z ≡ pos 2))

parse_status-IsCode : (status : Text) → IsCode (parse_status status)
unfolding parse_status
parse_status-IsCode status = ground arith

parse_info-IsCode : (info : Text) → IsCode (parse_info info)
unfolding parse_info
parse_info-IsCode info = ground arith

code_of-IsCode :
    (parse : Response → ℤ) (conn : Option (Option Text)) (call : Call)
    → ((resp : Response) → IsCode (parse resp))
    → IsCode (code_of parse conn call)
code_of-IsCode parse none call h = inl (inl refl)
code_of-IsCode parse (some conn) call h =
    elim (call conn) as (λ o. IsCode (elim o [ none ↦ negsuc 0 | some resp ↦ parse resp ])) [
      | none ↦ inl (inl refl)
      | some resp ↦ h resp
    ]

c_int-IsCode : (z : ℤ) → IsCode z → IsCode (c_int z)
unfolding c_int
c_int-IsCode z (inl (inl e)) = rw e (inl (inl refl))
c_int-IsCode z (inl (inr e)) = rw e (inl (inr refl))
c_int-IsCode z (inr (inl e)) = rw e (inr (inl refl))
c_int-IsCode z (inr (inr e)) = rw e (inr (inr refl))

status-IsCode :
    (conn : Option (Option Text)) (call : Call) → IsCode (c_int (code_of status_code conn call))
status-IsCode conn call =
    c_int-IsCode (code_of status_code conn call)
      (code_of-IsCode status_code conn call (λ resp. parse_status-IsCode resp.status))

-- Whatever the manager answers, and whether or not a connection comes of it, every exported function
-- returns one of the four codes -1, 0, 1 and 2: the conversion to a C `int` makes no other of them.
pub exported-IsCode :
    (conn : Option (Option Text)) (call : Exported → Call) (read_file : Text → Option Text)
    (is_json : Text → Bool) (f : Exported)
    → IsCode (exported conn call read_file is_json f)
unfolding exported dcm_client_get_app_status dcm_client_run_app_command dcm_client_run_app
    dcm_client_run_app_async dcm_client_stop_app dcm_client_stop_app_all
    dcm_client_launch_compositor dcm_client_launch_compositor_async dcm_client_stop_compositor
exported-IsCode conn call read_file is_json (get_app_status name) = c_int-IsCode _ (
    code_of-IsCode (λ resp. parse_info resp.info) conn (call (get_app_status name))
      (λ resp. parse_info-IsCode resp.info))
exported-IsCode conn call read_file is_json (run_app_command path) = command (read_file path)
  where
    command :
        (file : Option Text)
        → IsCode (
            c_int (
              dcm_client_run_app_command file is_json conn
                (λ content. call (run_app_command content))))
    command none = unfold dcm_client_run_app_command in c_int-IsCode (negsuc 0) (inl (inl refl))
    command (some content) = elim (Bool-cases (is_json content)) [
      | inl e ↦
          unfold dcm_client_run_app_command in
          rw e (status-IsCode conn (call (run_app_command content)))
      | inr e ↦ unfold dcm_client_run_app_command in rw e (c_int-IsCode (negsuc 0) (inl (inl refl)))
    ]
exported-IsCode conn call read_file is_json (run_app name) =
    status-IsCode conn (call (run_app name))
exported-IsCode conn call read_file is_json (run_app_async name) =
    status-IsCode conn (call (run_app_async name))
exported-IsCode conn call read_file is_json (run_app_async_cb name) = inl (inr refl)
exported-IsCode conn call read_file is_json (stop_app name) =
    status-IsCode conn (call (stop_app name))
exported-IsCode conn call read_file is_json stop_app_all = status-IsCode conn (call stop_app_all)
exported-IsCode conn call read_file is_json launch_compositor =
    status-IsCode conn (call launch_compositor)
exported-IsCode conn call read_file is_json launch_compositor_async =
    status-IsCode conn (call launch_compositor_async)
exported-IsCode conn call read_file is_json launch_compositor_async_cb = inl (inr refl)
exported-IsCode conn call read_file is_json stop_compositor =
    status-IsCode conn (call stop_compositor)
