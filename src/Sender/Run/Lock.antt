-- ===== src/Sender/Run/Lock.antt =====
-- The lock of wl-send over a whole run.
use ucl_tools.Base.{
  ℕ, ◌≡◌, refl, Bool, true, false, not, Option, none, some, List, [], ◌∷◌, if◌then◌else◌, text,
  Text,
}
use ucl_tools.Flags.{Parsed, parsed, exits, parse_flags, value_of, values_of}
use ucl_tools.Sender.{wait_for_connection_established, reserve_rvgpu_index}
use ucl_tools.Sender.Run.{
  Host, Child, proxy, wl_proxy, app, Act, lock, unlock, kill_self, wait_all, exit_one, exit_usage,
  stays, start, register_all, at_wait_all, flags, targets_of, run_app, run_wl_proxy, connect_all,
  run_proxy, run_locked, run_scanned, run_parsed, sender_main,
}

-- The lock behind a list of acts: it is taken when it is free, given back when it is held, rvgpu-proxy is
-- started under it, and the other two processes are not. `none` if one of these fails.
unfoldable pub lock_after : Bool → List Act → Option Bool
lock_after held [] = some held
lock_after false (lock ∷ acts) = lock_after true acts
lock_after true (lock ∷ acts) = none
lock_after true (unlock ∷ acts) = lock_after false acts
lock_after false (unlock ∷ acts) = none
lock_after true (start proxy args env ∷ acts) = lock_after true acts
lock_after false (start proxy args env ∷ acts) = none
lock_after false (start wl_proxy args env ∷ acts) = lock_after false acts
lock_after true (start wl_proxy args env ∷ acts) = none
lock_after false (start app args env ∷ acts) = lock_after false acts
lock_after true (start app args env ∷ acts) = none
lock_after held (act ∷ acts) = lock_after held acts

register_all-lock :
    (made : List (Child × Bool)) (next : List Act)
    → lock_after false next ≡ some false
    → lock_after false (register_all made next) ≡ some false
unfolding register_all lock_after
register_all-lock [] next h = h
register_all-lock ((child, true) ∷ made) next h = register_all-lock made next h
register_all-lock ((child, false) ∷ made) next h = refl

at_wait_all-lock :
    (held : Bool) (made : List (Child × Bool)) (failed : Bool)
    → lock_after held (at_wait_all held made failed) ≡ some false
unfolding at_wait_all lock_after
at_wait_all-lock true made true = register_all-lock made (kill_self ∷ wait_all ∷ []) refl
at_wait_all-lock true made false = register_all-lock made (wait_all ∷ []) refl
at_wait_all-lock false made true = register_all-lock made (kill_self ∷ wait_all ∷ []) refl
at_wait_all-lock false made false = register_all-lock made (wait_all ∷ []) refl

if-lock :
    (b held : Bool) (x y : List Act)
    → lock_after held x ≡ some false
    → lock_after held y ≡ some false
    → lock_after held (if b then x else y) ≡ some false
if-lock true held x y h k = h
if-lock false held x y h k = k

-- The next act leaves the lock as it is, takes it, or gives it back, and so does the rest.
module _ (acts : List Act) (args env : List Text) where
  start_app-lock :
      lock_after false acts ≡ some false → lock_after false (start app args env ∷ acts) ≡ some false
  unfolding lock_after
  start_app-lock h = h

  start_wl_proxy-lock :
      lock_after false acts ≡ some false
      → lock_after false (start wl_proxy args env ∷ acts) ≡ some false
  unfolding lock_after
  start_wl_proxy-lock h = h

  start_proxy-lock :
      lock_after true acts ≡ some false → lock_after true (start proxy args env ∷ acts) ≡ some false
  unfolding lock_after
  start_proxy-lock h = h

lock-lock :
    (acts : List Act)
    → lock_after true acts ≡ some false
    → lock_after false (lock ∷ acts) ≡ some false
unfolding lock_after
lock-lock acts h = h

unlock-lock :
    (acts : List Act)
    → lock_after false acts ≡ some false
    → lock_after true (unlock ∷ acts) ≡ some false
unfolding lock_after
unlock-lock acts h = h

exit_one-lock : lock_after false (exit_one ∷ []) ≡ some false
unfolding lock_after
exit_one-lock = refl

exit_usage-lock : lock_after false (exit_usage ∷ []) ≡ some false
unfolding lock_after
exit_usage-lock = refl

stays-lock : lock_after false (stays ∷ []) ≡ some false
unfolding lock_after
stays-lock = refl

module _ (host : Host) where
  run_app-lock :
      (card : ℕ) (command : List Text) → lock_after false (run_app host card command) ≡ some false
  unfolding run_app
  run_app-lock card command =
      let ok = host.starts command in
      start_app-lock _ _ _
        (at_wait_all-lock false ((app, ok) ∷ (wl_proxy, true) ∷ (proxy, true) ∷ []) (not ok))

  run_wl_proxy-lock :
      (card : ℕ) (size : Text) (command : List Text)
      → lock_after false (run_wl_proxy host card size command) ≡ some false
  unfolding run_wl_proxy
  run_wl_proxy-lock card size command = start_wl_proxy-lock _ _ _ (
      if-lock _ false _ _ (at_wait_all-lock false ((wl_proxy, false) ∷ (proxy, true) ∷ []) true) (
        if-lock _ false _ _ (at_wait_all-lock false ((wl_proxy, true) ∷ (proxy, true) ∷ []) true)
          (run_app-lock card command)))

  connect_all-lock :
      (targets : List Text) (next : List Act)
      → lock_after false next ≡ some false
      → lock_after false (connect_all host targets next) ≡ some false
  unfolding connect_all
  connect_all-lock [] next h = h
  connect_all-lock (target ∷ targets) next h =
      let rest = connect_all host targets next in
      let rest-lock : lock_after false rest ≡ some false = connect_all-lock targets next h in
      elim (host.split_host_port target)
        as (λ o.
          lock_after false (elim o [
            | none ↦ exit_one ∷ []
            | some (ip, port) ↦ elim (wait_for_connection_established (host.ticks ip port)) [
              | none ↦ stays ∷ []
              | some false ↦ at_wait_all false ((proxy, true) ∷ []) true
              | some true ↦ rest
            ]
          ])
          ≡ some false) [
            | none ↦ exit_one-lock
            | some (ip, port) ↦
                elim (wait_for_connection_established (host.ticks ip port))
                  as (λ o.
                    lock_after false (elim o [
                      | none ↦ stays ∷ []
                      | some false ↦ at_wait_all false ((proxy, true) ∷ []) true
                      | some true ↦ rest
                    ])
                    ≡ some false) [
                      | none ↦ stays-lock
                      | some false ↦ at_wait_all-lock false ((proxy, true) ∷ []) true
                      | some true ↦ rest-lock
                    ]
          ]

  run_proxy-lock :
      (card : ℕ) (screen size : Text) (targets : List Text) (name : Text) (command : List Text)
      → lock_after true (run_proxy host card screen size targets name command) ≡ some false
  unfolding run_proxy
  run_proxy-lock card screen size targets name command = start_proxy-lock _ _ _ (
      if-lock _ true _ _ (at_wait_all-lock true ((proxy, false) ∷ []) true) (
        if-lock _ true _ _ (at_wait_all-lock true ((proxy, true) ∷ []) true) (
          unlock-lock _ (
            connect_all-lock targets (run_wl_proxy host card size command)
              (run_wl_proxy-lock card size command)))))

  run_locked-lock :
      (screen size : Text) (targets : List Text) (name : Text) (command : List Text)
      → lock_after false (run_locked host screen size targets name command) ≡ some false
  unfolding run_locked
  run_locked-lock screen size targets name command =
      if-lock _ false _ _ exit_one-lock
        (elim ((reserve_rvgpu_index host.exists host.index_file).1)
          as (λ o.
            lock_after false (elim o [
              | none ↦ lock ∷ unlock ∷ exit_one ∷ []
              | some card ↦ lock ∷ run_proxy host card screen size targets name command
            ])
            ≡ some false) [
              | none ↦ lock-lock _ (unlock-lock _ exit_one-lock)
              | some card ↦ lock-lock _ (run_proxy-lock card screen size targets name command)
            ])

  run_scanned-lock :
      (screen : Text) (targets : List Text) (name : Text) (command : List Text)
      → lock_after false (run_scanned host screen targets name command) ≡ some false
  unfolding run_scanned
  run_scanned-lock screen targets name command =
      elim (host.scan_size screen)
        as (λ o.
          lock_after false (elim o [
            | none ↦ exit_one ∷ []
            | some size ↦ run_locked host screen size targets name command
          ])
          ≡ some false) [
            | none ↦ exit_one-lock
            | some size ↦ run_locked-lock screen size targets name command
          ]

  run_parsed-lock : (p : Parsed) → lock_after false (run_parsed host p) ≡ some false
  unfolding run_parsed
  run_parsed-lock exits = exit_usage-lock
  run_parsed-lock (parsed settings []) = exit_one-lock
  run_parsed-lock (parsed settings (target_app ∷ app_options)) =
      run_scanned-lock (value_of (text "s") (text "1920x1080@0,0") settings)
        (targets_of (values_of (text "n") settings)) (value_of (text "appli_name") [] settings)
        (target_app ∷ app_options)

-- Whatever its arguments and whatever its host answers, wl-send takes the lock only when it does not hold
-- it, gives back only a lock that it holds, starts rvgpu-proxy while it holds it and the other processes
-- while it does not, and does not hold it where it ends or waits.
pub sender_main-lock :
    (host : Host) (args : List Text) → lock_after false (sender_main host args) ≡ some false
unfolding sender_main
sender_main-lock host args = run_parsed-lock host (parse_flags flags args)
