-- ===== src/Log/Tests.antt =====
-- The lines of a small run, and what becomes of operands.
use ucl_tools.Base.{◌≡◌, refl, true, false, [], ◌∷◌, ◌++◌, text}
use ucl_tools.Log.{
  info, warn, error, string, value, sprint, printf, println, fatalln, Logged, Level, LogCall,
  run_calls, set_up, log_line, ends_in_line_feed,
}
use ucl_tools.Log.Shown.{run_calls-shown_lines}

-- `Println` puts no blank next to a string, unlike that of Go's `log`.
joined :
    sprint (string (text "cmd.Start fail:") ∷ value (text "no such file") ∷ [])
    ≡ text "cmd.Start fail:no such file"
unfolding sprint
joined = refl

spaced : sprint (value (text "1") ∷ value (text "2") ∷ []) ≡ text "1 2"
unfolding sprint
spaced = refl

abbrev called : Level → LogCall → Logged
called level call = record { level = level; header = λ depth. text "main.go: "; call = call }

run_calls-shown_lines_example :
    run_calls
      (set_up false true (text "wl-recv"))
      (called info (printf (text "start"))
        ∷ called warn (println (string (text "slow") ∷ []))
        ∷ called error (fatalln (string (text "gone") ∷ []))
        ∷ called error (printf (text "never"))
        ∷ [])
      []
    ≡ (
      text "[wl-recv warn]main.go: slow" ++ (10 ∷ text "[wl-recv err]main.go: gone") ++ 10 ∷ [],
      true,
    )
unfolding log_line ends_in_line_feed sprint
run_calls-shown_lines_example =
    run_calls-shown_lines false true (text "wl-recv")
      (called info (printf (text "start"))
        ∷ called warn (println (string (text "slow") ∷ []))
        ∷ called error (fatalln (string (text "gone") ∷ []))
        ∷ called error (printf (text "never"))
        ∷ [])
      []
