-- ===== src/Log.antt =====
-- internal/ulog/ulog.go: the four logs of a program, over Go's package `log`, and how the programs of cmd/ set
-- them up.
pub mod Shown
mod Tests
use ucl_tools.Base.{
  ℕ, ◌+◌, Bool, true, false, ◌||◌, List, [], ◌∷◌, ◌++◌, if◌then◌else◌, ◌==◌, Text, text,
}

-- The writers that the programs give to a log.
pub data Out : Type 0 where
  discard stderr : Out

-- `Logger`, with what its `log.Logger` keeps.
pub record Logger : Type 0 where
  pub out : Out
  pub prefix : Text
  pub calldepth : ℕ

-- `New`; every log has the same flags.
unfoldable pub new : Out → Text → Logger
new out prefix = record { out = out; prefix = prefix; calldepth = 2 }

unfoldable pub set_output : Out → Logger → Logger
set_output w l = record l { out = w }

unfoldable pub set_prefix : Text → Logger → Logger
set_prefix prefix l = record l { prefix = prefix }

-- `DLog`, `ILog`, `WLog` and `ELog`.
pub record Logs : Type 0 where
  pub dlog : Logger
  pub ilog : Logger
  pub wlog : Logger
  pub elog : Logger

pub data Level : Type 0 where
  debug info warn error : Level

abbrev pub log_of : Logs → Level → Logger
log_of logs debug = logs.dlog
log_of logs info = logs.ilog
log_of logs warn = logs.wlog
log_of logs error = logs.elog

-- `init`.
unfoldable pub init : Logs
unfolding new
init = record {
  dlog = new discard (text "[dbg]");
  ilog = new discard (text "[info]");
  wlog = new stderr (text "[warn]");
  elog = new stderr (text "[err]");
}

-- `SetLogPrefix`.
abbrev pub spaced_name : Text → Text
spaced_name [] = []
spaced_name (c ∷ name) = (c ∷ name) ++ text " "

unfoldable pub set_log_prefix : Text → Logs → Logs
unfolding set_prefix
set_log_prefix app_name logs =
    let name = spaced_name app_name in
    record {
      dlog = set_prefix (text "[" ++ (name ++ text "dbg]")) logs.dlog;
      ilog = set_prefix (text "[" ++ (name ++ text "info]")) logs.ilog;
      wlog = set_prefix (text "[" ++ (name ++ text "warn]")) logs.wlog;
      elog = set_prefix (text "[" ++ (name ++ text "err]")) logs.elog;
    }

-- The flags `-v` and `-d` of a program.
unfoldable pub set_verbose : Bool → Logs → Logs
unfolding set_output
set_verbose verbose logs =
    if verbose then record logs { ilog = set_output stderr logs.ilog } else logs

unfoldable pub set_debug : Bool → Logs → Logs
unfolding set_output
set_debug debugging logs =
    if debugging then record logs { dlog = set_output stderr logs.dlog } else logs

-- The logs of a program behind its flags; `name` is what it gives to `SetLogPrefix`, and nothing for a
-- program that does not call it, whose prefixes are those of `init`.
unfoldable pub set_up : Bool → Bool → Text → Logs
unfolding init set_verbose set_debug set_log_prefix
set_up verbose debugging name = set_log_prefix name (set_debug debugging (set_verbose verbose init))

-- An operand of `fmt.Sprint`, printed: a string, or another value.
pub data Operand : Type 0 where
  string value : Text → Operand

abbrev pub printed : Operand → Text
printed (string s) = s
printed (value s) = s

abbrev pub is_string : Operand → Bool
is_string (string s) = true
is_string (value s) = false

-- `fmt.Sprint`: a blank between two operands of which neither is a string.
abbrev pub gap : Operand → Operand → Text
gap a b = if is_string a || is_string b then [] else text " "

unfoldable pub sprint : List Operand → Text
sprint [] = []
sprint (a ∷ []) = printed a
sprint (a ∷ b ∷ rest) = printed a ++ (gap a b ++ sprint (b ∷ rest))

-- `log.Logger.Output`, on what has been written to `os.Stderr`; `header` is the time and the place of the
-- call at a depth. A line that does not end in a line feed gets one.
unfoldable pub ends_in_line_feed : Text → Bool
ends_in_line_feed [] = false
ends_in_line_feed (c ∷ []) = c == 10
ends_in_line_feed (c ∷ d ∷ s) = ends_in_line_feed (d ∷ s)

unfoldable pub log_line : Text → Text → Text → Text
log_line prefix header s = prefix ++ (header ++ (if ends_in_line_feed s then s else s ++ 10 ∷ []))

abbrev pub written_to : Out → Text → Text → Text
written_to discard line err = err
written_to stderr line err = err ++ line

unfoldable pub output : Logger → (ℕ → Text) → Text → Text → Text
unfolding log_line
output l header s err = written_to l.out (log_line l.prefix (header l.calldepth) s) err

-- The methods of a `Logger`: `Printf` with the text that its format makes, `Print` and `Println` with their
-- operands, and those that end the program.
pub data LogCall : Type 0 where
  printf fatalf : Text → LogCall
  print println fatal fatalln : List Operand → LogCall

abbrev pub text_of : LogCall → Text
text_of (printf s) = s
text_of (fatalf s) = s
text_of (print v) = sprint v
text_of (println v) = sprint v
text_of (fatal v) = sprint v
text_of (fatalln v) = sprint v

abbrev pub is_fatal : LogCall → Bool
is_fatal (fatalf s) = true
is_fatal (fatal v) = true
is_fatal (fatalln v) = true
is_fatal _ = false

-- A call of a program on one of its logs, and where it is.
pub record Logged : Type 0 where
  pub level : Level
  pub header : ℕ → Text
  pub call : LogCall

-- What a program writes by its calls, and whether one of them ends it.
unfoldable pub run_calls : Logs → List Logged → Text → Text × Bool
unfolding output sprint
run_calls logs [] err = (err, false)
run_calls logs (e ∷ entries) err =
    let after = output (log_of logs e.level) e.header (text_of e.call) err in
    let rest = run_calls logs entries after in if is_fatal e.call then (after, true) else rest
