-- ===== src/Keeper/Alive.antt =====
-- The watch over a node: `NkeepMaster`.
use ucl_tools.Base.{
  ℕ, zero, suc, ◌+◌, ◌<◌, ◌≡◌, ap, ◌∙◌, some, List, [], ◌∷◌, ◌++◌, arith, length, All, replicate,
}
use ucl_tools.Keeper.{
  Watch, WatchEvent, second, answer, watching, nkeep_step, nkeep_master, retry_interval,
  timeout_interval,
}

-- A node that answers each check after fewer than four seconds, and is asked again ten seconds later.
abbrev pub rounds : List ℕ → List WatchEvent
rounds [] = []
rounds (delay ∷ delays) =
    replicate delay second ++ answer ∷ (replicate retry_interval second ++ rounds delays)

-- The watch just after a check was sent.
abbrev pub asked : ℕ → Watch
asked checks = record {
  send_in = retry_interval;
  overdue_in = some timeout_interval;
  checks = checks;
}

one_more :
    (delays : List ℕ) (checks : ℕ)
    → watching (asked (checks + 1 + length delays))
      ≡ watching (asked (checks + suc (length delays)))
one_more delays checks = ap (λ n. watching (asked n)) (omega arith)

-- A node that answers every check in time is never given up, and after every answer it is asked once
-- more.
pub nkeep_alive :
    (delays : List ℕ) (checks : ℕ)
    → All (λ d. d < timeout_interval) delays
    → nkeep_master (asked checks) (rounds delays) ≡ watching (asked (checks + length delays))
unfolding nkeep_master nkeep_step replicate
nkeep_alive [] checks h = ground arith
nkeep_alive (zero ∷ delays) checks h = nkeep_alive delays (checks + 1) h.1 ∙ one_more delays checks
nkeep_alive (suc zero ∷ delays) checks h =
    nkeep_alive delays (checks + 1) h.1 ∙ one_more delays checks
nkeep_alive (suc (suc zero) ∷ delays) checks h =
    nkeep_alive delays (checks + 1) h.1 ∙ one_more delays checks
nkeep_alive (suc (suc (suc zero)) ∷ delays) checks h =
    nkeep_alive delays (checks + 1) h.1 ∙ one_more delays checks
nkeep_alive (suc (suc (suc (suc d))) ∷ delays) checks h = absurd (omega arith)
