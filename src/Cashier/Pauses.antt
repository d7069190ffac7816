-- ===== src/Cashier/Pauses.antt =====
-- The pauses of a shift: `pause` of src/cashier/cashier-log.service.ts.
use mathlib.Core.Path.{subst}
use gitrema_backend.Prelude.{
  ℕ, suc, ◌+◌, ◌≡◌, refl, ◌⊎◌, inl, inr, true, false, some, none, List, [], ◌∷◌, ◌++◌, String,
  arith, ap, is_some, get_last?, length, length-append, get_last?-append, Bool-cases,
}
use gitrema_backend.Prelude.Action.{done, failed, done-injective, already_paused, nothing_to_resume}
use gitrema_backend.Cashier.State.{PausedLog, CashierLog}
use gitrema_backend.Cashier.Log.{is_running, pause_log, end_last, resume_log}

abbrev new_pause : String → ℕ → PausedLog
new_pause reason now = record { reason = reason; start = now; end = none }

-- Every pause but the last has ended.
abbrev pub OnlyLastRuns : List PausedLog → Type 0
OnlyLastRuns [] = Unit
OnlyLastRuns (p ∷ []) = Unit
OnlyLastRuns (p ∷ q ∷ ps) = (is_some p.end ≡ true) × OnlyLastRuns (q ∷ ps)

push-OnlyLastRuns :
    (x : PausedLog) (ps : List PausedLog)
    → is_running (get_last? ps) ≡ false
    → OnlyLastRuns ps
    → OnlyLastRuns (ps ++ (x ∷ [])) × (get_last? (ps ++ (x ∷ [])) ≡ some x)
push-OnlyLastRuns x [] e h = (tt, refl)
push-OnlyLastRuns x (p ∷ []) e h = ground arith
push-OnlyLastRuns x (p ∷ q ∷ ps) e h =
    let (rest, last) = push-OnlyLastRuns x (q ∷ ps) e h.1 in ((h.0, rest), last)

end_last-OnlyLastRuns :
    (now : ℕ) (ps : List PausedLog)
    → OnlyLastRuns ps
    → OnlyLastRuns (end_last now ps)
      × (is_running (get_last? (end_last now ps)) ≡ false)
      × (length (end_last now ps) ≡ length ps)
unfolding end_last
end_last-OnlyLastRuns now [] h = (tt, refl, refl)
end_last-OnlyLastRuns now (p ∷ []) h = (tt, refl, refl)
end_last-OnlyLastRuns now (p ∷ q ∷ []) h = (h, refl, refl)
end_last-OnlyLastRuns now (p ∷ q ∷ r ∷ ps) h =
    let (ended, stopped, kept) = end_last-OnlyLastRuns now (q ∷ r ∷ ps) h.1 in
    ((h.0, ended), stopped, ap suc kept)

abbrev pub IsPaused : CashierLog → Type 0
IsPaused l = is_running (get_last? l.paused_logs) ≡ true

-- What `pause` and `resume` do with a shift that is paused: the first throws, the second ends
-- the last pause.
abbrev pub PausedOutcome : String → ℕ → CashierLog → Type 0
PausedOutcome reason now l =
    IsPaused l
    × (pause_log reason now l ≡ failed already_paused)
    × ((l' : CashierLog) × (resume_log now l ≡ done l')
        × ¬ IsPaused l'
        × OnlyLastRuns l'.paused_logs
        × (length l'.paused_logs ≡ length l.paused_logs))

-- And with one that is not: the first adds a pause, the second throws.
abbrev pub RunningOutcome : String → ℕ → CashierLog → Type 0
RunningOutcome reason now l =
    ¬ IsPaused l
    × (resume_log now l ≡ failed nothing_to_resume)
    × ((l' : CashierLog) × (pause_log reason now l ≡ done l')
        × IsPaused l'
        × OnlyLastRuns l'.paused_logs
        × (length l'.paused_logs ≡ length l.paused_logs + 1))

-- A shift whose pauses have all ended, but for the last perhaps, is paused or not. In the first
-- case `pause` throws `AlreadyPaused` and `resume` ends the pause; in the second `resume` throws
-- `NothingToResume` and `pause` adds one that runs. Both leave only the last pause running.
pub pauses_alternate :
    (reason : String) (now : ℕ) (l : CashierLog)
    → OnlyLastRuns l.paused_logs
    → PausedOutcome reason now l ⊎ RunningOutcome reason now l
unfolding pause_log resume_log
pauses_alternate reason now l h = elim (Bool-cases (is_running (get_last? l.paused_logs))) [
  | inl paused ↦
      let (ended, stopped, kept) = end_last-OnlyLastRuns now l.paused_logs h in
      inl (
        paused,
        rw paused,
        (record l { paused_logs = end_last now l.paused_logs }, rw paused, λ e. cc, ended, kept),
      )
  | inr running ↦
      let (only, last) = push-OnlyLastRuns (new_pause reason now) l.paused_logs running h in
      inr (
        λ e. cc,
        rw running,
        (
          record l { paused_logs = l.paused_logs ++ (new_pause reason now ∷ []) },
          rw running,
          rw last,
          only,
          length-append l.paused_logs (new_pause reason now ∷ []),
        ),
      )
]

end_last-append :
    (now : ℕ) (ps : List PausedLog) (x : PausedLog)
    → end_last now (ps ++ (x ∷ [])) ≡ ps ++ (record x { end = some now } ∷ [])
unfolding end_last
end_last-append now [] x = refl
end_last-append now (p ∷ []) x = refl
end_last-append now (p ∷ q ∷ ps) x = ap (λ r. p ∷ r) (end_last-append now (q ∷ ps) x)

-- A shift that is not paused, paused at `t` and resumed at `u`, differs from before by one more
-- pause, with that reason, start and end, behind the others.
pub resume-pause :
    (reason : String) (t u : ℕ) (l l' : CashierLog)
    → ¬ IsPaused l
    → pause_log reason t l ≡ done l'
    → resume_log u l'
      ≡ done (record l {
        paused_logs = l.paused_logs ++ (record { reason = reason; start = t; end = some u } ∷ []);
      })
unfolding pause_log resume_log
resume-pause reason t u l l' free e = elim (Bool-cases (is_running (get_last? l.paused_logs))) [
  | inl paused ↦ absurd (free paused)
  | inr running ↦
      let moved : record l { paused_logs = l.paused_logs ++ (new_pause reason t ∷ []) } ≡ l' =
        done-injective (rw running at e) in
      subst
        (λ z.
          resume_log u z
          ≡ done (record l {
            paused_logs =
                l.paused_logs ++ (record { reason = reason; start = t; end = some u } ∷ []);
          }))
        moved
        (rw (get_last?-append l.paused_logs (new_pause reason t))
          (rw (end_last-append u l.paused_logs (new_pause reason t)) refl))
]
