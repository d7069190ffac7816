-- ===== src/Station/Changes.antt =====
-- What the steps of kitchen-queue-log.service.ts do to the newest log of a queue, and to its phase.
use mathlib.Core.Path.{subst}
use gitrema_backend.Prelude.{
  ℕ, ◌≡◌, refl, sym, ap, ◌∙◌, inl, inr, true, false, not, Option, none, some, List, [], ◌∷◌, ◌==◌,
  String, arith, is_some, get_last?, get_last?-append, Bool-cases,
}
use gitrema_backend.Prelude.Action.{
  or_throw, throw_if, previous_open_instance, Outcome, done, failed, Failure, ◌>>=◌, ◌>>◌,
}
use gitrema_backend.Prelude.Collection.{
  find, update_first, find_sound, find-update_first, find-update_first_other,
}
use gitrema_backend.Cashier.{PausedLog, is_running, end_last}
use gitrema_backend.Station.State.{KitchenQueueLog, StationState, of_queue}
use gitrema_backend.Station.Service.{
  newest, save_changed, create_log, is_open, start, started, change, close_log, pause_log,
  resume_log,
}
use gitrema_backend.Station.Phase.{
  Phase, unstarted, shift, start_at, close_at, pause_at, resume_at, answer, phase_of_log, phase_of,
  phase_after,
}

-- The answer of the service, seen as the automaton's.
abbrev pub outcome_phase : Outcome KitchenQueueLog → Outcome Phase
outcome_phase (done l) = done (phase_of_log (some l))
outcome_phase (failed e) = failed e

-- The call answers what the automaton answers from the phase `p`, leaves the queue in the phase
-- that the automaton goes to, and does not touch another queue.
abbrev pub Implements :
    ℕ → Outcome Phase → Phase → StationState → Outcome KitchenQueueLog × StationState → Type 0
Implements qid expected p s result =
    (outcome_phase result.0 ≡ expected)
    × (phase_of qid result.1 ≡ phase_after expected p)
    × ((other : ℕ) → (qid == other) ≡ false → newest other result.1 ≡ newest other s)

pub same_key : (a b c : ℕ) → b ≡ a → (a == c) ≡ true → (b == c) ≡ true
same_key a b c e h = ground arith

pub other_key : (a b c : ℕ) → (a == b) ≡ true → (b == c) ≡ false → (a == c) ≡ false
other_key a b c e h = ground arith

-- Writing a log of the queue back changes what is found for this queue only.
pub newest_saved :
    (qid : ℕ) (s : StationState) (l l' : KitchenQueueLog)
    → newest qid s ≡ some l
    → l'.kitchen_queue_id ≡ l.kitchen_queue_id
    → (find (of_queue qid) (update_first (of_queue qid) (λ _. l') s.logs) ≡ some l')
      × ((other : ℕ)
          → (qid == other) ≡ false
          → find (of_queue other) (update_first (of_queue qid) (λ _. l') s.logs) ≡ newest other s)
newest_saved qid s l l' e kept =
    let own = find_sound (of_queue qid) s.logs l e in
    let own' = same_key l.kitchen_queue_id l'.kitchen_queue_id qid kept own in
    (
      find-update_first (of_queue qid) (λ _. l') s.logs l e own',
      λ other differs.
          find-update_first_other (of_queue qid) (of_queue other) (λ _. l') s.logs l e
            (other_key l.kitchen_queue_id qid other own differs)
            (other_key l'.kitchen_queue_id qid other own' differs),
    )

-- What `change` does with the log that it found.
pub change_found :
    (missing : Failure) (f : KitchenQueueLog → Outcome KitchenQueueLog) (qid : ℕ) (s : StationState)
    (l : KitchenQueueLog)
    → newest qid s ≡ some l
    → ((l' : KitchenQueueLog) → f l ≡ done l' → l'.kitchen_queue_id ≡ l.kitchen_queue_id)
    → Implements qid (outcome_phase (f l)) (phase_of_log (some l)) s (change missing f qid s)
unfolding change
change_found missing f qid s l e keeps =
    subst
      (λ r.
        Implements qid (outcome_phase (f l)) (phase_of_log (some l)) s
          ((or_throw r missing >>= save_changed f qid) s))
      (sym e) (saved (f l) keeps)
  where
    saved :
        (r : Outcome KitchenQueueLog)
        → ((l' : KitchenQueueLog) → r ≡ done l' → l'.kitchen_queue_id ≡ l.kitchen_queue_id)
        → Implements qid
            (outcome_phase r)
            (phase_of_log (some l))
            s
            (elim r as (λ _. Outcome KitchenQueueLog × StationState) [
              | done l' ↦
                  (done l', record s { logs = update_first (of_queue qid) (λ _. l') s.logs })
              | failed x ↦ (failed x, s)
            ])
    saved (done l') k =
        let (found, others) = newest_saved qid s l l' e (k l' refl) in
        (refl, ap phase_of_log found, others)
    saved (failed x) k = (refl, ap phase_of_log e, λ other differs. refl)

pub change_missing :
    (missing : Failure) (f : KitchenQueueLog → Outcome KitchenQueueLog) (qid : ℕ) (s : StationState)
    → newest qid s ≡ none
    → Implements qid (failed missing) unstarted s (change missing f qid s)
unfolding change
change_missing missing f qid s e =
    subst
      (λ r.
        Implements qid (failed missing) unstarted s ((or_throw r missing >>= save_changed f qid) s))
      (sym e) (refl, ap phase_of_log e, λ other differs. refl)

pub is_same : (a : ℕ) → (a == a) ≡ true
is_same a = ground arith

pub create_log-Implements :
    (supplier_id now qid : ℕ) (s : StationState) (p : Phase)
    → Implements qid (done (shift true false)) p s (create_log supplier_id now qid s)
unfolding started
create_log-Implements supplier_id now qid s p =
    (refl, rw (is_same qid) refl, λ other differs. rw differs refl)

-- `start` behind the search.
pub start-Implements :
    (supplier_id now qid : ℕ) (s : StationState) (last : Option KitchenQueueLog)
    → newest qid s ≡ last
    → Implements qid
        (answer (start_at now) (phase_of_log last))
        (phase_of_log last)
        s
        (start supplier_id now qid s)
unfolding start
start-Implements supplier_id now qid s last e =
    subst
      (λ x.
        Implements qid (answer (start_at now) (phase_of_log last)) (phase_of_log last) s
          ((throw_if (is_open x) previous_open_instance >> create_log supplier_id now qid) s))
      (sym e) (from last e)
  where
    from :
        (x : Option KitchenQueueLog)
        → newest qid s ≡ x
        → Implements qid
            (answer (start_at now) (phase_of_log x))
            (phase_of_log x)
            s
            ((throw_if (is_open x) previous_open_instance >> create_log supplier_id now qid) s)
    from none e = create_log-Implements supplier_id now qid s unstarted
    from (some l) e = elim (Bool-cases (is_some l.closed_at)) [
      | inl closed ↦ rw closed (
          create_log-Implements supplier_id now qid s
            (shift false (is_running (get_last? l.paused_logs))))
      | inr runs ↦ rw runs (
        refl,
        (ap phase_of_log e ∙ ap (λ x. shift (not x) (is_running (get_last? l.paused_logs))) runs),
        λ other differs. refl,
      )
    ]

pub close_log-phase :
    (now : ℕ) (l : KitchenQueueLog)
    → outcome_phase (close_log now l) ≡ answer (close_at now) (phase_of_log (some l))
unfolding close_log
close_log-phase now l = ground arith

pub end_last-stops :
    (now : ℕ) (ps : List PausedLog) → is_running (get_last? (end_last now ps)) ≡ false
unfolding end_last
end_last-stops now [] = refl
end_last-stops now (p ∷ []) = refl
end_last-stops now (p ∷ q ∷ []) = refl
end_last-stops now (p ∷ q ∷ r ∷ ps) = end_last-stops now (q ∷ r ∷ ps)

pub pause_log-phase :
    (reason : String) (now : ℕ) (l : KitchenQueueLog)
    → outcome_phase (pause_log reason now l) ≡ answer (pause_at reason now) (phase_of_log (some l))
unfolding pause_log
pause_log-phase reason now l = elim (Bool-cases (is_running (get_last? l.paused_logs))) [
  | inl t ↦ rw t refl
  | inr f ↦ rw f (
      ap (λ x. done (shift (not (is_some l.closed_at)) (is_running x)))
        (get_last?-append l.paused_logs _))
]

pub resume_log-phase :
    (now : ℕ) (l : KitchenQueueLog)
    → outcome_phase (resume_log now l) ≡ answer (resume_at now) (phase_of_log (some l))
unfolding resume_log
resume_log-phase now l = elim (Bool-cases (is_running (get_last? l.paused_logs))) [
  | inl t ↦
      rw t (ap (λ b. done (shift (not (is_some l.closed_at)) b)) (end_last-stops now l.paused_logs))
  | inr f ↦ rw f refl
]
