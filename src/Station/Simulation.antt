-- ===== src/Station/Simulation.antt =====
-- kitchen-queue-log.service.ts implements the automaton of module Phase.
use mathlib.Core.Path.{subst}
use gitrema_backend.Prelude.{
  ℕ, ◌≡◌, refl, ap, ◌∙◌, false, Option, none, some, List, [], ◌∷◌, ◌==◌, String, arith,
}
use gitrema_backend.Prelude.Action.{done, type_error, record_not_found}
use gitrema_backend.Station.State.{KitchenQueueLog, StationState}
use gitrema_backend.Station.Service.{newest, change, close, close_log, pause, pause_log, resume_log}
use gitrema_backend.Station.Phase.{
  Command, start_at, close_at, pause_at, resume_at, answer, serve, phase_of_log, phase_of,
  serve_all, phase_after, follow,
}
use gitrema_backend.Station.Changes.{
  outcome_phase, Implements, change_found, change_missing, start-Implements, close_log-phase,
  pause_log-phase, resume_log-phase,
}

-- None of the changes moves a log to another queue.
close_log-queue :
    (now : ℕ) (l l' : KitchenQueueLog)
    → close_log now l ≡ done l'
    → l'.kitchen_queue_id ≡ l.kitchen_queue_id
unfolding close_log
close_log-queue now l l' e = ground arith

pause_log-queue :
    (reason : String) (now : ℕ) (l l' : KitchenQueueLog)
    → pause_log reason now l ≡ done l'
    → l'.kitchen_queue_id ≡ l.kitchen_queue_id
unfolding pause_log
pause_log-queue reason now l l' e = ground arith

resume_log-queue :
    (now : ℕ) (l l' : KitchenQueueLog)
    → resume_log now l ≡ done l'
    → l'.kitchen_queue_id ≡ l.kitchen_queue_id
unfolding resume_log
resume_log-queue now l l' e = ground arith

-- A request, served where the newest log is known.
serve_known :
    (supplier_id qid : ℕ) (c : Command) (s : StationState) (last : Option KitchenQueueLog)
    → newest qid s ≡ last
    → Implements qid
        (answer c (phase_of_log last))
        (phase_of_log last)
        s
        (serve supplier_id qid c s)
unfolding close pause
serve_known supplier_id qid (start_at now) s last e = start-Implements supplier_id now qid s last e
serve_known supplier_id qid (close_at now) s none e =
    change_missing type_error (close_log now) qid s e
serve_known supplier_id qid (close_at now) s (some l) e =
    subst
      (λ x. Implements qid x (phase_of_log (some l)) s (change type_error (close_log now) qid s))
      (close_log-phase now l)
      (change_found type_error (close_log now) qid s l e (close_log-queue now l))
serve_known supplier_id qid (pause_at reason now) s none e =
    change_missing record_not_found (pause_log reason now) qid s e
serve_known supplier_id qid (pause_at reason now) s (some l) e =
    subst
      (λ x.
        Implements qid x (phase_of_log (some l)) s
          (change record_not_found (pause_log reason now) qid s))
      (pause_log-phase reason now l)
      (change_found record_not_found (pause_log reason now) qid s l e
        (pause_log-queue reason now l))
serve_known supplier_id qid (resume_at now) s none e =
    change_missing record_not_found (resume_log now) qid s e
serve_known supplier_id qid (resume_at now) s (some l) e =
    subst
      (λ x.
        Implements qid x (phase_of_log (some l)) s (change record_not_found (resume_log now) qid s))
      (resume_log-phase now l)
      (change_found record_not_found (resume_log now) qid s l e (resume_log-queue now l))

-- Each request to the log service of the kitchen queues answers what the automaton answers from
-- the phase that the collection gives to the queue, errors included, leaves the queue in the
-- phase that the automaton goes to, and leaves the newest log of every other queue.
pub serve-refines_answer :
    (supplier_id qid other : ℕ) (c : Command) (s : StationState)
    → (qid == other) ≡ false
    → (outcome_phase (serve supplier_id qid c s).0 ≡ answer c (phase_of qid s))
      × (phase_of qid (serve supplier_id qid c s).1
          ≡ phase_after (answer c (phase_of qid s)) (phase_of qid s))
      × (newest other (serve supplier_id qid c s).1 ≡ newest other s)
serve-refines_answer supplier_id qid other c s differs =
    let (answers, goes, others) = serve_known supplier_id qid c s (newest qid s) refl in
    (answers, goes, others other differs)

-- The same for a sequence of requests, some of which may throw.
pub serve_all-follow :
    (supplier_id qid : ℕ) (cs : List Command) (s : StationState)
    → phase_of qid (serve_all supplier_id qid cs s) ≡ follow cs (phase_of qid s)
serve_all-follow supplier_id qid [] s = refl
serve_all-follow supplier_id qid (c ∷ cs) s =
    let s' = (serve supplier_id qid c s).1 in
    serve_all-follow supplier_id qid cs s'
    ∙ ap (follow cs) (serve_known supplier_id qid c s (newest qid s) refl).1
