-- ===== src/Station/Phase.antt =====
-- What the service of kitchen-queue-log.service.ts promises of a queue: an automaton with a start
-- state and two flags, which knows neither documents nor times.
use gitrema_backend.Prelude.{
  ℕ, Bool, true, false, not, Option, none, some, List, [], ◌∷◌, String, is_some, get_last?,
}
use gitrema_backend.Prelude.Action.{
  Outcome, done, failed, record_not_found, previous_open_instance, no_open_instance, already_paused,
  nothing_to_resume, type_error,
}
use gitrema_backend.Cashier.{is_running}
use gitrema_backend.Station.State.{KitchenQueueLog, StationState, StationAction}
use gitrema_backend.Station.Service.{newest, start, close, pause}

-- `shift opened paused`: the newest shift of the queue. `none` where there was never one.
pub data Phase : Type 0 where
  unstarted : Phase
  shift : (opened paused : Bool) → Phase

-- A request to the service, with the time at which it comes.
pub data Command : Type 0 where
  start_at close_at : ℕ → Command
  pause_at : String → ℕ → Command
  resume_at : ℕ → Command

-- What the promised automaton answers, and where it goes.
abbrev pub answer : Command → Phase → Outcome Phase
answer (start_at _) unstarted = done (shift true false)
answer (start_at _) (shift true _) = failed previous_open_instance
answer (start_at _) (shift false _) = done (shift true false)
answer (close_at _) unstarted = failed type_error
answer (close_at _) (shift true p) = done (shift false p)
answer (close_at _) (shift false _) = failed no_open_instance
answer (pause_at _ _) unstarted = failed record_not_found
answer (pause_at _ _) (shift _ true) = failed already_paused
answer (pause_at _ _) (shift o false) = done (shift o true)
answer (resume_at _) unstarted = failed record_not_found
answer (resume_at _) (shift o true) = done (shift o false)
answer (resume_at _) (shift _ false) = failed nothing_to_resume

-- The controller's call of the service.
abbrev pub serve : ℕ → ℕ → Command → StationAction KitchenQueueLog
serve supplier_id qid (start_at now) = start supplier_id now qid
serve supplier_id qid (close_at now) = close now qid
serve supplier_id qid (pause_at reason now) = pause (some reason) now qid
serve supplier_id qid (resume_at now) = pause none now qid

abbrev pub phase_of_log : Option KitchenQueueLog → Phase
phase_of_log none = unstarted
phase_of_log (some l) = shift (not (is_some l.closed_at)) (is_running (get_last? l.paused_logs))

-- The phase that the collection gives to a queue.
abbrev pub phase_of : ℕ → StationState → Phase
phase_of qid s = phase_of_log (newest qid s)

-- Requests that come one after another; a request that throws does not end the sequence.
abbrev pub serve_all : ℕ → ℕ → List Command → StationState → StationState
serve_all supplier_id qid [] s = s
serve_all supplier_id qid (r ∷ rs) s = serve_all supplier_id qid rs (serve supplier_id qid r s).1

abbrev pub phase_after : Outcome Phase → Phase → Phase
phase_after (done q) p = q
phase_after (failed _) p = p

abbrev pub follow : List Command → Phase → Phase
follow [] p = p
follow (r ∷ rs) p = follow rs (phase_after (answer r p) p)
