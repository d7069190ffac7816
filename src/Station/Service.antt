-- ===== src/Station/Service.antt =====
-- The operations of src/kitchen-queue/kitchen-queue-log.service.ts. `logs`, which lists a page of
-- the logs, changes nothing and is left out.
use gitrema_backend.Prelude.{
  ℕ, suc, if◌then◌else◌, Bool, false, not, Option, none, some, [], ◌∷◌, ◌++◌, String, is_some,
  get_last?,
}
use gitrema_backend.Prelude.Action.{
  Outcome, done, failed, record_not_found, previous_open_instance, no_open_instance, already_paused,
  nothing_to_resume, type_error, Failure, pure, gets, or_throw, throw_if, modify, ◌>>=◌, ◌>>◌,
}
use gitrema_backend.Prelude.Collection.{find, update_first}
use gitrema_backend.Cashier.{is_running, end_last}
use gitrema_backend.Station.State.{KitchenQueueLog, StationState, StationAction, of_queue}

-- `findOne({ kitchenQueueId }, {}, { sort: { _id: -1 } })`
abbrev pub newest : ℕ → StationState → Option KitchenQueueLog
newest qid s = find (of_queue qid) s.logs

unfoldable pub current : ℕ → StationAction KitchenQueueLog
current qid = do l ← gets (newest qid); or_throw l record_not_found

-- The log that `start` creates.
unfoldable pub started : ℕ → ℕ → ℕ → ℕ → KitchenQueueLog
started supplier_id qid id now = record {
  id = id;
  supplier_id = supplier_id;
  kitchen_queue_id = qid;
  started_at = now;
  closed_at = none;
  paused_logs = [];
}

-- `kitchenQueueLog && !kitchenQueueLog.closedAt`
abbrev pub is_open : Option KitchenQueueLog → Bool
is_open none = false
is_open (some l) = not (is_some l.closed_at)

abbrev pub create_log : ℕ → ℕ → ℕ → StationAction KitchenQueueLog
unfolding started
create_log supplier_id now qid = do
  log ← gets (λ s. started supplier_id qid s.next_id now)
  modify (λ s. record s { logs = log ∷ s.logs; next_id = suc s.next_id })
  pure log

unfoldable pub start : ℕ → ℕ → ℕ → StationAction KitchenQueueLog
start supplier_id now qid = do
  last ← gets (newest qid)
  throw_if (is_open last) previous_open_instance
  create_log supplier_id now qid

-- The log is changed, or the call throws, and it is saved.
abbrev pub save_changed :
    (KitchenQueueLog → Outcome KitchenQueueLog)
    → ℕ
    → KitchenQueueLog
    → StationAction KitchenQueueLog
save_changed f qid l = do
  l' ← (λ s. (f l, s))
  modify (λ s. record s { logs = update_first (of_queue qid) (λ _. l') s.logs })
  pure l'

-- Finds the newest log, changes it or throws, and saves it; `missing` is thrown where there is
-- no log.
unfoldable pub change :
    Failure → (KitchenQueueLog → Outcome KitchenQueueLog) → ℕ → StationAction KitchenQueueLog
change missing f qid = do l ← or_throw (← gets (newest qid)) missing; save_changed f qid l

unfoldable pub close_log : ℕ → KitchenQueueLog → Outcome KitchenQueueLog
close_log now l =
    if is_some l.closed_at
    then failed no_open_instance
    else done (record l { closed_at = some now })

-- `close`; without a log, `set` of `null` throws.
unfoldable pub close : ℕ → ℕ → StationAction KitchenQueueLog
unfolding change close_log
close now = change type_error (close_log now)

-- The branch of `pause` with a body.
unfoldable pub pause_log : String → ℕ → KitchenQueueLog → Outcome KitchenQueueLog
pause_log reason now l =
    if is_running (get_last? l.paused_logs)
    then failed already_paused
    else done (record l {
      paused_logs = l.paused_logs ++ (record { reason = reason; start = now; end = none } ∷ []);
    })

-- The branch without one.
unfoldable pub resume_log : ℕ → KitchenQueueLog → Outcome KitchenQueueLog
unfolding end_last
resume_log now l =
    if is_running (get_last? l.paused_logs)
    then done (record l { paused_logs = end_last now l.paused_logs })
    else failed nothing_to_resume

unfoldable pub pause : Option String → ℕ → ℕ → StationAction KitchenQueueLog
unfolding change pause_log resume_log
pause (some reason) now = change record_not_found (pause_log reason now)
pause none now = change record_not_found (resume_log now)
