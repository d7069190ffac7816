-- ===== src/Cashier/Reachable.antt =====
-- Every request of the cashier services, and the states that sequences of them reach.
use mathlib.Core.Path.{subst}
use gitrema_backend.Prelude.{
  ℕ, ◌+◌, ◌≤◌, ◌==◌, ◌≡◌, refl, inl, inr, if◌then◌else◌, Bool, not, ◌&&◌, Option, List, [], ◌∷◌,
  arith, String, is_some, All, Bool-cases, eq_of_==,
}
use gitrema_backend.Prelude.Int.{ℤ}
use gitrema_backend.Prelude.Action.{done}
use gitrema_backend.Cashier.State.{
  CashierLog, Request, CashierState, OpenCashierDto, CloseCashierDto, ExpenseDto,
}
use gitrema_backend.Cashier.Log.{
  pause, resume, pause_log, resume_log, log_transaction_async, store_current_balance, store_expense,
  remove_expense, push_transaction, add_balance, push_expense, drop_expense,
}
use gitrema_backend.Cashier.Shift.{find_current_log}
use gitrema_backend.Cashier.Resolve.{resolve_cashier_id, start, close}
use gitrema_backend.Cashier.Consistency.{KeepsShift, change_log-IsConsistent}
use gitrema_backend.Cashier.Consistent.{AllClosed, OlderClosed, open_id, IsConsistent}
use gitrema_backend.Cashier.Resolved.{
  resolve_cashier_id-IsConsistent, start-IsConsistent, close-IsConsistent,
}

-- The pointer of a cashier that was read agrees with the logs.
-- The requests that reach the cashier services, from their controller and from payments.
pub data Call : Type 0 where
  start_call : Request → OpenCashierDto → Call
  close_call : Request → CloseCashierDto → Call
  pause_call : String → ℕ → Call
  resume_call : ℕ → Call
  resolve_call : Request → Option ℕ → Bool → Option ℕ → Call
  log_call : ℕ → ℕ → Call
  balance_call : ℕ → Bool → ℤ → Call
  store_expense_call : Request → ExpenseDto → ℕ → ℕ → Call
  remove_expense_call : ℕ → ℕ → Call

-- The state behind one request, whether it returned or threw.
unfoldable pub serve : Call → ℕ → CashierState → CashierState
serve (start_call req dto) now s = (start req dto now s).1
serve (close_call req dto) now s = (close req dto now s).1
serve (pause_call reason cid) now s = (pause reason now cid s).1
serve (resume_call cid) now s = (resume now cid s).1
serve (resolve_call req cid auto rid) now s = (resolve_cashier_id req cid auto rid now s).1
serve (log_call cid tid) now s = (log_transaction_async cid tid s).1
serve (balance_call cid refund amount) now s = (store_current_balance cid refund amount s).1
serve (store_expense_call req dto eid cid) now s = (store_expense req dto eid cid s).1
serve (remove_expense_call eid cid) now s = (remove_expense eid cid s).1

-- Requests one behind the other, each with the time of its arrival.
unfoldable pub serve_all : List (Call × ℕ) → CashierState → CashierState
serve_all [] s = s
serve_all ((c, now) ∷ cs) s = serve_all cs (serve c now s)

pause_log-KeepsShift : (reason : String) (now : ℕ) → KeepsShift (pause_log reason now)
unfolding pause_log
pause_log-KeepsShift reason now l l' e = ground arith

resume_log-KeepsShift : (now : ℕ) → KeepsShift (resume_log now)
unfolding resume_log
resume_log-KeepsShift now l l' e = ground arith

pub serve-IsConsistent :
    (c : Call) (now : ℕ) (s : CashierState) → IsConsistent s → IsConsistent (serve c now s)
unfolding serve
serve-IsConsistent (start_call req dto) now s h = start-IsConsistent req dto now s h
serve-IsConsistent (close_call req dto) now s h = close-IsConsistent req dto now s h
serve-IsConsistent (resolve_call req cid auto rid) now s h =
    resolve_cashier_id-IsConsistent req cid auto rid now s h
serve-IsConsistent (pause_call reason cid) now s h =
    unfold pause in
    change_log-IsConsistent _ (pause_log reason now) cid (pause_log-KeepsShift reason now) s h
serve-IsConsistent (resume_call cid) now s h =
    unfold resume in change_log-IsConsistent _ (resume_log now) cid (resume_log-KeepsShift now) s h
serve-IsConsistent (log_call cid tid) now s h =
    unfold log_transaction_async in
    change_log-IsConsistent _ (λ l. done (push_transaction tid l)) cid (λ l l' e. ground arith) s h
serve-IsConsistent (balance_call cid refund amount) now s h =
    unfold store_current_balance in
    change_log-IsConsistent _ (λ l. done (add_balance refund amount l)) cid (λ l l' e. ground arith)
      s h
serve-IsConsistent (store_expense_call req dto eid cid) now s h =
    unfold store_expense in
    change_log-IsConsistent _ (λ l. done (push_expense req dto eid l)) cid (λ l l' e. ground arith)
      s h
serve-IsConsistent (remove_expense_call eid cid) now s h =
    unfold remove_expense in
    change_log-IsConsistent _ (λ l. done (drop_expense eid l)) cid (λ l l' e. ground arith) s h

pub serve_all-IsConsistent :
    (cs : List (Call × ℕ)) (s : CashierState) → IsConsistent s → IsConsistent (serve_all cs s)
unfolding serve_all
serve_all-IsConsistent [] s h = h
serve_all-IsConsistent ((c, now) ∷ cs) s h =
    serve_all-IsConsistent cs (serve c now s) (serve-IsConsistent c now s h)

-- The open logs of a cashier.
abbrev pub count_open : ℕ → List CashierLog → ℕ
count_open cid [] = 0
count_open cid (l ∷ ls) =
    (if (l.cashier_id == cid) && not (is_some l.closed_at) then 1 else 0) + count_open cid ls

count_open_closed : (cid : ℕ) (ls : List CashierLog) → AllClosed cid ls → count_open cid ls ≡ 0
count_open_closed cid [] h = refl
count_open_closed cid (l ∷ ls) h = ground (arith, h.0, count_open_closed cid ls h.1)

count_open-le : (cid : ℕ) (ls : List CashierLog) → OlderClosed ls → count_open cid ls ≤ 1
count_open-le cid [] h = omega arith
count_open-le cid (l ∷ ls) h = elim (Bool-cases (l.cashier_id == cid)) [
  | inl own ↦ ground (
    arith,
    count_open_closed cid ls (subst (λ k. AllClosed k ls) (eq_of_== l.cashier_id cid own) h.0),
  )
  | inr other ↦ ground (arith, count_open-le cid ls h.1)
]

-- After any sequence of requests from a consistent state, each cashier has at most one open log,
-- and `currentLog` of every cashier is the identifier of its newest log while that is open, and
-- `null` otherwise.
pub one_open_shift :
    (cs : List (Call × ℕ)) (s : CashierState)
    → IsConsistent s
    → let s' = serve_all cs s in
      ((cid : ℕ) → count_open cid s'.logs ≤ 1)
      × All (λ c. c.current_log ≡ open_id (find_current_log c.id s'.logs)) s'.cashiers
one_open_shift cs s h =
    let h' = serve_all-IsConsistent cs s h in
    (λ cid. count_open-le cid (serve_all cs s).logs h'.older_closed, h'.points_to_open)
