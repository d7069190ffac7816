-- ===== src/Cashier/Consistency.antt =====
-- Shifts and the cashiers that point to them: the invariant of the two collections, and the
-- operations of module Log that keep it.
use gitrema_backend.Prelude.{ℕ, ◌≡◌, refl, inl, inr, some, Bool-cases, Option-cases}
use gitrema_backend.Prelude.Action.{Outcome, done, Failure, Keeps, Outcome-cases}
use gitrema_backend.Cashier.State.{CashierLog, Request, OpenCashierDto, CloseCashierDto}
use gitrema_backend.Cashier.Log.{change_log}
use gitrema_backend.Cashier.Shift.{
  find_current_log, is_open, opened, start_shift, closed, close_check, close_shift,
}
use gitrema_backend.Cashier.Consistent.{
  IsConsistent, update_current_log_lem, opens-IsConsistent, saves-IsConsistent,
  changes-IsConsistent,
}

pub start_shift-IsConsistent :
    (req : Request) (dto : OpenCashierDto) (now cid : ℕ)
    → Keeps IsConsistent (start_shift req dto now cid)
unfolding start_shift
start_shift-IsConsistent req dto now cid s h =
    elim (Bool-cases (is_open (find_current_log cid s.logs))) [
      | inl busy ↦ rw busy h
      | inr free ↦
          rw free (opens-IsConsistent cid (opened req dto cid s.next_id now) s refl refl free h)
    ]

pub close_shift-IsConsistent :
    (dto : CloseCashierDto) (now cid : ℕ) → Keeps IsConsistent (close_shift dto now cid)
unfolding close_shift
close_shift-IsConsistent dto now cid s h = elim (Option-cases (find_current_log cid s.logs)) [
  | inl never ↦ rw never h
  | inr (l, found) ↦ elim (Outcome-cases (close_check dto (some l))) [
    | inl (e, thrown) ↦ rw (found, thrown) h
    | inr (l', changed) ↦
        rw (found, changed, update_current_log_lem)
          (saves-IsConsistent cid (closed dto now) s l found refl (λ _. refl) h)
  ]
]

-- A change of the newest log keeps the invariant if it keeps the log's owner, name and end.
abbrev pub KeepsShift : (CashierLog → Outcome CashierLog) → Type 0
KeepsShift f =
    (l l' : CashierLog)
    → f l ≡ done l'
    → (l'.cashier_id ≡ l.cashier_id) × (l'.id ≡ l.id) × (l'.closed_at ≡ l.closed_at)

pub change_log-IsConsistent :
    (missing : Failure) (f : CashierLog → Outcome CashierLog) (cid : ℕ)
    → KeepsShift f
    → Keeps IsConsistent (change_log missing f cid)
unfolding change_log
change_log-IsConsistent missing f cid keep s h = elim (Option-cases (find_current_log cid s.logs)) [
  | inl never ↦ rw never h
  | inr (l, found) ↦ elim (Outcome-cases (f l)) [
    | inl (e, thrown) ↦ rw (found, thrown) h
    | inr (l', changed) ↦
        let (owner, name, end) = keep l l' changed in
        rw (found, changed) (changes-IsConsistent cid (λ _. l') s l found owner name end h)
  ]
]
