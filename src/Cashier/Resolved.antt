-- ===== src/Cashier/Resolved.antt =====
-- Module Resolve (src/cashier/cashier-helper.service.ts) keeps the invariant of module Consistency.
use mathlib.Core.Path.{subst}
use gitrema_backend.Prelude.{
  ℕ, ◌==◌, ◌≡◌, refl, sym, ap, ◌∙◌, inl, inr, if◌then◌else◌, Bool, true, false, Option, none, some,
  arith, is_some, Bool-cases, Option-cases,
}
use gitrema_backend.Prelude.Action.{
  Outcome, done, failed, Keeps, >>=-Keeps, ◌>>=◌, ◌>>◌, >>-pure_state, pure,
}
use gitrema_backend.Prelude.Collection.{find, find-All}
use gitrema_backend.Cashier.State.{
  CashierLog, Cashier, Request, CashierState, CashierAction, OpenCashierDto, CloseCashierDto,
}
use gitrema_backend.Cashier.Log.{auto_opened, auto_start_cashier}
use gitrema_backend.Cashier.Shift.{find_current_log, has_id, is_open, start_shift, close_shift}
use gitrema_backend.Cashier.Resolve.{
  is_default_of, default_cashier, cashier_of_user, bound_or_default, identify_cashier,
  ensure_started, read_or_find, resolve_cashier_id, start, close,
}
use gitrema_backend.Cashier.Consistency.{start_shift-IsConsistent, close_shift-IsConsistent}
use gitrema_backend.Cashier.Consistent.{open_id, IsConsistent, opens-IsConsistent}

abbrev pub IsPointed : CashierState → Cashier → Type 0
IsPointed s c = c.current_log ≡ open_id (find_current_log c.id s.logs)

abbrev pub AllPointed : CashierState → Option Cashier → Type 0
AllPointed s none = Unit
AllPointed s (some c) = IsPointed s c

-- A read leaves the state alone, and a cashier that it returns is pointed.
abbrev pub Reads : CashierAction (ℕ × Option Cashier) → CashierState → Type 0
Reads m s =
    ((m s).1 ≡ s) × ((found : ℕ × Option Cashier) → (m s).0 ≡ done found → AllPointed s found.1)

pub default_cashier-Reads :
    (rid : Option ℕ) (s : CashierState) → IsConsistent s → Reads (default_cashier rid) s
unfolding default_cashier
default_cashier-Reads rid s h = elim (Option-cases (find (is_default_of rid) s.cashiers)) [
  | inl missing ↦ rw missing (refl, λ found e. absurd (ground arith))
  | inr (c, e) ↦ rw e (
    refl,
    λ found back.
        subst (AllPointed s) {x = some c} (ground arith)
          (find-All (IsPointed s) (is_default_of rid) s.cashiers c h.points_to_open e),
  )
]

pub free_of_null : (o : Option CashierLog) → none ≡ open_id o → is_open o ≡ false
free_of_null none h = refl
free_of_null (some l) h = ground arith

-- A cashier without `currentLog` has no open shift, so that one may be opened for it.
pub auto_start_cashier-IsConsistent :
    (req : Option Request) (c : Cashier) (now : ℕ) (s : CashierState)
    → c.current_log ≡ none
    → IsPointed s c
    → IsConsistent s
    → IsConsistent (auto_start_cashier req c now s).1
unfolding auto_start_cashier
auto_start_cashier-IsConsistent req c now s null pointed h =
    opens-IsConsistent c.id (auto_opened req c s.next_id now) s refl refl
      (free_of_null (find_current_log c.id s.logs) (sym null ∙ pointed)) h

pub bound_or_default-Reads :
    (rid : Option ℕ) (bound : Option ℕ) (s : CashierState)
    → IsConsistent s
    → Reads (bound_or_default rid bound) s
unfolding bound_or_default
bound_or_default-Reads rid none s h = default_cashier-Reads rid s h
bound_or_default-Reads rid (some cid) s h =
    (refl, λ found e. subst (AllPointed s) {x = none} (ground arith) tt)

pub identify_cashier-Reads :
    (req : Request) (cid rid : Option ℕ) (s : CashierState)
    → IsConsistent s
    → Reads (identify_cashier req cid rid) s
unfolding identify_cashier
identify_cashier-Reads req (some cid) rid s h =
    (refl, λ found e. subst (AllPointed s) {x = none} (ground arith) tt)
identify_cashier-Reads req none rid s h = elim (Bool-cases req.is_customer) [
  | inl customer ↦ rw customer (default_cashier-Reads rid s h)
  | inr staff ↦
      rw staff
        (bound_or_default-Reads rid (cashier_of_user (find (λ u. u.id == req.user_id) s.users)) s h)
]

pub read_or_find-IsPointed :
    (k : ℕ) (r : Option Cashier) (c : Cashier) (s : CashierState)
    → AllPointed s r
    → IsConsistent s
    → read_or_find k r s.cashiers ≡ some c
    → IsPointed s c
read_or_find-IsPointed k (some d) c s pointed h e = subst (AllPointed s) e pointed
read_or_find-IsPointed k none c s pointed h e =
    find-All (IsPointed s) (has_id k) s.cashiers c h.points_to_open e

pub ensure_started-IsConsistent :
    (req : Request) (now : ℕ) (found : ℕ × Option Cashier) (s : CashierState)
    → AllPointed s found.1
    → IsConsistent s
    → IsConsistent (ensure_started req now found s).1
unfolding ensure_started
ensure_started-IsConsistent req now found s pointed h =
    elim (Option-cases (read_or_find found.0 found.1 s.cashiers)) [
      | inl missing ↦ rw missing h
      | inr (c, e) ↦ elim (Option-cases c.current_log) [
        | inl null ↦
            rw (e, ap is_some null)
              (auto_start_cashier-IsConsistent (if req.is_customer then none else some req) c now s
                null (read_or_find-IsPointed found.0 found.1 c s pointed h e) h)
        | inr (l, started) ↦ rw (e, started) h
      ]
    ]

-- Finding a cashier, and starting it where that is asked for, keeps the invariant.
pub resolve_cashier_id-IsConsistent :
    (req : Request) (cid : Option ℕ) (auto_start : Bool) (rid : Option ℕ) (now : ℕ)
    → Keeps IsConsistent (resolve_cashier_id req cid auto_start rid now)
unfolding resolve_cashier_id
resolve_cashier_id-IsConsistent req cid auto_start rid now s h =
    go auto_start (identify_cashier req cid rid s) (identify_cashier-Reads req cid rid s h)
  where
    go :
        (auto : Bool) (r : Outcome (ℕ × Option Cashier) × CashierState)
        → (r.1 ≡ s) × ((found : ℕ × Option Cashier) → r.0 ≡ done found → AllPointed s found.1)
        → IsConsistent
            (((λ _. r) >>= λ found.
                (if auto then ensure_started req now found else pure tt) >> pure found.0)
              s).1
    go auto (failed e, s') g = subst IsConsistent (sym g.0) h
    go true (done found, s') g = rw (>>-pure_state (ensure_started req now found) found.0 s') (
        ensure_started-IsConsistent req now found s'
          (subst (λ t. AllPointed t found.1) (sym g.0) (g.1 found refl))
          (subst IsConsistent (sym g.0) h))
    go false (done found, s') g = subst IsConsistent (sym g.0) h

pub start-IsConsistent :
    (req : Request) (dto : OpenCashierDto) (now : ℕ) → Keeps IsConsistent (start req dto now)
unfolding start
start-IsConsistent req dto now =
    >>=-Keeps IsConsistent (resolve_cashier_id req dto.cashier_id false none now)
      (start_shift req dto now) (resolve_cashier_id-IsConsistent req dto.cashier_id false none now)
      (start_shift-IsConsistent req dto now)

pub close-IsConsistent :
    (req : Request) (dto : CloseCashierDto) (now : ℕ) → Keeps IsConsistent (close req dto now)
unfolding close
close-IsConsistent req dto now =
    >>=-Keeps IsConsistent (resolve_cashier_id req dto.cashier_id false none now)
      (close_shift dto now) (resolve_cashier_id-IsConsistent req dto.cashier_id false none now)
      (close_shift-IsConsistent dto now)
