-- ===== src/Cashier/Resolve.antt =====
-- `resolveCashierId` and `keepOnlyOneDefault` of src/cashier/cashier-helper.service.ts, and the
-- operations of cashier-log.service.ts that call the first.
use gitrema_backend.Prelude.{
  ℕ, ◌==◌, if◌then◌else◌, Bool, not, ◌&&◌, Option, none, some, List, is_some,
}
use gitrema_backend.Prelude.Action.{no_cashier_available, pure, gets, or_throw, ◌>>=◌, ◌>>◌}
use gitrema_backend.Prelude.Collection.{find, update_all}
use gitrema_backend.Cashier.State.{
  CashierLog, Cashier, User, Request, CashierState, CashierAction, OpenCashierDto, CloseCashierDto,
}
use gitrema_backend.Cashier.Log.{auto_start_cashier}
use gitrema_backend.Cashier.Shift.{has_id, start_shift, close_shift}

-- The query `{ restaurantId, default: true }`. A cashier has a restaurant, so `null` finds none.
abbrev pub is_default_of : Option ℕ → Cashier → Bool
is_default_of none c = Bool.false
is_default_of (some r) c = (c.restaurant_id == r) && c.default

-- The default cashier of the restaurant, with its identifier.
unfoldable pub default_cashier : Option ℕ → CashierAction (ℕ × Option Cashier)
default_cashier restaurant_id = do
  c ← or_throw (← gets (λ s. find (is_default_of restaurant_id) s.cashiers)) no_cashier_available
  pure (c.id, some c)

-- The cashier that a staff member is bound to.
abbrev pub cashier_of_user : Option User → Option ℕ
cashier_of_user none = none
cashier_of_user (some u) = u.cashier

unfoldable pub bound_or_default : Option ℕ → Option ℕ → CashierAction (ℕ × Option Cashier)
unfolding default_cashier
bound_or_default restaurant_id none = default_cashier restaurant_id
bound_or_default restaurant_id (some cid) = pure (cid, none)

-- The first half of `resolveCashierId`: the identifier, and the cashier if it was read.
unfoldable pub identify_cashier : Request → Option ℕ → Option ℕ → CashierAction (ℕ × Option Cashier)
unfolding default_cashier bound_or_default
identify_cashier req (some cid) restaurant_id = pure (cid, none)
identify_cashier req none restaurant_id =
    if req.is_customer then default_cashier restaurant_id else do
      user ← gets (λ s. find (λ u. u.id == req.user_id) s.users)
      bound_or_default restaurant_id (cashier_of_user user)

-- The cashier that was read before, or else the one with the identifier.
abbrev pub read_or_find : ℕ → Option Cashier → List Cashier → Option Cashier
read_or_find cid (some c) cs = some c
read_or_find cid none cs = find (has_id cid) cs

-- The second half with `autoStart`: opens a shift for a cashier that has none.
unfoldable pub ensure_started : Request → ℕ → ℕ × Option Cashier → CashierAction (Unit {0})
ensure_started req now found = do
  c ← or_throw (← gets (λ s. read_or_find found.0 found.1 s.cashiers)) no_cashier_available
  if is_some c.current_log
      then pure tt
      else auto_start_cashier (if req.is_customer then none else some req) c now

unfoldable pub resolve_cashier_id : Request → Option ℕ → Bool → Option ℕ → ℕ → CashierAction ℕ
unfolding identify_cashier ensure_started
resolve_cashier_id req cid auto_start restaurant_id now = do
  found ← identify_cashier req cid restaurant_id
  if auto_start then ensure_started req now found else pure tt
  pure found.0

-- `CashierLogService.start` and `close`.
unfoldable pub start : Request → OpenCashierDto → ℕ → CashierAction CashierLog
unfolding resolve_cashier_id
start req dto now = do
  cid ← resolve_cashier_id req dto.cashier_id Bool.false none now
  start_shift req dto now cid

unfoldable pub close : Request → CloseCashierDto → ℕ → CashierAction CashierLog
unfolding resolve_cashier_id
close req dto now = do
  cid ← resolve_cashier_id req dto.cashier_id Bool.false none now
  close_shift dto now cid

-- `keepOnlyOneDefault`: the other cashiers of the restaurant stop being its default.
unfoldable pub keep_only_one_default : Cashier → CashierState → CashierState
keep_only_one_default c s =
    if c.default
    then record s {
      cashiers =
          update_all (λ d. (d.restaurant_id == c.restaurant_id) && not (d.id == c.id))
            (λ d. record d { default = Bool.false }) s.cashiers;
    }
    else s
