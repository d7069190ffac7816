-- ===== src/Cashier/Consistent.antt =====
-- Shifts and the cashiers that point to them: the invariant of the two collections, and the kinds
-- of changes that keep it.
use mathlib.Core.Path.{subst}
use gitrema_backend.Prelude.{
  ℕ, ◌==◌, ◌≡◌, refl, sym, ap, ◌∙◌, inl, inr, if◌then◌else◌, true, false, Option, none, some, List,
  [], ◌∷◌, arith, is_some, All, All-map, Bool-cases, Option-cases, eq_of_==,
}
use gitrema_backend.Prelude.Action.{detached}
use gitrema_backend.Prelude.Collection.{
  find, find_sound, find-update_first, find-update_first_other, update_first, update_first-All,
  update_all, update_all-none,
}
use gitrema_backend.Cashier.State.{CashierLog, Cashier, CashierState}
use gitrema_backend.Cashier.Shift.{
  of_cashier, find_current_log, has_id, set_current_log, update_current_log, save_log, add_log,
  is_open,
}

abbrev pub IsClosed : CashierLog → Type 0
IsClosed l = is_some l.closed_at ≡ true

-- Every log of the cashier is closed.
abbrev pub AllClosed : ℕ → List CashierLog → Type 0
AllClosed cid = All (λ l. (l.cashier_id == cid) ≡ true → IsClosed l)

-- Only the newest log of each cashier may be open.
abbrev pub OlderClosed : List CashierLog → Type 0
OlderClosed [] = Unit
OlderClosed (l ∷ ls) = AllClosed l.cashier_id ls × OlderClosed ls

abbrev pub open_id : Option CashierLog → Option ℕ
open_id none = none
open_id (some l) = if is_some l.closed_at then none else some l.id

-- `currentLog` of each cashier is its open log, or `null` if it has none.
abbrev pub PointsTo : (ℕ → Option ℕ) → List Cashier → Type 0
PointsTo g = All (λ c. c.current_log ≡ g c.id)

pub record IsConsistent (s : CashierState) : Type 0 where
  pub older_closed : OlderClosed s.logs
  pub points_to_open : PointsTo (λ k. open_id (find_current_log k s.logs)) s.cashiers

pub AllClosed-of_newest :
    (cid : ℕ) (ls : List CashierLog)
    → OlderClosed ls
    → is_open (find_current_log cid ls) ≡ false
    → AllClosed cid ls
AllClosed-of_newest cid [] h e = tt
AllClosed-of_newest cid (l ∷ ls) h e = elim (Bool-cases (l.cashier_id == cid)) [
  | inl own ↦ (λ _. ground arith, subst (λ k. AllClosed k ls) (eq_of_== l.cashier_id cid own) h.0)
  | inr other ↦ (λ own. ground arith, AllClosed-of_newest cid ls h.1 (ground arith))
]

-- A change of the newest log that never opens it again.
pub update-OlderClosed :
    (cid : ℕ) (f : CashierLog → CashierLog) (ls : List CashierLog) (x : CashierLog)
    → find_current_log cid ls ≡ some x
    → (f x).cashier_id ≡ x.cashier_id
    → (IsClosed x → IsClosed (f x))
    → OlderClosed ls
    → OlderClosed (update_first (of_cashier cid) f ls)
update-OlderClosed cid f [] x e same keep h = tt
update-OlderClosed cid f (l ∷ ls) x e same keep h = elim (Bool-cases (l.cashier_id == cid)) [
  | inl own ↦
      let here : l ≡ x = ground arith in
      rw own (
        subst (λ k. AllClosed k ls)
            (ap (λ (z : CashierLog). z.cashier_id) here
              ∙ sym same
              ∙ ap (λ (z : CashierLog). (f z).cashier_id) (sym here))
            h.0,
        h.1,
      )
  | inr other ↦
      let later : find_current_log cid ls ≡ some x = ground arith in
      rw other (
        update_first-All (λ m. (m.cashier_id == l.cashier_id) ≡ true → IsClosed m) (of_cashier cid)
            f ls x later (λ hx t. keep (hx (rw (← same) t))) h.0,
        update-OlderClosed cid f ls x later same keep h.1,
      )
]

pub PointsTo-update :
    (cid : ℕ) (v : Option ℕ) (g g' : ℕ → Option ℕ) (cs : List Cashier)
    → v ≡ g' cid
    → ((k : ℕ) → (k == cid) ≡ false → g' k ≡ g k)
    → PointsTo g cs
    → PointsTo g' (update_all (has_id cid) (set_current_log v) cs)
PointsTo-update cid v g g' [] now rest h = tt
PointsTo-update cid v g g' (c ∷ cs) now rest h = elim (Bool-cases (c.id == cid)) [
  | inl own ↦ rw own (
    subst (λ k. v ≡ g' k) (sym (eq_of_== c.id cid own)) now,
    PointsTo-update cid v g g' cs now rest h.1,
  )
  | inr other ↦ rw other (h.0 ∙ sym (rest c.id other), PointsTo-update cid v g g' cs now rest h.1)
]

-- `CashierService.update`, called without `await`, sets the pointer wherever the cashier exists.
pub update_current_log_lem :
    (cid : ℕ) (v : Option ℕ) (s : CashierState)
    → (detached (update_current_log cid v) s).1
      ≡ record s { cashiers = update_all (has_id cid) (set_current_log v) s.cashiers }
unfolding update_current_log
update_current_log_lem cid v s = elim (Option-cases (find (has_id cid) s.cashiers)) [
  | inl missing ↦ rw (missing, update_all-none (has_id cid) (set_current_log v) s.cashiers missing)
  | inr (c, found) ↦ rw found
]

-- A new open log for a cashier that has none, and the pointer to it.
pub opens-IsConsistent :
    (cid : ℕ) (l : CashierLog) (s : CashierState)
    → l.cashier_id ≡ cid
    → l.closed_at ≡ none
    → is_open (find_current_log cid s.logs) ≡ false
    → IsConsistent s
    → IsConsistent (detached (update_current_log cid (some l.id)) (add_log l s)).1
opens-IsConsistent cid l s own fresh free h = rw update_current_log_lem (record {
  older_closed = (
    subst (λ k. AllClosed k s.logs) (sym own) (AllClosed-of_newest cid s.logs h.older_closed free),
    h.older_closed,
  );
  points_to_open =
      PointsTo-update cid (some l.id) (λ k. open_id (find_current_log k s.logs))
        (λ k. open_id (find_current_log k (l ∷ s.logs))) s.cashiers (ground arith)
        (λ k e. ground arith) h.points_to_open;
})

-- The newest log changes and the pointer with it.
pub saves-IsConsistent :
    (cid : ℕ) (f : CashierLog → CashierLog) (s : CashierState) (x : CashierLog)
    → find_current_log cid s.logs ≡ some x
    → (f x).cashier_id ≡ x.cashier_id
    → (IsClosed x → IsClosed (f x))
    → IsConsistent s
    → IsConsistent (record s {
      cashiers = update_all (has_id cid) (set_current_log (open_id (some (f x)))) s.cashiers;
      logs = update_first (of_cashier cid) f s.logs;
    })
saves-IsConsistent cid f s x found same keep h =
    let own : (x.cashier_id == cid) ≡ true = find_sound (of_cashier cid) s.logs x found in
    record {
      older_closed = update-OlderClosed cid f s.logs x found same keep h.older_closed;
      points_to_open =
          PointsTo-update cid (open_id (some (f x))) (λ k. open_id (find_current_log k s.logs))
            (λ k. open_id (find_current_log k (update_first (of_cashier cid) f s.logs))) s.cashiers
            (rw (find-update_first (of_cashier cid) f s.logs x found (rw same own)) refl)
            (λ k e. ap open_id (
              find-update_first_other (of_cashier cid) (of_cashier k) f s.logs x found
                (ground arith) (ground arith)))
            h.points_to_open;
    }

-- The newest log changes, and is as open as before.
pub changes-IsConsistent :
    (cid : ℕ) (f : CashierLog → CashierLog) (s : CashierState) (x : CashierLog)
    → find_current_log cid s.logs ≡ some x
    → (f x).cashier_id ≡ x.cashier_id
    → (f x).id ≡ x.id
    → (f x).closed_at ≡ x.closed_at
    → IsConsistent s
    → IsConsistent (save_log cid f s)
changes-IsConsistent cid f s x found same name_kept kept h = record {
  older_closed = update-OlderClosed cid f s.logs x found same (λ c. rw kept c) h.older_closed;
  points_to_open = All-map (λ c e. e ∙ sym (pointer c.id)) s.cashiers h.points_to_open;
}
  where
    own : (x.cashier_id == cid) ≡ true
    own = find_sound (of_cashier cid) s.logs x found

    pointer :
        (k : ℕ)
        → open_id (find_current_log k (update_first (of_cashier cid) f s.logs))
          ≡ open_id (find_current_log k s.logs)
    pointer k = elim (Bool-cases (k == cid)) [
      | inl e ↦ rw (eq_of_== k cid e) (
          rw (find-update_first (of_cashier cid) f s.logs x found (rw same own), found)
            (rw (kept, name_kept) refl))
      | inr e ↦ ap open_id (
          find-update_first_other (of_cashier cid) (of_cashier k) f s.logs x found
            (ground (arith, own)) (ground (arith, own)))
    ]

-- `start` opens a shift only for a cashier whose last shift is closed.
