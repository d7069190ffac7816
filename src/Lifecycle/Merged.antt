-- ===== src/Lifecycle/Merged.antt =====
-- The orders that `groupOrders` of src/order/order.service.ts cancels once they are merged.
use mathlib.Core.Path.{subst}
use gitrema_backend.Prelude.{
  ℕ, ◌==◌, ◌≡◌, ◌≢◌, refl, sym, ap, ◌∙◌, inl, inr, false, some, List, [], ◌∷◌, All, All-zip, arith,
  Bool-cases,
}
use gitrema_backend.Prelude.Int.{pos, ltb_ℤ}
use gitrema_backend.Prelude.Action.{done}
use gitrema_backend.Order.Status.{OrderStatus, is_ended, same_status-ne}
use gitrema_backend.Lifecycle.State.{OrderDoc, Store, Env, find_order, numbered}
use gitrema_backend.Lifecycle.Update.{
  is_closed, check_update, merge, reprice, set_payment_status, updated, update, includes,
}
use gitrema_backend.Lifecycle.Group.{merge_dto, cancel_merged}
use gitrema_backend.Lifecycle.Closed.{update-Ran}
use gitrema_backend.Lifecycle.Runs.{update-written, find-write_order}
use gitrema_backend.Lifecycle.Transitions.{updated-Passes, set_payment_status-keeps}
use gitrema_backend.Lifecycle.Grouped.{read_ids, update_other, cancel_merged_keeps}

not_merged : (a : OrderStatus) → is_ended a ≡ false → OrderStatus.cancelled_by_merge ≢ a
not_merged a h e = absurd (ground arith)

not_closed : (a : OrderStatus) → is_ended a ≡ false → is_closed a ≡ false
not_closed a h = ground arith

-- An order that has not ended can be cancelled by the merge.
merge_updates :
    (env : Env) (group : ℕ) (o : OrderDoc)
    → is_ended o.status ≡ false
    → updated env (merge_dto group) o ≡ done (set_payment_status (merge (merge_dto group) o))
unfolding updated check_update reprice
merge_updates env group o h =
    rw
      (
        not_closed o.status h,
        same_status-ne OrderStatus.cancelled_by_merge o.status (not_merged o.status h),
      )
      refl

set_payment_status-group : (o : OrderDoc) → (set_payment_status o).group_id ≡ o.group_id
unfolding set_payment_status
set_payment_status-group o = elim (Bool-cases (ltb_ℤ (pos 0) o.summary.total_paid)) [
  | inl t ↦ rw t refl
  | inr f ↦ rw f refl
]

-- The order `id` was merged into `group`.
abbrev pub IsMerged : ℕ → Store → ℕ → Type 0
IsMerged group s id =
    (o : OrderDoc) × (find_order id s ≡ some o)
    × (o.status ≡ OrderStatus.cancelled_by_merge)
    × (o.group_id ≡ some group)

abbrev pub IsLive : Store → ℕ → Type 0
IsLive s id = (o : OrderDoc) × (find_order id s ≡ some o) × (is_ended o.status ≡ false)

abbrev pub AllDistinct : List ℕ → Type 0
AllDistinct [] = Unit
AllDistinct (id ∷ ids) = (includes ids id ≡ false) × AllDistinct ids

merge_one :
    (env : Env) (group id : ℕ) (s : Store)
    → IsLive s id
    → IsMerged group (update env id (merge_dto group) s).1 id
unfolding merge
merge_one env group id s (o, found, live) =
    let dto = merge_dto group in
    let d = set_payment_status (merge dto o) in
    let new = merge_updates env group o live in
    let (status_, _) = set_payment_status-keeps (merge dto o) in
    let (_, same) = updated-Passes env dto o d new in
    let (own, _) = find-write_order id s o d found same in
    subst (λ r. IsMerged group r.1 id) (sym (update-written env id dto s o d found new))
      (numbered s.next_id d, own, status_, set_payment_status-group (merge dto o))

ne_sym : (a b : ℕ) → (a == b) ≡ false → (b == a) ≡ false
ne_sym a b h = ground arith

differ-All : (a : ℕ) (ids : List ℕ) → includes ids a ≡ false → All (λ i. (a == i) ≡ false) ids
differ-All a [] h = tt
differ-All a (i ∷ is) h = elim (Bool-cases (i == a)) [
  | inl same ↦ absurd (ground arith)
  | inr other ↦ (ne_sym i a other, differ-All a is (rw other at h))
]

abbrev later_ids : List ℕ → List ℕ
later_ids [] = []
later_ids (_ ∷ ids) = ids

still-IsLive :
    (env : Env) (group id : ℕ) (s : Store) (i : ℕ)
    → IsLive s i
    → (id == i) ≡ false
    → IsLive (update env id (merge_dto group) s).1 i
still-IsLive env group id s i (o, found, live) differs =
    let dto = merge_dto group in
    (
      o,
      update_other env id i dto s (update env id dto s).1 (update-Ran env id dto s) differs ∙ found,
      live,
    )

-- Where the body names just the orders that are grouped, each once, and none of them has ended,
-- all of them are cancelled by the merge and know their group.
pub cancel_merged-All :
    (env : Env) (group : ℕ) (os : List OrderDoc) (ids : List ℕ) (s : Store)
    → read_ids os ids ≡ ids
    → AllDistinct ids
    → All (IsLive s) ids
    → All (IsMerged group (cancel_merged env group os ids s).1) ids
unfolding cancel_merged
cancel_merged-All env group os [] s same distinct live = tt
cancel_merged-All env group [] (id ∷ ids) s same distinct live = absurd (ground arith)
cancel_merged-All env group (o ∷ os) (id ∷ ids) s same distinct live =
    let s' = (update env id (merge_dto group) s).1 in
    let tails = ap later_ids same in
    let (d, found, status_, group_) = merge_one env group id s live.0 in
    let unread = subst (λ x. includes x id ≡ false) (sym tails) distinct.0 in
    (
      (d, cancel_merged_keeps env group id os ids s' unread ∙ found, status_, group_),
      cancel_merged-All env group os ids s' tails distinct.1
          (All-zip (still-IsLive env group id s) ids live.1 (differ-All id ids distinct.0)),
    )
