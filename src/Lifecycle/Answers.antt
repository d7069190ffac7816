-- ===== src/Lifecycle/Answers.antt =====
-- What one request to `update` of src/order/order.service.ts does to the status of its order.
use mathlib.Core.Path.{subst}
use gitrema_backend.Prelude.{
  ℕ, ◌≡◌, refl, sym, ap, ◌∙◌, ◌⊎◌, inl, inr, Bool, true, false, Option, none, some, List, arith,
  Bool-cases, is_some, is_text, if◌then◌else◌, ◌||◌,
}
use gitrema_backend.Prelude.Action.{done, failed, Failure, and_then-failed}
use gitrema_backend.Order.Status.{OrderStatus, same_status, same_status-eq}
use gitrema_backend.Lifecycle.State.{OrderDoc, UpdateOrderDto, Env}
use gitrema_backend.Lifecycle.Update.{
  asks, is_closed, check_update, override, merge, mark_status, prepare_order, reprice, updated,
}
use gitrema_backend.Lifecycle.Transitions.{Passes, check_update-done}
use gitrema_backend.Lifecycle.Closed.{Request}

-- The changes of status: an order that is not closed takes any other status but `Reset`, and a
-- closed one only `Reset`.
pub data Change (a b : OrderStatus) : Type 0 where
  advances :
      is_closed a ≡ false
      → same_status b OrderStatus.reset ≡ false
      → same_status b a ≡ false
      → Change a b
  reopens : a ≡ OrderStatus.closed → b ≡ OrderStatus.reset → Change a b

-- The requests that are refused in the status `a`.
pub data Refuses (asked : Option OrderStatus) (a : OrderStatus) : Type 0 where
  is_over : is_closed a ≡ true → asks asked OrderStatus.reset ≡ false → Refuses asked a
  not_over : is_closed a ≡ false → asks asked OrderStatus.reset ≡ true → Refuses asked a
  same_again : asks asked a ≡ true → Refuses asked a

-- What a request does to the status `a` of its order: it is changed to just the one that was asked
-- for; or it stays, since items were to be served, no status was asked for, the request was
-- refused, or the items of the order could not be prepared.
pub data Answer (r : Request) (a b : OrderStatus) : Type 0 where
  changes : r.dto.status ≡ some b → Change a b → Answer r a b
  serves : is_closed a ≡ false → r.dto.status ≡ some OrderStatus.on_table → a ≡ b → Answer r a b
  asks_none : is_closed a ≡ false → r.dto.status ≡ none → a ≡ b → Answer r a b
  refused : Refuses r.dto.status a → a ≡ b → Answer r a b
  unprepared : (o : OrderDoc) (x : Failure) → r.env.prepare o ≡ failed x → a ≡ b → Answer r a b

is_closed-eq : (a : OrderStatus) → is_closed a ≡ true → a ≡ OrderStatus.closed
is_closed-eq a e = ground arith

-- The answer of a request that is written, by what it asks for.
pub passed-Answer :
    (r : Request) (a b : OrderStatus) (asked : Option OrderStatus)
    → r.dto.status ≡ asked
    → Passes a asked
    → ((b ≡ a) × (asked ≡ some OrderStatus.on_table)) ⊎ (b ≡ override asked a)
    → Answer r a b
passed-Answer r a b none e (inl (closed, reset_)) h = absurd (ground arith)
passed-Answer r a b (some t) e (inl (closed, reset_)) (inl (same, table)) =
    let resets : some t ≡ some OrderStatus.reset =
      ap some (same_status-eq t OrderStatus.reset reset_) in
    absurd (ground arith)
passed-Answer r a b (some t) e (inl (closed, reset_)) (inr same) =
    changes (e ∙ ap some (sym same))
      (reopens (is_closed-eq a closed) (same ∙ same_status-eq t OrderStatus.reset reset_))
passed-Answer r a b asked e (inr (open_, _, _)) (inl (same, table)) =
    serves open_ (e ∙ table) (sym same)
passed-Answer r a b none e (inr (open_, _, _)) (inr same) = asks_none open_ e (sym same)
passed-Answer r a b (some t) e (inr (open_, no_reset, new)) (inr same) =
    changes (e ∙ ap some (sym same)) (subst (Change a) (sym same) (advances open_ no_reset new))

check_update-failed :
    (a : OrderStatus) (asked : Option OrderStatus) (x : Failure)
    → check_update a asked ≡ failed x
    → Refuses asked a
unfolding check_update
check_update-failed a asked x e = elim (Bool-cases (is_closed a)) [
  | inl c ↦ elim (Bool-cases (asks asked OrderStatus.reset)) [
    | inl t ↦ same_again (ground (arith, e, c, t))
    | inr f ↦ is_over c f
  ]
  | inr c ↦ elim (Bool-cases (asks asked OrderStatus.reset)) [
    | inl t ↦ not_over c t
    | inr f ↦ same_again (ground (arith, e, c, f))
  ]
]

mark_status-failed :
    (now : ℕ) (ids : Option (List ℕ)) (old : OrderStatus) (o : OrderDoc)
    (asked : Option OrderStatus) (x : Failure)
    → mark_status now ids old o asked ≡ failed x
    → asked ≡ some OrderStatus.on_table
mark_status-failed now ids old o none x e = absurd (ground arith)
mark_status-failed now ids old o (some OrderStatus.on_table) x e = refl
mark_status-failed now ids old o (some _) x e = absurd (ground arith)

prepare_order-failed :
    (env : Env) (o : OrderDoc) (x : Failure)
    → prepare_order env o ≡ failed x
    → env.prepare o ≡ failed x
unfolding prepare_order
prepare_order-failed env o x e = elim (and_then-failed (env.prepare o) _ x e) [
  | inl thrown ↦ thrown
  | inr (items, _, e') ↦ absurd (ground arith)
]

reprice-failed :
    (env : Env) (dto : UpdateOrderDto) (old o : OrderDoc) (x : Failure)
    → reprice env dto old o ≡ failed x
    → (p : OrderDoc) × (env.prepare p ≡ failed x)
unfolding reprice
reprice-failed env dto old o x e =
    split (is_some dto.items || is_text dto.coupon_code) (is_text dto.coupon_code) e
  where
    split :
        (b c : Bool)
        → (if b
            then prepare_order env (if c then o else record o { coupon_code = old.coupon_code })
            else done o)
          ≡ failed x
        → (p : OrderDoc) × (env.prepare p ≡ failed x)
    split true true e = (o, prepare_order-failed env o x e)
    split true false e =
        let p = record o { coupon_code = old.coupon_code } in (p, prepare_order-failed env p x e)
    split false c e = absurd (ground arith)

-- A request for `OnTable` that passes the guards finds an order that is not closed.
on_table-open :
    (a : OrderStatus) (asked : Option OrderStatus)
    → Passes a asked
    → asked ≡ some OrderStatus.on_table
    → is_closed a ≡ false
on_table-open a asked (inl (closed, reset_)) e =
    absurd (ground (arith, ap (λ x. asks x OrderStatus.reset) (sym e) ∙ reset_))
on_table-open a asked (inr (open_, _, _)) e = open_

pub failed-Answer :
    (r : Request) (o : OrderDoc) (x : Failure)
    → updated r.env r.dto o ≡ failed x
    → Answer r o.status o.status
unfolding updated
failed-Answer r o x e =
    let asked = r.dto.status in
    elim (and_then-failed (check_update o.status asked) _ x e) [
      | inl thrown ↦ refused (check_update-failed o.status asked x thrown) refl
      | inr (u, passed, e₁) ↦
          elim (and_then-failed
            (mark_status r.env.now r.dto.order_item_ids o.status (merge r.dto o) asked) _ x e₁) [
              | inl thrown ↦
                  let table =
                    mark_status-failed r.env.now r.dto.order_item_ids o.status (merge r.dto o) asked
                      x thrown in
                  serves
                    (on_table-open o.status asked (check_update-done o.status asked u passed) table)
                    table refl
              | inr (marked, _, e₂) ↦ elim (and_then-failed (reprice r.env r.dto o marked) _ x e₂) [
                | inl thrown ↦
                    let (p, fails) = reprice-failed r.env r.dto o marked x thrown in
                    unprepared p x fails refl
                | inr (priced, _, e₃) ↦ absurd (ground arith)
              ]
            ]
    ]
