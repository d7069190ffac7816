-- ===== src/Lifecycle/Doubled.antt =====
-- `moveItems` of src/order/order.service.ts where it throws behind its first write.
use mathlib.Core.Path.{subst}
use gitrema_backend.Prelude.{ℕ, ◌+◌, ◌≡◌, refl, sym, ap, ◌∙◌, false, some, List, arith}
use gitrema_backend.Prelude.Action.{
  done, failed, Failure, order_closed, >>=-at_done, >>=-at_failed, throw_if, modify, pure, ◌>>=◌,
  ◌>>◌,
}
use gitrema_backend.Lifecycle.State.{OrderItem, OrderDoc, Store, Env, find_order, write_order}
use gitrema_backend.Lifecycle.Update.{prepare_order, is_closed}
use gitrema_backend.Lifecycle.Cook.{same_id}
use gitrema_backend.Lifecycle.Move.{
  MoveOrderItemDto, with_items, reprepared, store_left, move_target, move_split, split_of,
  move_items,
}
use gitrema_backend.Lifecycle.Conserved.{quantity_of}
use gitrema_backend.Lifecycle.Moved.{KeepsQuantities, IdsBelow}
use gitrema_backend.Lifecycle.Together.{
  found_source, target_quantity, Together, move_target-Targeted,
}

-- Where the target was written, and preparing the items that stay throws, `moveItems` throws the
-- same and leaves the source with all its items: the two orders have together what they had, and
-- the items that should have moved once more. It is assumed that preparing items keeps their
-- quantities, that identifiers of orders are below the next one, and that the target is not the
-- source.
pub move_items-doubles :
    (env : Env) (m number : ℕ) (dto : MoveOrderItemDto) (o t : OrderDoc) (s : Store)
    (ms rest : List OrderItem) (x : Failure)
    → KeepsQuantities env m
    → IdsBelow s
    → same_id dto.source_order_id dto.target_order_id ≡ false
    → find_order dto.source_order_id s ≡ some o
    → is_closed o.status ≡ false
    → split_of dto o ≡ done (ms, rest)
    → (move_target env number dto.target_order_id ms o s).0 ≡ done t
    → prepare_order env (with_items rest o) ≡ failed x
    → ((move_items env number dto s).0 ≡ failed x)
      × Together m dto.source_order_id
          (quantity_of m o.items + target_quantity m dto.target_order_id s + quantity_of m ms)
          t
          (move_items env number dto s).1
move_items-doubles env m number dto o t s ms rest x law below differs e runs divided made refused =
    let id = dto.source_order_id in
    let target = dto.target_order_id in
    let s₁ = (move_target env number target ms o s).1 in
    let (stored, kept, amount, other) =
      move_target-Targeted env m number target ms o t s id law below differs e made in
    let run =
      found_source env number dto o s e
      ∙ >>=-at_done (throw_if (is_closed o.status) order_closed)
          (λ _. (λ s'. (split_of dto o, s')) >>= move_split env number target o) s tt (rw runs refl)
      ∙ >>=-at_done (λ s'. (split_of dto o, s')) (move_split env number target o) s (ms, rest)
          divided
      ∙ >>=-at_done (move_target env number target ms o)
          (λ t'. store_left env t' (with_items rest o)) s t made
      ∙ >>=-at_failed (reprepared env (with_items rest o))
          (λ left. modify (write_order left) >> pure t) s₁ x refused in
    (
      ap (λ r. r.0) run,
      subst
          (λ r.
            Together m id (quantity_of m o.items + target_quantity m target s + quantity_of m ms) t
              r.1)
          (sym run) (o, kept ∙ e, stored, omega (arith, amount)),
    )
