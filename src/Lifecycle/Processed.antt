-- ===== src/Lifecycle/Processed.antt =====
-- What `kitchenQueueProcess` of src/order/order.service.ts does to the items and to the status of
-- an order.
use gitrema_backend.Prelude.{◌≡◌, ◌⊎◌, true, false, ◌&&◌, List, [], ◌∷◌}
use gitrema_backend.Order.Status.{OrderStatus, PreparationStatus}
use gitrema_backend.Lifecycle.State.{OrderItem, OrderDoc}
use gitrema_backend.Lifecycle.Cook.{Selection, is_started, is_done, is_selected, all_done}

-- Item by item, those that are selected have the status `p`, and the others are what they were.
abbrev pub Prepared : PreparationStatus → Selection → List OrderItem → List OrderItem → Type 0
Prepared p sel [] [] = Unit
Prepared p sel [] (j ∷ js) = ⊥
Prepared p sel (i ∷ is) [] = ⊥
Prepared p sel (i ∷ is) (j ∷ js) =
    (((is_selected sel i ≡ true) × (j ≡ record i { preparation_status = p }))
      ⊎ ((is_selected sel i ≡ false) × (j ≡ i)))
    × Prepared p sel is js

-- The status of an order behind a request for `p`: it is done with its last item, it is started
-- with any item, and else it stays.
abbrev pub Follows : PreparationStatus → OrderStatus → OrderDoc → Type 0
Follows p old o =
    (((is_done p && all_done o.items) ≡ true) × (o.status ≡ OrderStatus.done_preparing))
    ⊎ (((is_started p ≡ true) × (o.status ≡ OrderStatus.started_preparing))
        ⊎ (((is_done p && all_done o.items) ≡ false) × (is_started p ≡ false) × (o.status ≡ old)))
