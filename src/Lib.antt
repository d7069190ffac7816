-- ===== src/Lib.antt =====
-- A model of the money, kitchen and table services of a restaurant's back end (NestJS on MongoDB),
-- and proofs about them.
--
-- The parts and their files. Paths are from the root of the repository.
-- - Prelude: library names, tests on numbers and options, lists, signed integers (Prelude/Int), the
--   methods of services as actions (Prelude/Action), collections of documents (Prelude/Collection).
-- - Order: the enumerations (Order/Status: src/order/enum/en.enum.ts, src/payment/enum/en.enum.ts,
--   src/core/Constants/enum.ts) and the fields of an order that the other parts use (Order/State:
--   src/order/schemas/order.schema.ts).
-- - Cashier: src/cashier. State has the documents; Shift and Log the operations of cashier-log.service.ts
--   on the newest log of a cashier, one function each with the name of the method (start_shift and
--   close_shift are start and close once the cashier is known); Resolve has resolveCashierId,
--   keepOnlyOneDefault, and start and close; Dashboard has prepareDashboardData. Consistent,
--   Consistency, Resolved, Reachable, Pauses, Defaults and Dashboard have
--   the proofs.
-- - Pricing: calculateSummery of src/order/calculation.service.ts (Summary), with the fields of offers
--   (src/offer/schemas/offer.schema.ts) and items in State. Amounts and Discounts have the proofs.
-- - Kitchen: the scheduling half of src/order/calculation.service.ts. Slot has
--   calculateOrderPreparationTiming, Queue the recalculations. Disjoint and Chain have the proofs,
--   Queried what holds of queried and rewritten documents.
-- - Table: src/table. Log has table-log.service.ts (logTable is start_table and stop_table), Helper
--   table-helper.service.ts. OpenCount, OpenLogs and Closing have the proofs.
-- - Payment: src/payment/payment.service.ts (Service: create and refund; Split: split) and
--   postTransactionProcess of src/transaction/transaction.service.ts (Process), and deferOrder of
--   src/order/order.service.ts (Defer). It calls Cashier
--   (resolve_cashier_id, log_transaction_async, store_current_balance) and Table
--   (handle_payment_needed). Totals, Sums, Checks, Requests, Bounds,
--   Reachable, Refunds, Shares and Deferred have the proofs.
-- - Station: src/kitchen-queue/kitchen-queue-log.service.ts (Service), and the automaton that it
--   implements (Phase). Changes, Simulation and Restart have the proofs.
-- - Menu: getMarketPrice, prepareOrderItems (Price and Prepare) and manageInventory (Stock) of
--   src/order/order-helper.service.ts, with the documents of src/menu/schemas in State. Prepared and
--   Stocked have the proofs.
-- - Lifecycle: src/order/order.service.ts. Update has update and restrictedUpdate with
--   postOrderUpdate, Cook kitchenQueueProcess, Move moveItems, Group groupOrders. The preparation of
--   items is a field of Env, which Lifecycle/Menu fills from Menu; the summary is that of Pricing.
--   Runs and Transitions have the cases of update, Closed, Answers, History,
--   PaymentStatus, Cooked, Processed, Finishes, Conserved, Moved, Together, Doubled, Grouped and
--   Merged the proofs.
-- - Units: getConversionFactor of src/unit-of-measure/unit-of-measure-helper.service.ts (Factor). Ends,
--   Queried, Described, Links, Lineage and Inverse have the proofs, Ratios the arithmetic.
-- The modules named Examples and MoveExamples run the theorems on concrete documents.
--
-- How the code is modelled.
-- - A method is an Action: a function from the collections to its result or exception and the
--   collections afterwards. What was written before an exception stays written. A call that is not
--   awaited (detached) is made to its end before the caller goes on, and its exception is dropped.
--   Other interleavings of such calls are not modelled.
-- - A collection is a list of documents, newest first; `sort: { _id: -1 }` with findOne is the first
--   document that matches. An identifier is a number and is unique, so findByIdAndUpdate may be
--   written as an update of all documents with it, or of the first.
-- - The time is an argument, in milliseconds; two reads of it in one call give the same time. Only the
--   default of startingTime of a table's log is fixed, as the time at which the schema was loaded.
-- - Amounts are integers that count hundredths, so roundOffNumber leaves sums as they are; it acts in
--   split and calculateSummery (nearest and ratio of Prelude/Int). The fees of a summary, which are
--   not rounded, are fractions. The rounding of binary fractions is not modelled: sums and
--   comparisons of amounts are exact here, also where the code compares sums that it has not rounded
--   (close), and halves of a hundredth are rounded up, where toFixed goes by the binary value.
-- - Quantities of items are whole numbers, not negative. The bodies of requests are not held to that.
-- - The preparation details of an order are there. Their actualEndTime is not a field: the code
--   assigns it inside an object without a schema, and it is not saved.
-- - Records have the fields that the modelled methods read or write.
-- - Payment, Kitchen and Lifecycle each have the fields of an order that they use.
-- - Reads of the cache return what was put there; a text and an object are told apart where the
--   code confuses them (the category of a menu item in Menu/Prepare). Of the index on `_id` the
--   oldest document is read first.
-- - The number of a new order is an argument of moveItems and groupOrders.
-- - Calls of services that are not modelled (activities, invoices, notifications, profits, orders,
--   payment gateway, terminal) are recorded in Db.calls, and those behind
--   an update in Store.calls, in their order. What the gateway answers
--   is not modelled.
-- - Loops run over lists, or over a number of rounds that the source gives (split, for a whole number
--   of parts). Only the loops of getConversionFactor run on fuel, which the theorems on it show to be
--   enough; convert-units is its argument, and a rate of a unit is a fraction with a sign.
--
-- Not modelled: queries for display and reports, the creation of orders, the inventory of
-- materials, authentication, and the other parts of src, which store documents or call other services.
pub mod Prelude
pub mod Order
pub mod Cashier
pub mod Kitchen
pub mod Table
pub mod Payment
pub mod Pricing
pub mod Station
pub mod Menu
pub mod Lifecycle
pub mod Units
