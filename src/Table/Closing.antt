-- ===== src/Table/Closing.antt =====
-- When `logTable` of src/table/table-log.service.ts closes a table.
use mathlib.Core.Path.{subst}
use gitrema_backend.Prelude.{
  ℕ, ◌≡◌, refl, sym, inl, inr, Bool, false, Option, none, some, List, [], ◌∷◌, arith, All,
  Bool-cases, Option-cases, filter, length, ltb, eq_of_==, ==-refl,
}
use gitrema_backend.Prelude.Action.{done}
use gitrema_backend.Prelude.Collection.{find, find_sound, find-update_first, find-update_all}
use gitrema_backend.Order.State.{Order}
use gitrema_backend.Table.State.{empty, TableLog, Table, TableState, is_log, is_table}
use gitrema_backend.Table.Log.{stop_table, find_log, is_pending, set_table}

filter-none :
    {A : Type 0} (p : A → Bool) (xs : List A)
    → ltb 0 (length (filter p xs)) ≡ false
    → All (λ x. p x ≡ false) xs
filter-none p [] e = tt
filter-none p (x ∷ xs) e = elim (Bool-cases (p x)) [
  | inl y ↦ absurd (ground arith)
  | inr n ↦ (n, filter-none p xs (rw n at e))
]

find_log-own :
    (r : Option ℕ) (ls : List TableLog) (l : TableLog)
    → find_log r ls ≡ some l
    → find (is_log l.id) ls ≡ some l
find_log-own none ls l e = absurd (ground arith)
find_log-own (some id) ls l e =
    subst (λ i. find (is_log i) ls ≡ some l)
      (sym (eq_of_== l.id id (find_sound (is_log id) ls l e))) e

-- A table that is closed had a current log, none of whose orders waits for its payment. Afterwards
-- that log is closed at the given time, and the table is empty and has no current log.
pub stop_table_lem :
    (id now : ℕ) (orders : List Order) (s : TableState) (closed : TableLog)
    → (stop_table id now orders s).0 ≡ done closed
    → let s' = (stop_table id now orders s).1 in
      (t t' : Table) × (l : TableLog) × (find (is_table id) s.tables ≡ some t)
      × (find_log t.current_table_log s.logs ≡ some l)
      × All (λ o. is_pending l o ≡ false) orders
      × (find (is_log l.id) s'.logs ≡ some (record l { closing_time = some now }))
      × (find (is_table id) s'.tables ≡ some t')
      × (t'.status ≡ empty)
      × (t'.current_table_log ≡ none)
unfolding stop_table
stop_table_lem id now orders s closed e = elim (Option-cases (find (is_table id) s.tables)) [
  | inl a ↦ absurd (ground arith)
  | inr (t, a) ↦ elim (Option-cases (find_log t.current_table_log s.logs)) [
    | inl b ↦ absurd (ground arith)
    | inr (l, b) ↦ elim (Bool-cases (ltb 0 (length (filter (is_pending l) orders)))) [
      | inl waits ↦ absurd (ground arith)
      | inr ends ↦
          let log =
            find-update_first (is_log l.id) (λ m. record m { closing_time = some now }) s.logs l
              (find_log-own t.current_table_log s.logs l b) (==-refl l.id) in
          let table =
            find-update_all (is_table id) (set_table empty none) s.tables t a
              (find_sound (is_table id) s.tables t a) in
          rw (a, b, ends)
            (
              t,
              set_table empty none t,
              l,
              refl,
              b,
              filter-none (is_pending l) orders ends,
              log,
              table,
              refl,
              refl,
            )
    ]
  ]
]
