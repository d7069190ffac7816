-- ===== src/Table/OpenCount.antt =====
-- The number of open logs of a table, under changes of single logs and under `upsert`.
use mathlib.Core.Path.{subst}
use gitrema_backend.Prelude.{
  ℕ, suc, ◌≤◌, ◌≡◌, refl, ap, inl, inr, Bool, true, false, Option, none, some, List, [], ◌∷◌, arith,
  Bool-cases, Option-cases, filter, length, eq_of_==,
}
use gitrema_backend.Prelude.Collection.{find, update_first}
use gitrema_backend.Table.State.{TableStatus, TableLog, TableState, is_open_of, same_table}
use gitrema_backend.Table.Log.{upsert, point_table}

abbrev pub open_logs : Option ℕ → List TableLog → ℕ
open_logs i ls = length (filter (is_open_of i) ls)

-- Of each table at most one log is open.
abbrev pub OneOpen : TableState → Type 0
OneOpen s = (i : Option ℕ) → open_logs i s.logs ≤ 1

-- A change that reopens no log, and moves none to another table.
abbrev pub Harmless : (TableLog → TableLog) → Type 0
Harmless f = (i : Option ℕ) (l : TableLog) → is_open_of i l ≡ false → is_open_of i (f l) ≡ false

pub update_first-open_logs :
    (p : TableLog → Bool) (f : TableLog → TableLog) (i : Option ℕ) (ls : List TableLog)
    → Harmless f
    → open_logs i (update_first p f ls) ≤ open_logs i ls
update_first-open_logs p f i [] h = omega arith
update_first-open_logs p f i (l ∷ ls) h =
    let rest = update_first-open_logs p f i ls h in
    elim (Bool-cases (p l)) [
      | inl y ↦ elim (Bool-cases (is_open_of i l)) [
        | inl open_ ↦ elim (Bool-cases (is_open_of i (f l))) [
          | inl still ↦ rw (y, open_, still) (omega arith)
          | inr closed ↦ rw (y, open_, closed) (omega arith)
        ]
        | inr closed ↦ rw (y, closed, h i l closed) (omega arith)
      ]
      | inr n ↦ elim (Bool-cases (is_open_of i l)) [
        | inl open_ ↦ rw (n, open_) (omega (arith, rest))
        | inr closed ↦ rw (n, closed) rest
      ]
    ]

pub save-OneOpen :
    (p : TableLog → Bool) (f : TableLog → TableLog) (s : TableState)
    → Harmless f
    → OneOpen s
    → OneOpen (record s { logs = update_first p f s.logs })
save-OneOpen p f s h one i = omega (arith, update_first-open_logs p f i s.logs h, one i)

pub point_table-OneOpen :
    (t : Option ℕ) (status : TableStatus) (log : Option ℕ) (s : TableState)
    → OneOpen s
    → OneOpen (point_table t status log s)
point_table-OneOpen none status log s h = h
point_table-OneOpen (some t) status log s h = h

pub find-none-open_logs :
    (i : Option ℕ) (ls : List TableLog) → find (is_open_of i) ls ≡ none → open_logs i ls ≡ 0
find-none-open_logs i [] e = refl
find-none-open_logs i (l ∷ ls) e = elim (Bool-cases (is_open_of i l)) [
  | inl open_ ↦ absurd (ground arith)
  | inr closed ↦ rw closed (find-none-open_logs i ls (ground arith))
]

pub same_table_sound : (i j : Option ℕ) → same_table i j ≡ true → i ≡ j
same_table_sound none none e = refl
same_table_sound none (some _) e = absurd (ground arith)
same_table_sound (some _) none e = absurd (ground arith)
same_table_sound (some a) (some b) e = ap some (eq_of_== a b e)

pub upsert-OneOpen :
    (i : Option ℕ) (change : TableLog → TableLog) (fresh : ℕ → TableLog) (s : TableState)
    → Harmless change
    → ((n : ℕ) → (fresh n).table_id ≡ i)
    → OneOpen s
    → OneOpen (upsert i change fresh s).1
upsert-OneOpen i change fresh s h of_table one = elim (Option-cases (find (is_open_of i) s.logs)) [
  | inr (_, e) ↦ rw (e, upsert) (save-OneOpen (is_open_of i) change s h one)
  | inl e ↦ rw (e, upsert) (inserted e)
]
  where
    inserted :
        find (is_open_of i) s.logs ≡ none
        → OneOpen (record s { logs = fresh s.next_id ∷ s.logs; next_id = suc s.next_id })
    inserted e j = elim (Bool-cases (is_open_of j (fresh s.next_id))) [
      | inr closed ↦ rw closed (one j)
      | inl open_ ↦
          let same : i ≡ j = same_table_sound i j (ground (arith, of_table s.next_id)) in
          rw open_ (
            omega (
              arith,
              find-none-open_logs j s.logs (subst (λ k. find (is_open_of k) s.logs ≡ none) same e),
            ))
    ]

-- A log that may be missing.
pub optional-OneOpen :
    (x : Option TableLog) (s : TableState) (f : TableLog → TableState)
    → OneOpen s
    → ((l : TableLog) → OneOpen (f l))
    → OneOpen (elim x [ none ↦ s | some l ↦ f l ])
optional-OneOpen none s f h k = h
optional-OneOpen (some l) s f h k = k l
