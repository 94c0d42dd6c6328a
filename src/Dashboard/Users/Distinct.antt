-- ===== src/Dashboard/Users/Distinct.antt =====
-- The number of users is the number of different accounts.
use mathlib.Core.List.{map-append}
use sharded_blockchain_dashb.Base.{
  ℕ, ◌≡◌, refl, sym, ap, ◌∙◌, Bool, true, false, ◌||◌, Option, none, some, List, [], ◌∷◌, ◌++◌, inl,
  inr, Bool-cases, if◌then◌else◌, length, map, keep, keep-append, Option-cases, arith,
}
use sharded_blockchain_dashb.Base.Keyed.{Bytes, bytes_eq, bytes_eq_iff}
use sharded_blockchain_dashb.Base.Text.{codes}
use sharded_blockchain_dashb.Base.Outcome.{Outcome, ret, panic, ◌>>=◌, Outcome-cases}
use sharded_blockchain_dashb.LevelDb.{BatchRow}
use sharded_blockchain_dashb.Dashboard.Users.{
  contains, extract_account_id, is_in, add_id, add_rows, read_log, add_logs, count_of,
  load_user_count,
}

abbrev pub AreDistinct : List Bytes → Type 0
AreDistinct [] = Unit
AreDistinct (id ∷ ids) = (is_in id ids ≡ false) × AreDistinct ids

-- The accounts of the rows that hold an account state.
abbrev pub ids_of : List BatchRow → List Bytes
ids_of rows = map extract_account_id (keep (λ r. contains r.value (codes "AccountState")) rows)

-- The rows of the logs of all directories, in order.
abbrev pub all_rows : List (Bool × Option Bytes) → Outcome (Option (List BatchRow))
all_rows [] = ret (some [])
all_rows ((is_dir, log) ∷ logs) =
    let next = read_log log >>= λ r. elim r [
      | none ↦ ret none
      | some rows ↦
          (all_rows logs >>= λ o. elim o [
            | none ↦ ret none
            | some more ↦ ret (some (rows ++ more))
          ])
    ] in
    let skip = all_rows logs in if is_dir then next else skip

is_in-add_id :
    (j id : Bytes) (ids : List Bytes) → is_in j (add_id id ids) ≡ (bytes_eq id j || is_in j ids)
unfolding is_in
is_in-add_id j id ids = elim (Bool-cases (is_in id ids)) [
  | inl old ↦ elim (Bool-cases (bytes_eq id j)) [
    | inl same ↦
        let e = (bytes_eq_iff id j).0 same in rw (old, same) (ap (λ x. is_in x ids) (sym e) ∙ old)
    | inr other ↦ rw (old, other)
  ]
  | inr new ↦ rw new
]

add_id-AreDistinct : (id : Bytes) (ids : List Bytes) → AreDistinct ids → AreDistinct (add_id id ids)
add_id-AreDistinct id ids h = elim (Bool-cases (is_in id ids)) [
  | inl old ↦ rw old h
  | inr new ↦ rw new (new, h)
]

is_in-append : (j : Bytes) (xs ys : List Bytes) → is_in j (xs ++ ys) ≡ (is_in j xs || is_in j ys)
unfolding is_in
is_in-append j [] ys = refl
is_in-append j (x ∷ xs) ys = ground (arith, is_in-append j xs ys)

ids_of-append : (xs ys : List BatchRow) → ids_of (xs ++ ys) ≡ ids_of xs ++ ids_of ys
ids_of-append xs ys =
    ap (map extract_account_id) (keep-append (λ r. contains r.value (codes "AccountState")) xs ys)
    ∙ map-append extract_account_id (keep (λ r. contains r.value (codes "AccountState")) xs)
        (keep (λ r. contains r.value (codes "AccountState")) ys)

is_in-add_rows :
    (j : Bytes) (ids : List Bytes) (rows : List BatchRow)
    → is_in j (add_rows ids rows) ≡ (is_in j (ids_of rows) || is_in j ids)
unfolding add_rows is_in
is_in-add_rows j ids [] = refl
is_in-add_rows j ids (row ∷ rows) = elim (Bool-cases (contains row.value (codes "AccountState"))) [
  | inl account ↦
      let id = extract_account_id row in
      rw account (ground (arith, is_in-add_rows j (add_id id ids) rows, is_in-add_id j id ids))
  | inr other ↦ rw other (is_in-add_rows j ids rows)
]

add_rows-AreDistinct :
    (ids : List Bytes) (rows : List BatchRow) → AreDistinct ids → AreDistinct (add_rows ids rows)
unfolding add_rows
add_rows-AreDistinct ids [] h = h
add_rows-AreDistinct ids (row ∷ rows) h =
    elim (Bool-cases (contains row.value (codes "AccountState"))) [
      | inl account ↦
          let id = extract_account_id row in
          rw account (add_rows-AreDistinct (add_id id ids) rows (add_id-AreDistinct id ids h))
      | inr other ↦ rw other (add_rows-AreDistinct ids rows h)
    ]

-- What the loops over the logs make of `ids`.
abbrev Adds : List Bytes → Outcome (Option (List BatchRow)) → Outcome (Option (List Bytes)) → Type 0
Adds ids panic o = o ≡ panic
Adds ids (ret none) o = o ≡ ret none
Adds ids (ret (some rows)) o =
    (out : List Bytes) × (o ≡ ret (some out))
    × AreDistinct out
    × ((j : Bytes) → is_in j out ≡ (is_in j (ids_of rows) || is_in j ids))

Adds-append :
    (ids : List Bytes) (rows : List BatchRow) (m : Outcome (Option (List BatchRow)))
    (o : Outcome (Option (List Bytes)))
    → Adds (add_rows ids rows) m o
    → Adds ids (m >>= λ r. elim r [ none ↦ ret none | some more ↦ ret (some (rows ++ more)) ]) o
Adds-append ids rows panic o h = h
Adds-append ids rows (ret none) o h = h
Adds-append ids rows (ret (some more)) o (out, e, d, agree) = (
  out,
  e,
  d,
  λ j. ground (
    arith,
    agree j,
    is_in-add_rows j ids rows,
    ids_of-append rows more,
    is_in-append j (ids_of rows) (ids_of more),
  ),
)

add_logs-Adds :
    (ids : List Bytes) (logs : List (Bool × Option Bytes))
    → AreDistinct ids
    → Adds ids (all_rows logs) (add_logs ids logs)
unfolding add_logs is_in
add_logs-Adds ids [] h = (ids, refl, h, λ j. refl)
add_logs-Adds ids ((false, log) ∷ logs) h = add_logs-Adds ids logs h
add_logs-Adds ids ((true, log) ∷ logs) h = elim (Outcome-cases (read_log log)) [
  | inl panics ↦ rw panics refl
  | inr (r, reads) ↦ elim (Option-cases r) [
    | inl fails ↦ rw (reads, fails) refl
    | inr (rows, found) ↦
        rw (reads, found)
          (Adds-append ids rows (all_rows logs) (add_logs (add_rows ids rows) logs)
            (add_logs-Adds (add_rows ids rows) logs (add_rows-AreDistinct ids rows h)))
  ]
]

-- What `loadUserCount` returns, by the rows of all the logs.
abbrev pub Counts : Outcome (Option (List BatchRow)) → Outcome (Option ℕ) → Type 0
Counts panic o = o ≡ panic
Counts (ret none) o = o ≡ ret none
Counts (ret (some rows)) o =
    (ids : List Bytes) × (o ≡ ret (some (length ids)))
    × AreDistinct ids
    × ((id : Bytes) → is_in id ids ≡ is_in id (ids_of rows))

Adds-Counts :
    (m : Outcome (Option (List BatchRow))) (o : Outcome (Option (List Bytes)))
    → Adds [] m o
    → Counts m (o >>= λ ids. ret (count_of ids))
unfolding is_in
Adds-Counts panic o h = rw h refl
Adds-Counts (ret none) o h = rw h refl
Adds-Counts (ret (some rows)) o (ids, e, d, agree) =
    (ids, rw e refl, d, λ j. ground (arith, agree j))

-- `loadUserCount` counts each account once: where all the logs can be read it returns the length of a
-- list without repetitions that holds exactly the accounts of those rows, of all the directories'
-- logs, whose value contains "AccountState". Where a log fails, it returns an error, and where the
-- reader panics it panics.
pub load_user_count_lem :
    (logs : List (Bool × Option Bytes)) → Counts (all_rows logs) (load_user_count (some logs))
unfolding load_user_count
load_user_count_lem logs = Adds-Counts (all_rows logs) (add_logs [] logs) (add_logs-Adds [] logs tt)
