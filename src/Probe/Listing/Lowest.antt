-- ===== src/Probe/Listing/Lowest.antt =====
-- The rows that `main` of cmd/probe shows of a log.
use sharded_blockchain_dashb.Base.{
  ℕ, ◌+◌, ◌≡◌, ◌≢◌, refl, sym, ap, ◌∙◌, true, false, List, [], ◌∷◌, ◌++◌, length, take, drop,
  take-append-drop, length-take, inl, inr, Bool-cases, All, arith,
}
use sharded_blockchain_dashb.Base.Keyed.{Bytes}
use sharded_blockchain_dashb.Base.Outcome.{ret}
use sharded_blockchain_dashb.LevelDb.Log.{parse_level_db_log_ends}
use sharded_blockchain_dashb.Dashboard.{bytes_ltb}
use sharded_blockchain_dashb.Probe
use sharded_blockchain_dashb.Probe.{Row, smaller, rows_out_of_fuel}
use sharded_blockchain_dashb.Probe.Same.{mapped, forget_scan, parse_level_db_log_same}
use sharded_blockchain_dashb.Probe.Listing.{insert_row, sort_rows, first_rows}

-- the loops of the log reader end
pub parse_level_db_log-ends : (file : Bytes) → Probe.parse_level_db_log file ≢ ret rows_out_of_fuel
parse_level_db_log-ends file stuck =
    parse_level_db_log_ends file
      (sym (parse_level_db_log_same file) ∙ ap (mapped forget_scan) stuck)

-- not after, in the order of strings
abbrev pub NotAfter : Bytes → Bytes → Type 0
NotAfter a b = bytes_ltb b a ≡ false

NotAfter-trans : (a b c : Bytes) → NotAfter a b → NotAfter b c → NotAfter a c
unfolding bytes_ltb
NotAfter-trans [] [] [] h k = refl
NotAfter-trans [] [] (z ∷ c) h k = refl
NotAfter-trans [] (y ∷ b) [] h k = refl
NotAfter-trans [] (y ∷ b) (z ∷ c) h k = refl
NotAfter-trans (x ∷ a) [] c h k = cc
NotAfter-trans (x ∷ a) (y ∷ b) [] h k = cc
NotAfter-trans (x ∷ a) (y ∷ b) (z ∷ c) h k = ground (arith, h, k, NotAfter-trans a b c)

NotAfter-total : (a b : Bytes) → bytes_ltb a b ≡ true → NotAfter a b
unfolding bytes_ltb
NotAfter-total [] [] h = cc
NotAfter-total [] (y ∷ b) h = refl
NotAfter-total (x ∷ a) [] h = cc
NotAfter-total (x ∷ a) (y ∷ b) h = ground (arith, h, NotAfter-total a b)

abbrev pub AreOrdered : List Row → Type 0
AreOrdered [] = Unit
AreOrdered (r ∷ rs) = All (λ q. NotAfter r.hex q.hex) rs × AreOrdered rs

-- A sum over rows. Two lists with the same sums hold the same rows.
abbrev pub sum_rows : (Row → ℕ) → List Row → ℕ
sum_rows f [] = 0
sum_rows f (r ∷ rs) = f r + sum_rows f rs

sum_rows-insert_row :
    (f : Row → ℕ) (r : Row) (rs : List Row) → sum_rows f (insert_row r rs) ≡ f r + sum_rows f rs
unfolding insert_row
sum_rows-insert_row f r [] = refl
sum_rows-insert_row f r (q ∷ qs) = elim (Bool-cases (bytes_ltb q.hex r.hex)) [
  | inl less ↦ rw less (omega (arith, sum_rows-insert_row f r qs))
  | inr not_less ↦ rw not_less refl
]

sum_rows-sort_rows : (f : Row → ℕ) (rs : List Row) → sum_rows f (sort_rows rs) ≡ sum_rows f rs
unfolding sort_rows
sum_rows-sort_rows f [] = refl
sum_rows-sort_rows f (r ∷ rs) =
    omega (arith, sum_rows-insert_row f r (sort_rows rs), sum_rows-sort_rows f rs)

All-NotAfter :
    (a b : Bytes) (rs : List Row)
    → NotAfter a b
    → All (λ q. NotAfter b q.hex) rs
    → All (λ q. NotAfter a q.hex) rs
All-NotAfter a b [] h all = tt
All-NotAfter a b (r ∷ rs) h (k, ks) = (NotAfter-trans a b r.hex h k, All-NotAfter a b rs h ks)

All-insert_row :
    (a : Bytes) (r : Row) (rs : List Row)
    → NotAfter a r.hex
    → All (λ q. NotAfter a q.hex) rs
    → All (λ q. NotAfter a q.hex) (insert_row r rs)
unfolding insert_row
All-insert_row a r [] h all = (h, tt)
All-insert_row a r (q ∷ qs) h (k, ks) = elim (Bool-cases (bytes_ltb q.hex r.hex)) [
  | inl less ↦ rw less (k, All-insert_row a r qs h ks)
  | inr not_less ↦ rw not_less (h, (k, ks))
]

insert_row-AreOrdered : (r : Row) (rs : List Row) → AreOrdered rs → AreOrdered (insert_row r rs)
unfolding insert_row
insert_row-AreOrdered r [] h = (tt, tt)
insert_row-AreOrdered r (q ∷ qs) (below, h) = elim (Bool-cases (bytes_ltb q.hex r.hex)) [
  | inl less ↦ rw less (
    All-insert_row q.hex r qs (NotAfter-total q.hex r.hex less) below,
    insert_row-AreOrdered r qs h,
  )
  | inr not_less ↦ rw not_less ((not_less, All-NotAfter r.hex q.hex qs not_less below), (below, h))
]

sort_rows-AreOrdered : (rs : List Row) → AreOrdered (sort_rows rs)
unfolding sort_rows
sort_rows-AreOrdered [] = tt
sort_rows-AreOrdered (r ∷ rs) = insert_row-AreOrdered r (sort_rows rs) (sort_rows-AreOrdered rs)

length-insert_row : (r : Row) (rs : List Row) → length (insert_row r rs) ≡ 1 + length rs
unfolding insert_row
length-insert_row r [] = refl
length-insert_row r (q ∷ qs) = elim (Bool-cases (bytes_ltb q.hex r.hex)) [
  | inl less ↦ rw less (omega (arith, length-insert_row r qs))
  | inr not_less ↦ rw not_less (omega arith)
]

length-sort_rows : (rs : List Row) → length (sort_rows rs) ≡ length rs
unfolding sort_rows
length-sort_rows [] = refl
length-sort_rows (r ∷ rs) = omega (arith, length-insert_row r (sort_rows rs), length-sort_rows rs)

-- `main` of cmd/probe shows of a log its twenty rows of lowest keys, or all where it has fewer: the
-- rows of the log are those shown and the others, no key of which is below one that is shown.
pub first_rows_lem :
    (rows : List Row)
    → (others : List Row) × (length (first_rows rows) ≡ smaller (length rows) 20)
      × AreOrdered (first_rows rows ++ others)
      × ((f : Row → ℕ) → sum_rows f (first_rows rows ++ others) ≡ sum_rows f rows)
unfolding first_rows
first_rows_lem rows =
    let n = smaller (length rows) 20 in
    let whole : take n (sort_rows rows) ++ drop n (sort_rows rows) ≡ sort_rows rows =
      take-append-drop n (sort_rows rows) in
    (
      drop n (sort_rows rows),
      ground (arith, length-take n (sort_rows rows), length-sort_rows rows),
      rw whole (sort_rows-AreOrdered rows),
      λ f. rw whole (sum_rows-sort_rows f rows),
    )
