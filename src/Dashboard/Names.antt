-- ===== src/Dashboard/Names.antt =====
-- main.go, `parseDatabaseName`: the shard and the node in the name of a database file.
use sharded_blockchain_dashb.Base.{
  ℕ, zero, suc, ◌+◌, ◌-◌, ◌*◌, ◌/◌, ◌%◌, ◌^◌, ◌<◌, ◌≤◌, ◌≡◌, refl, ap, ◌∙◌, sym, true, false, ◌&&◌,
  Option, none, some, List, [], ◌∷◌, ◌++◌, ltb, leb, ◌==◌, if◌then◌else◌, length, take, drop, All,
  take-append, drop-append, length-append, arith, inl, inr, Bool-cases,
}
use mathlib.Core.List.{append_assoc}
use sharded_blockchain_dashb.Base.Keyed.{Bytes, bytes_eq, bytes_eq_refl}
use sharded_blockchain_dashb.Base.Text.{codes, itoa, decimal_onto}
use sharded_blockchain_dashb.Base.Int.{ℤ, pos, negsuc}
use sharded_blockchain_dashb.Core.{ChainConfig}
use sharded_blockchain_dashb.Storage.{database_name}

-- `strings.TrimSuffix`
unfoldable pub trim_suffix : Bytes → Bytes → Bytes
trim_suffix s suffix =
    let n = length s - length suffix in if bytes_eq (drop n s) suffix then take n s else s

abbrev cons_first : ℕ → List Bytes → List Bytes
cons_first x [] = (x ∷ []) ∷ []
cons_first x (p ∷ ps) = (x ∷ p) ∷ ps

-- `strings.Split` at one byte
unfoldable pub split_at : ℕ → Bytes → List Bytes
split_at c [] = [] ∷ []
split_at c (x ∷ xs) = let rest = split_at c xs in if x == c then [] ∷ rest else cons_first x rest

unfoldable pub digits_fold : ℕ → Bytes → Option ℕ
digits_fold n [] = some n
digits_fold n (c ∷ cs) =
    let rest = digits_fold (n * 10 + (c - 48)) cs in if leb 48 c && leb c 57 then rest else none

abbrev digits : Bytes → Option ℕ
digits [] = none
digits (c ∷ cs) = digits_fold 0 (c ∷ cs)

abbrev positive : Option ℕ → Option ℤ
positive none = none
positive (some n) = if ltb n (2 ^ 63) then some (pos n) else none

abbrev negative : Option ℕ → Option ℤ
negative none = none
negative (some zero) = some (pos 0)
negative (some (suc n)) = if ltb n (2 ^ 63) then some (negsuc n) else none

-- `strconv.Atoi`; `none` is an error
unfoldable pub atoi : Bytes → Option ℤ
unfolding digits_fold
atoi [] = none
atoi (c ∷ cs) =
    if c == b'-'
    then negative (digits cs)
    else if c == b'+'
    then positive (digits cs)
    else positive (digits_fold 0 (c ∷ cs))

abbrev both : Option ℤ → Option ℤ → Option (ℤ × ℤ)
both (some a) (some b) = some (a, b)
both _ _ = none

abbrev two_numbers : List Bytes → Option (ℤ × ℤ)
two_numbers (a ∷ b ∷ []) = both (atoi a) (atoi b)
two_numbers _ = none

unfoldable pub parse_database_name : Bytes → Option (ℤ × ℤ)
parse_database_name name = two_numbers (split_at b'_' (trim_suffix name (codes "_database")))

abbrev AreDigits : Bytes → Type 0
AreDigits = All (λ c. (48 ≤ c) × (c ≤ 57))

decimal_onto-AreDigits : (fuel n : ℕ) (s : Bytes) → AreDigits s → AreDigits (decimal_onto fuel n s)
unfolding decimal_onto
decimal_onto-AreDigits zero n s h = h
decimal_onto-AreDigits (suc fuel) n s h =
    ground (arith, decimal_onto-AreDigits fuel (n / 10) ((48 + n % 10) ∷ s) (omega arith, h))

digits_fold-digit :
    (m d : ℕ) (s : Bytes) → d < 10 → digits_fold m ((48 + d) ∷ s) ≡ digits_fold (m * 10 + d) s
unfolding digits_fold
digits_fold-digit m d s h =
    let same : 48 + d - 48 ≡ d = omega arith in
    let low : leb 48 (48 + d) ≡ true = ground arith in
    let high : leb (48 + d) 57 ≡ true = ground arith in rw (low, high, same) refl

-- The digits of `n` are read back as `n`.
digits_fold-decimal_onto :
    (fuel n : ℕ) (s : Bytes) → n < fuel → digits_fold 0 (decimal_onto fuel n s) ≡ digits_fold n s
unfolding decimal_onto digits_fold
digits_fold-decimal_onto zero n s h = absurd (omega (arith, h))
digits_fold-decimal_onto (suc fuel) n s h =
    let parts : n / 10 * 10 + n % 10 ≡ n = omega arith in
    elim (Bool-cases (ltb n 10)) [
      | inl small ↦
          let same : n % 10 ≡ n = ground (arith, small) in
          rw small (
            digits_fold-digit 0 (n % 10) s (omega arith)
            ∙ ap (λ m. digits_fold m s) (omega (arith, same)))
      | inr large ↦ rw large (
          digits_fold-decimal_onto fuel (n / 10) ((48 + n % 10) ∷ s) (ground (arith, h, large))
          ∙ digits_fold-digit (n / 10) (n % 10) s (omega arith)
          ∙ ap (λ m. digits_fold m s) parts)
    ]

split_at-digits :
    (s t : Bytes) → AreDigits s → split_at b'_' (s ++ (b'_' ∷ t)) ≡ s ∷ split_at b'_' t
unfolding split_at
split_at-digits [] t h = refl
split_at-digits (c ∷ s) t ((low, high), h) =
    let other : (c == b'_') ≡ false = ground (arith, high) in rw (other, split_at-digits s t h) refl

split_at-only : (s : Bytes) → AreDigits s → split_at b'_' s ≡ s ∷ []
unfolding split_at
split_at-only [] h = refl
split_at-only (c ∷ s) ((low, high), h) =
    let other : (c == b'_') ≡ false = ground (arith, high) in rw (other, split_at-only s h) refl

trim_suffix-append : (s suffix : Bytes) → trim_suffix (s ++ suffix) suffix ≡ s
unfolding trim_suffix
trim_suffix-append s suffix =
    let n : length (s ++ suffix) - length suffix ≡ length s =
      omega (arith, length-append s suffix) in
    rw (trim_suffix, n, drop-append s suffix, bytes_eq_refl suffix, take-append s suffix) refl

length-decimal_onto : (fuel n : ℕ) (s : Bytes) → length s ≤ length (decimal_onto fuel n s)
unfolding decimal_onto
length-decimal_onto zero n s = omega arith
length-decimal_onto (suc fuel) n s =
    ground (arith, length-decimal_onto fuel (n / 10) ((48 + n % 10) ∷ s))

length-itoa : (n : ℕ) → 0 < length (itoa n)
unfolding itoa decimal_onto
length-itoa n = ground (arith, length-decimal_onto n (n / 10) ((48 + n % 10) ∷ []))

atoi-AreDigits : (s : Bytes) → AreDigits s → 0 < length s → atoi s ≡ positive (digits_fold 0 s)
unfolding atoi
atoi-AreDigits [] h some_digit = absurd (omega (arith, some_digit))
atoi-AreDigits (c ∷ s) ((low, high), h) some_digit =
    let not_minus : (c == b'-') ≡ false = ground (arith, low) in
    let not_plus : (c == b'+') ≡ false = ground (arith, low) in rw (not_minus, not_plus) refl

itoa-AreDigits : (n : ℕ) → AreDigits (itoa n)
unfolding itoa
itoa-AreDigits n = decimal_onto-AreDigits (suc n) n [] tt

atoi-itoa : (n : ℕ) → n < 2 ^ 63 → atoi (itoa n) ≡ some (pos n)
unfolding itoa digits_fold
atoi-itoa n h =
    let small : ltb n (2 ^ 63) ≡ true = ground (arith, h) in
    atoi-AreDigits (itoa n) (itoa-AreDigits n) (length-itoa n)
    ∙ ap positive (digits_fold-decimal_onto (suc n) n [] (omega arith))
    ∙ rw small refl

-- The dashboard reads back the shard and the node that `NewStorage` puts into the name of a database
-- file, when both fit into a signed integer of 64 bits.
pub parse_database_name-database_name :
    (cc : ChainConfig)
    → cc.shard_id < 2 ^ 63
    → cc.node_id < 2 ^ 63
    → parse_database_name (database_name cc) ≡ some (pos cc.shard_id, pos cc.node_id)
unfolding parse_database_name database_name
parse_database_name-database_name cc h k =
    let shard = itoa cc.shard_id in
    let node = itoa cc.node_id in
    let whole : database_name cc ≡ shard ++ (b'_' ∷ node) ++ codes "_database" =
      sym (append_assoc shard (b'_' ∷ node) (codes "_database")) in
    let parts : split_at b'_' (trim_suffix (database_name cc) (codes "_database"))
        ≡ shard ∷ node ∷ [] =
      ap (λ s. split_at b'_' (trim_suffix s (codes "_database"))) whole
      ∙ ap (split_at b'_') (trim_suffix-append (shard ++ (b'_' ∷ node)) (codes "_database"))
      ∙ split_at-digits shard node (itoa-AreDigits cc.shard_id)
      ∙ ap (◌∷◌ shard) (split_at-only node (itoa-AreDigits cc.node_id)) in
    ap two_numbers parts
    ∙ ap (λ a. both a (atoi node)) (atoi-itoa cc.shard_id h)
    ∙ ap (both (some (pos cc.shard_id))) (atoi-itoa cc.node_id k)
