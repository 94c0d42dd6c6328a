-- ===== src/Chain/Ledger/Money.antt =====
-- Money on the ledger: what a block adds to a shard, and that no account goes into debt.
use sharded_blockchain_dashb.Base.{
  ℕ, ◌+◌, ◌≡◌, refl, sym, ap, ◌∙◌, true, false, Option, none, some, List, [], ◌∷◌, if◌then◌else◌,
  arith, Bool-cases, Option-cases, inl, inr, All,
}
use sharded_blockchain_dashb.Base.Keyed.{bytes_eq, bytes_eq_iff}
use sharded_blockchain_dashb.Base.Int.{
  +ℤ_assoc, ℤ, pos, ltb_ℤ, ◌+ℤ◌, ◌-ℤ◌, ◌≤ℤ◌, int_laws, pos_part, neg_part,
}
use mathlib.Core.Path.{subst}
use sharded_blockchain_dashb.Core.{Address, AccountState}
use sharded_blockchain_dashb.Chain.Ledger.{
  Accounts, put, account_or, Transfer, refused, pay_out, pay_in, apply_transfer, apply_transfers,
}

-- the balance of an account, or what it would start with
abbrev pub worth : (Address → ℤ) → Accounts → Address → ℤ
worth d m a = (account_or (m a) 0 (d a)).balance

abbrev pub total : (Address → ℤ) → Accounts → List Address → ℤ
total d m [] = pos 0
total d m (a ∷ as') = worth d m a +ℤ total d m as'

-- how often an address is listed
abbrev pub times : Address → List Address → ℕ
times k [] = 0
times k (a ∷ as') = (if bytes_eq k a then 1 else 0) + times k as'

worth-put_self :
    (d : Address → ℤ) (m : Accounts) (k a : Address) (s : AccountState)
    → bytes_eq k a ≡ true
    → worth d (put m k s) a ≡ s.balance
worth-put_self d m k a s h = ground arith

worth-put_other :
    (d : Address → ℤ) (m : Accounts) (k a : Address) (s : AccountState)
    → bytes_eq k a ≡ false
    → worth d (put m k s) a ≡ worth d m a
worth-put_other d m k a s h = ground arith

total-put_absent :
    (d : Address → ℤ) (m : Accounts) (k : Address) (s : AccountState) (l : List Address)
    → times k l ≡ 0
    → total d (put m k s) l ≡ total d m l
total-put_absent d m k s [] h = refl
total-put_absent d m k s (a ∷ l) h = elim (Bool-cases (bytes_eq k a)) [
  | inl same ↦ absurd (ground arith)
  | inr other ↦ cc (worth-put_other d m k a s other, total-put_absent d m k s l (ground arith))
]

swap_parts : (a b t : ℤ) → b +ℤ t +ℤ a ≡ a +ℤ t +ℤ b
swap_parts a b t = omega int_laws

-- A write to an account that is listed once changes the total by the change of that account.
pub total-put :
    (d : Address → ℤ) (m : Accounts) (k : Address) (s : AccountState) (l : List Address)
    → times k l ≡ 1
    → total d (put m k s) l +ℤ worth d m k ≡ total d m l +ℤ s.balance
total-put d m k s [] h = absurd (omega arith)
total-put d m k s (a ∷ l) h = elim (Bool-cases (bytes_eq k a)) [
  | inl same ↦
      let here = ap (worth d m) ((bytes_eq_iff k a).0 same) in
      cc (
        here,
        worth-put_self d m k a s same,
        total-put_absent d m k s l (ground arith),
        swap_parts (worth d m a) s.balance (total d m l),
      )
  | inr other ↦ cc (
    worth-put_other d m k a s other,
    total-put d m k s l (ground arith),
    +ℤ_assoc (worth d m a) (total d (put m k s) l) (worth d m k),
    +ℤ_assoc (worth d m a) (total d m l) s.balance,
  )
]

-- The amounts that arrive from other shards.
abbrev pub inflow : List Transfer → ℤ
inflow [] = pos 0
inflow (t ∷ ts) = (if t.mine then pos 0 else t.amount) +ℤ inflow ts

-- The accounts of a transfer are listed once, and start with what `d` says.
pub record IsCovered (init : ℤ) (d : Address → ℤ) (l : List Address) (t : Transfer) : Type 0 where
  pub from_once : times t.from l ≡ 1
  pub to_once : times t.to l ≡ 1
  pub from_init : d t.from ≡ init
  pub to_init : d t.to ≡ t.to_init

account_or-init :
    (o : Option AccountState) (i j : ℕ) (init : ℤ)
    → (account_or o i init).balance ≡ (account_or o j init).balance
account_or-init none i j init = refl
account_or-init (some s) i j init = refl

add_sub : (t w v u : ℤ) → u +ℤ w ≡ t +ℤ (w -ℤ v) → u +ℤ v ≡ t
add_sub t w v u h = omega (int_laws, ap pos_part h, ap neg_part h)

add_add : (t w v u : ℤ) → u +ℤ w ≡ t +ℤ (w +ℤ v) → u ≡ t +ℤ v
add_add t w v u h = omega (int_laws, ap pos_part h, ap neg_part h)

module _ (init : ℤ) (d : Address → ℤ) (l : List Address) (m : Accounts) (i : ℕ) (t : Transfer)
    (c : IsCovered init d l t) where
  total-pay_out : total d (pay_out init m i t) l +ℤ t.amount ≡ total d m l
  total-pay_out =
      let s = account_or (m t.from) i init in
      let before : s.balance ≡ worth d m t.from =
        account_or-init (m t.from) i 0 init
        ∙ ap (λ x. (account_or (m t.from) 0 x).balance) (sym c.from_init) in
      let step =
        total-put d m t.from (record s { balance = s.balance -ℤ t.amount }) l c.from_once in
      add_sub (total d m l) (worth d m t.from) t.amount (total d (pay_out init m i t) l)
        (step ∙ ap (λ b. total d m l +ℤ (b -ℤ t.amount)) before)

  total-pay_in : total d (pay_in m i t) l ≡ total d m l +ℤ t.amount
  total-pay_in =
      let s = account_or (m t.to) i t.to_init in
      let before : s.balance ≡ worth d m t.to =
        account_or-init (m t.to) i 0 t.to_init
        ∙ ap (λ x. (account_or (m t.to) 0 x).balance) (sym c.to_init) in
      let step = total-put d m t.to (record s { balance = s.balance +ℤ t.amount }) l c.to_once in
      add_add (total d m l) (worth d m t.to) t.amount (total d (pay_in m i t) l)
        (step ∙ ap (λ b. total d m l +ℤ (b +ℤ t.amount)) before)

add_zero : (a : ℤ) → a +ℤ pos 0 ≡ a
add_zero a = omega int_laws

module _ (init : ℤ) (d : Address → ℤ) (l : List Address) where
  -- One transfer between accounts of the shard moves money; one from another shard brings it in.
  total-apply_transfer :
      (m : Accounts) (i : ℕ) (t : Transfer)
      → IsCovered init d l t
      → total d (apply_transfer init m i t) l ≡ total d m l +ℤ (if t.mine then pos 0 else t.amount)
  unfolding apply_transfer
  total-apply_transfer m i t c = elim (Bool-cases t.mine) [
    | inl own ↦ elim (Bool-cases (refused init m t)) [
      | inl poor ↦ ground (arith, add_zero (total d m l))
      | inr paid ↦ ground (
        arith,
        add_zero (total d m l),
        total-pay_out init d l m i t c,
        total-pay_in init d l (pay_out init m i t) i t c,
      )
    ]
    | inr foreign ↦ ground (arith, total-pay_in init d l m i t c)
  ]

  -- A block changes the total of any accounts that cover its transfers by what arrives from other
  -- shards; between accounts of the shard no money is made or lost, refused transfers included.
  pub total-apply_transfers :
      (m : Accounts) (i : ℕ) (ts : List Transfer)
      → All (IsCovered init d l) ts
      → total d (apply_transfers init m i ts) l ≡ total d m l +ℤ inflow ts
  unfolding apply_transfers
  total-apply_transfers m i [] c = sym (add_zero (total d m l))
  total-apply_transfers m i (t ∷ ts) (c, cs) =
      total-apply_transfers (apply_transfer init m i t) (i + 1) ts cs
      ∙ ap (λ x. x +ℤ inflow ts) (total-apply_transfer m i t c)
      ∙ +ℤ_assoc (total d m l) (if t.mine then pos 0 else t.amount) (inflow ts)

-- No account is in debt.
abbrev pub IsSolvent : Accounts → Type 0
IsSolvent m = (a : Address) (s : AccountState) → m a ≡ some s → pos 0 ≤ℤ s.balance

-- A transfer of no negative amount, to an account that does not start in debt.
abbrev pub IsProper : Transfer → Type 0
IsProper t = (pos 0 ≤ℤ t.amount) × (pos 0 ≤ℤ t.to_init)

sub_nonneg : (a v : ℤ) → ltb_ℤ a v ≡ false → pos 0 ≤ℤ a -ℤ v
unfolding ◌-ℤ◌
sub_nonneg a v h = ground arith

add_nonneg : (a v : ℤ) → pos 0 ≤ℤ a → pos 0 ≤ℤ v → pos 0 ≤ℤ a +ℤ v
add_nonneg a v h k = omega int_laws

put-IsSolvent :
    (m : Accounts) (k : Address) (s : AccountState)
    → IsSolvent m
    → pos 0 ≤ℤ s.balance
    → IsSolvent (put m k s)
put-IsSolvent m k s h b a s' e = elim (Bool-cases (bytes_eq k a)) [
  | inl same ↦ ground arith
  | inr other ↦ h a s' (ground arith)
]

account_or-nonneg :
    (m : Accounts) (a : Address) (i : ℕ) (init : ℤ)
    → IsSolvent m
    → pos 0 ≤ℤ init
    → pos 0 ≤ℤ (account_or (m a) i init).balance
account_or-nonneg m a i init h k = elim (Option-cases (m a)) [
  | inl new ↦ ground arith
  | inr (s, e) ↦ ground (arith, h a s e)
]

pay_in-IsSolvent :
    (m : Accounts) (i : ℕ) (t : Transfer) → IsSolvent m → IsProper t → IsSolvent (pay_in m i t)
pay_in-IsSolvent m i t h (amount, start) =
    let s = account_or (m t.to) i t.to_init in
    put-IsSolvent m t.to (record s { balance = s.balance +ℤ t.amount }) h
      (add_nonneg s.balance t.amount (account_or-nonneg m t.to i t.to_init h start) amount)

module _ (init : ℤ) (start : pos 0 ≤ℤ init) where
  pay_out-IsSolvent :
      (m : Accounts) (i : ℕ) (t : Transfer)
      → IsSolvent m
      → ltb_ℤ (account_or (m t.from) 0 init).balance t.amount ≡ false
      → IsSolvent (pay_out init m i t)
  pay_out-IsSolvent m i t h enough =
      let s = account_or (m t.from) i init in
      put-IsSolvent m t.from (record s { balance = s.balance -ℤ t.amount }) h
        (sub_nonneg s.balance t.amount (rw (account_or-init (m t.from) i 0 init) enough))

  apply_transfer-IsSolvent :
      (m : Accounts) (i : ℕ) (t : Transfer)
      → IsSolvent m
      → IsProper t
      → IsSolvent (apply_transfer init m i t)
  unfolding apply_transfer
  apply_transfer-IsSolvent m i t h proper = elim (Bool-cases t.mine) [
    | inl own ↦ elim (Bool-cases (refused init m t)) [
      | inl poor ↦ subst IsSolvent {x = m} (ground arith) h
      | inr paid ↦ subst IsSolvent {x = pay_in (pay_out init m i t) i t} (ground arith) (
          pay_in-IsSolvent (pay_out init m i t) i t (pay_out-IsSolvent m i t h (ground arith))
            proper)
    ]
    | inr foreign ↦
        subst IsSolvent {x = pay_in m i t} (ground arith) (pay_in-IsSolvent m i t h proper)
  ]

  -- A block of transfers of no negative amount puts no account into debt.
  pub apply_transfers-IsSolvent :
      (m : Accounts) (i : ℕ) (ts : List Transfer)
      → IsSolvent m
      → All IsProper ts
      → IsSolvent (apply_transfers init m i ts)
  unfolding apply_transfers
  apply_transfers-IsSolvent m i [] h all = h
  apply_transfers-IsSolvent m i (t ∷ ts) h (p, ps) =
      apply_transfers-IsSolvent (apply_transfer init m i t) (i + 1) ts
        (apply_transfer-IsSolvent m i t h p) ps
