-- ===== src/Chain/Refines.antt =====
-- `GetUpdateStatusTrie` implements the ledger.
pub mod Loop
use sharded_blockchain_dashb.Base.Keyed.{bytes_is_eq}
use sharded_blockchain_dashb.Base.{
  ℕ, ◌+◌, ◌<◌, ◌≡◌, refl, true, false, ◌||◌, Option, none, some, ◌==◌, ◌⊎◌, inl, inr, arith,
  Bool-cases, Option-cases,
}
use mathlib.Core.Path.{fun_ext}
use sharded_blockchain_dashb.Base.Keyed.{bytes_eq}
use sharded_blockchain_dashb.Base.Int.{ℤ, ltb_ℤ, ◌+ℤ◌, ◌-ℤ◌}
use sharded_blockchain_dashb.Base.Outcome.{Outcome, ret, >>=-eq-ret}
use sharded_blockchain_dashb.Core.{Address, AccountState, Transaction}
use sharded_blockchain_dashb.Core.Account.{deduct, deposit}
use sharded_blockchain_dashb.Address.{addr2shard, addr_virtual_account}
use sharded_blockchain_dashb.Base.Dict.{insert}
use sharded_blockchain_dashb.Backend.{Backend, TrieLaws}
use sharded_blockchain_dashb.Chain.{Globals}
use sharded_blockchain_dashb.Chain.Partition.{get_partition_map}
use sharded_blockchain_dashb.Chain.Status.{
  Progress, Shard, load_account, store_account, charge, credit_real, credit_virtual, credit,
}
use sharded_blockchain_dashb.Chain.Ledger.{
  Accounts, put, account_or, Transfer, destination, pay_out, pay_in,
}

module _ (lib : Backend) where
  abbrev decoded : Option lib.Blob → Option AccountState
  decoded none = none
  decoded (some b) = lib.decode_state b

  -- the accounts that a trie holds
  abbrev pub view : lib.Trie → Accounts
  view t a = decoded (lib.get t a)

  -- every value of the trie is the encoding of an account
  abbrev pub IsReadable : lib.Trie → Type 0
  IsReadable t =
      (a : Address) (b : lib.Blob)
      → lib.get t a ≡ some b
      → (s : AccountState) × (lib.decode_state b ≡ some s)

module _ (lib : Backend) (laws : TrieLaws lib) where
  pub load_account_lem :
      (t : lib.Trie) (a : Address) (i : ℕ) (init : ℤ)
      → IsReadable lib t
      → load_account lib t a i init ≡ ret (account_or (view lib t a) i init)
  unfolding load_account
  load_account_lem t a i init r = elim (Option-cases (lib.get t a)) [
    | inl e ↦ ground arith
    | inr (b, e) ↦ ground (arith, r a b e)
  ]

  pub record Stored (t t' : lib.Trie) (a : Address) (s : AccountState) : Type 0 where
    pub readable : IsReadable lib t'
    pub shows : view lib t' ≡ put (view lib t) a s

  pub store_account_lem :
      (t : lib.Trie) (a : Address) (s : AccountState)
      → IsReadable lib t
      → (t' : lib.Trie) × (store_account lib t a s ≡ ret t') × Stored t t' a s
  unfolding store_account
  store_account_lem t a s r =
      let (b, encodes, decodes, full) = laws.state_round_trip s in
      (
        lib.update t a b,
        ground arith,
        record {
          readable = λ j c e. elim (Bool-cases (bytes_eq a j)) [
            | inl same ↦ (s, ground (arith, laws.get-update t a b j full))
            | inr other ↦ r j c (ground (arith, laws.get-update t a b j full))
          ];
          shows = fun_ext λ j. ground (arith, laws.get-update t a b j full);
        },
      )

  -- A step of the loop: the trie stays readable and shows `m'`; either nothing moved, or `cnt` grew.
  pub record Follows (p p' : Progress lib) (m' : Accounts) : Type 0 where
    pub readable : IsReadable lib p'.st
    pub shows : view lib p'.st ≡ m'
    pub moved : ((p'.st ≡ p.st) × (p'.cnt ≡ p.cnt)) ⊎ (p.cnt < p'.cnt)

  Follows-stay : (p : Progress lib) → IsReadable lib p.st → Follows p p (view lib p.st)
  Follows-stay p r = record { readable = r; shows = refl; moved = inl (refl, refl) }

  module _ (g : Globals) (sh : Shard) (p : Progress lib) (i : ℕ) (tx : Transaction)
      (r : IsReadable lib p.st) where
    charge_refused :
        (v : ℤ)
        → tx.value ≡ some v
        → ltb_ℤ (account_or (view lib p.st tx.sender) i g.init_balance).balance v ≡ true
        → charge lib g p i tx ≡ ret none
    unfolding charge
    charge_refused v e low = ground (arith, load_account_lem p.st tx.sender i g.init_balance r)

    charge_lem :
        (t : Transfer)
        → tx.sender ≡ t.from
        → tx.value ≡ some t.amount
        → ltb_ℤ (account_or (view lib p.st t.from) i g.init_balance).balance t.amount ≡ false
        → (p' : Progress lib) × (charge lib g p i tx ≡ ret (some p'))
          × Follows p p' (pay_out g.init_balance (view lib p.st) i t)
          × (p.cnt < p'.cnt)
    unfolding charge deduct
    charge_lem t from e enough =
        let s = account_or (view lib p.st t.from) i g.init_balance in
        let (st, stores, stored) =
          store_account_lem p.st t.from (record s { balance = s.balance -ℤ t.amount }) r in
        (
          record p { st = st; cnt = p.cnt + 1 },
          ground (arith, load_account_lem p.st tx.sender i g.init_balance r),
          record { readable = stored.readable; shows = stored.shows; moved = inr (omega arith) },
          omega arith,
        )

    credit_real_lem :
        (t : Transfer)
        → tx.recipient ≡ t.to
        → tx.value ≡ some t.amount
        → g.init_balance ≡ t.to_init
        → (p' : Progress lib) × (credit_real lib g p i tx ≡ ret p')
          × Follows p p' (pay_in (view lib p.st) i t)
          × (p.cnt < p'.cnt)
    unfolding credit_real deposit
    credit_real_lem t to e init =
        let s = account_or (view lib p.st t.to) i t.to_init in
        let (st, stores, stored) =
          store_account_lem p.st t.to (record s { balance = s.balance +ℤ t.amount }) r in
        (
          record p { st = st; cnt = p.cnt + 1 },
          ground (arith, load_account_lem p.st t.to i t.to_init r),
          record { readable = stored.readable; shows = stored.shows; moved = inr (omega arith) },
          omega arith,
        )

    credit_virtual_lem :
        (t : Transfer) (main_shard : ℕ)
        → addr2shard g.shard_num tx.sender ≡ ret main_shard
        → addr_virtual_account tx.recipient main_shard ≡ t.to
        → tx.value ≡ some t.amount
        → g.virtual_init_balance ≡ t.to_init
        → (p' : Progress lib) × (credit_virtual lib g p i tx ≡ ret p')
          × Follows p p' (pay_in (view lib p.st) i t)
          × (p.cnt < p'.cnt)
    unfolding credit_virtual deposit
    credit_virtual_lem t main_shard main to e init =
        let s = account_or (view lib p.st t.to) i t.to_init in
        let s' = deposit s t.amount in
        let (st, stores, stored) = store_account_lem p.st t.to s' r in
        (
          record { st = st; cnt = p.cnt + 1; all_state = insert t.to s' p.all_state },
          ground (arith, load_account_lem p.st t.to i t.to_init r),
          record { readable = stored.readable; shows = stored.shows; moved = inr (omega arith) },
          omega arith,
        )

    credit_lem :
        (t : Transfer)
        → destination g sh tx ≡ ret (t.to, t.to_init)
        → tx.value ≡ some t.amount
        → (p' : Progress lib) × (credit lib g sh p i tx ≡ ret p')
          × Follows p p' (pay_in (view lib p.st) i t)
          × (p.cnt < p'.cnt)
    unfolding credit destination
    credit_lem t d e =
        let (shard, at_shard, rest) =
          >>=-eq-ret (get_partition_map g.shard_num sh.partition_map tx.recipient) _ d in
        elim (Bool-cases (shard == sh.shard_id || tx.has_broker)) [
          | inl home ↦
              let rest' : ◌≡◌ {A = Outcome (Address × ℤ)} (ret (tx.recipient, g.init_balance))
                  (ret (t.to, t.to_init)) =
                rw home at rest in
              let (p', returns, follows, grew) = credit_real_lem t (cc) e (cc) in
              (p', ground arith, follows, grew)
          | inr away ↦
              let (main_shard, at_main, same) =
                >>=-eq-ret (addr2shard g.shard_num tx.sender) _ (rw away at rest) in
              let (p', returns, follows, grew) =
                credit_virtual_lem t main_shard at_main (cc) e (cc) in
              (p', ground arith, follows, grew)
        ]
