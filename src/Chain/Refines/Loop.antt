-- ===== src/Chain/Refines/Loop.antt =====
-- The loop of `GetUpdateStatusTrie` implements the ledger, transaction by transaction.
use sharded_blockchain_dashb.Base.Keyed.{bytes_is_eq}
use sharded_blockchain_dashb.Base.{
  ℕ, ◌+◌, ◌≡◌, refl, ap, ◌∙◌, Bool, ◌&&◌, Option, none, some, List, [], ◌∷◌, inl, inr, arith,
  Bool-cases,
}
use mathlib.Core.Path.{subst}
use sharded_blockchain_dashb.Base.Int.{ℤ, ltb_ℤ}
use sharded_blockchain_dashb.Base.Outcome.{ret-injective, Outcome, ret, >>=-eq-ret}
use sharded_blockchain_dashb.Core.{AccountState, Transaction}
use sharded_blockchain_dashb.Backend.{Backend, TrieLaws}
use sharded_blockchain_dashb.Chain.{Globals}
use sharded_blockchain_dashb.Chain.Status.{
  Progress, Shard, sender_in_shard, process_tx, process_txs,
}
use sharded_blockchain_dashb.Chain.Ledger.{
  Accounts, account_or, Transfer, destination, is_mine, plan, plans, refused, pay_in,
  apply_transfer, apply_transfers,
}
use sharded_blockchain_dashb.Chain.Refines.{
  view, IsReadable, Follows, Follows-stay, charge_lem, charge_refused, credit_lem,
}

account_or-balance :
    (o : Option AccountState) (i j : ℕ) (init : ℤ)
    → (account_or o i init).balance ≡ (account_or o j init).balance
account_or-balance none i j init = refl
account_or-balance (some s) i j init = refl

-- The code does not look the sender up when the transaction is relayed; the meaning is the same.
sender_in_shard_lem :
    (g : Globals) (sh : Shard) (tx : Transaction) {mine : Bool}
    → is_mine g sh tx ≡ ret mine
    → sender_in_shard g sh tx ≡ ret mine
unfolding is_mine sender_in_shard
sender_in_shard_lem g sh tx h = ground arith

-- What a plan was made of.
pub plan_parts :
    (g : Globals) (sh : Shard) (tx : Transaction) (t : Transfer)
    → plan g sh tx ≡ ret t
    → (tx.value ≡ some t.amount)
      × (is_mine g sh tx ≡ ret t.mine)
      × (destination g sh tx ≡ ret (t.to, t.to_init))
      × (tx.sender ≡ t.from)
unfolding plan
plan_parts g sh tx t h = ground arith

-- The test does not depend on the nonce that a new account would get.
refused-eq :
    (init : ℤ) (m : Accounts) (i : ℕ) (t : Transfer)
    → refused init m t ≡ (t.mine && ltb_ℤ (account_or (m t.from) i init).balance t.amount)
refused-eq init m i t = rw (account_or-balance (m t.from) i 0 init)

module _ (lib : Backend) (laws : TrieLaws lib) (g : Globals) (sh : Shard) where
  Follows-trans :
      (p q : Progress lib) {q' : Progress lib} {m m' : Accounts}
      → Follows lib laws p q m
      → Follows lib laws q q' m'
      → Follows lib laws p q' m'
  Follows-trans p q f h = record {
    readable = h.readable;
    shows = h.shows;
    moved = elim f.moved [
      | inl same ↦ elim h.moved [
        | inl still ↦ inl (still.0 ∙ same.0, still.1 ∙ same.1)
        | inr grew ↦ inr (omega (arith, same.1))
      ]
      | inr grew ↦ elim h.moved [
        | inl still ↦ inr (omega (arith, still.1))
        | inr more ↦ inr (omega arith)
      ]
    ];
  }

  Follows-at :
      (p p' : Progress lib) {m m' : Accounts}
      → Follows lib laws p p' m
      → m ≡ m'
      → Follows lib laws p p' m'
  Follows-at p p' f e = subst (λ m. Follows lib laws p p' m) e f

  -- One transaction: the code returns, and the trie then shows what the transaction means.
  process_tx_lem :
      (p : Progress lib) (i : ℕ) (tx : Transaction) (t : Transfer)
      → IsReadable lib p.st
      → plan g sh tx ≡ ret t
      → (p' : Progress lib) × (process_tx lib g sh p i tx ≡ ret p')
        × Follows lib laws p p' (apply_transfer g.init_balance (view lib p.st) i t)
  unfolding process_tx apply_transfer
  process_tx_lem p i tx t r e =
      let (value, mine, to, from) = plan_parts g sh tx t e in
      let m = view lib p.st in
      let low = ltb_ℤ (account_or (m t.from) i g.init_balance).balance t.amount in
      let looked = sender_in_shard_lem g sh tx mine in
      let test = refused-eq g.init_balance m i t in
      elim (Bool-cases t.mine) [
        | inl own ↦ elim (Bool-cases low) [
          | inl poor ↦
              let skip = charge_refused lib laws g sh p i tx r t.amount value (rw from poor) in
              (p, ground arith, Follows-at p p (Follows-stay lib laws p r) (ground arith))
          | inr enough ↦
              let (p1, charged, f1, _) = charge_lem lib laws g sh p i tx r t from value enough in
              let (p2, credited, f2, _) = credit_lem lib laws g sh p1 i tx f1.readable t to value in
              (
                p2,
                ground arith,
                Follows-at p p2 (Follows-trans p p1 f1 f2)
                    (ap (λ (n : Accounts). pay_in n i t) f1.shows ∙ ground arith),
              )
        ]
        | inr foreign ↦
            let (p2, credited, f2, _) = credit_lem lib laws g sh p i tx r t to value in
            (p2, ground arith, Follows-at p p2 f2 (ground arith))
      ]

  pub process_txs_lem :
      (p : Progress lib) (i : ℕ) (txs : List Transaction) (ts : List Transfer)
      → IsReadable lib p.st
      → plans g sh txs ≡ ret ts
      → (p' : Progress lib) × (process_txs lib g sh p i txs ≡ ret p')
        × Follows lib laws p p' (apply_transfers g.init_balance (view lib p.st) i ts)
  unfolding process_txs apply_transfers plans
  process_txs_lem p i [] [] r e = (p, refl, Follows-stay lib laws p r)
  process_txs_lem p i [] (t ∷ ts) r e = absurd (cc)
  process_txs_lem p i (tx ∷ txs) ts r e =
      let (t, first, e') = >>=-eq-ret (plan g sh tx) _ e in
      let (ts', others, e'') = >>=-eq-ret (plans g sh txs) _ e' in
      let whole : ◌≡◌ {A = Outcome (List Transfer)} (ret (t ∷ ts')) (ret ts) = e'' in
      let (p1, one, f1) = process_tx_lem p i tx t r first in
      let (p2, rest, f2) = process_txs_lem p1 (i + 1) txs ts' f1.readable others in
      (
        p2,
        ground arith,
        Follows-at p p2 (Follows-trans p p1 f1 f2) (
            ap (λ (n : Accounts). apply_transfers g.init_balance n (i + 1) ts') f1.shows
            ∙ ap (apply_transfers g.init_balance (view lib p.st) i) (ret-injective whole)),
      )
