-- ===== src/Dashboard/Store/AnyOrder.antt =====
-- Go goes through the chosen files, and through the map of the shards, in any order: what
-- `loadShardStores` returns and what `Snapshot` shows are the same in all of them.
use sharded_blockchain_dashb.Base.Int.{int_eq}
use mathlib.Core.Quot
use sharded_blockchain_dashb.Base.{
  ℕ, Bool, ◌≡◌, refl, sym, ap, ◌∙◌, ◌||◌, not, Option, none, some, List, [], ◌∷◌, inl, inr,
  Bool-cases, Option-cases, arith,
}
use sharded_blockchain_dashb.Base.Keyed.{Bytes}
use sharded_blockchain_dashb.Base.Dict.{Dict, lookup, insert, lookup-insert, lookup-insert_self}
use sharded_blockchain_dashb.Base.Maps.{AreDistinct, SameMap, insert-AreDistinct, GoMap}
use sharded_blockchain_dashb.Base.Text.{codes}
use sharded_blockchain_dashb.Base.Int.{ℤ, ltb_ℤ, eq_ℤ, eq_ℤ_iff}
use sharded_blockchain_dashb.Base.Outcome.{
  Outcome, ret, panic, Outcome-cases, >>=-eq-ret, ret-injective,
}
use sharded_blockchain_dashb.Core.{Time}
use sharded_blockchain_dashb.Backend.{Backend}
use sharded_blockchain_dashb.Dashboard.{ShardStore, load_shard}
use sharded_blockchain_dashb.Dashboard.Names.{parse_database_name}
use sharded_blockchain_dashb.Dashboard.Choose.{
  has_suffix, parse_node_from_path, choose_for, choose_entry, choose_entries,
}
use sharded_blockchain_dashb.Dashboard.Store.{
  StatView, ShardView, load_each, query_shards, snapshot,
}
use sharded_blockchain_dashb.Dashboard.Store.Order.{sort_shards-SameMap}

choose_for-AreDistinct :
    (chosen : Dict ℤ Bytes) (name : Bytes) (s n : ℤ) (o : Option Bytes)
    → AreDistinct chosen
    → AreDistinct (choose_for chosen name s n o)
choose_for-AreDistinct chosen name s n none d = insert-AreDistinct s name chosen d
choose_for-AreDistinct chosen name s n (some current) d =
    elim (Bool-cases (ltb_ℤ n (parse_node_from_path current))) [
      | inl lower ↦ rw lower (insert-AreDistinct s name chosen d)
      | inr higher ↦ rw higher d
    ]

choose_entry-AreDistinct :
    (chosen : Dict ℤ Bytes) (e : Bytes × Bool)
    → AreDistinct chosen
    → AreDistinct (choose_entry chosen e)
unfolding choose_entry
choose_entry-AreDistinct chosen (name, is_dir) d =
    elim (Bool-cases (is_dir || not (has_suffix name (codes "_database")))) [
      | inl skipped ↦ rw skipped d
      | inr taken ↦ elim (Option-cases (parse_database_name name)) [
        | inl bad ↦ rw (taken, bad) d
        | inr ((s, n), parsed) ↦
            rw (taken, parsed) (choose_for-AreDistinct chosen name s n (lookup s chosen) d)
      ]
    ]

pub choose_entries-AreDistinct :
    (chosen : Dict ℤ Bytes) (es : List (Bytes × Bool))
    → AreDistinct chosen
    → AreDistinct (choose_entries chosen es)
unfolding choose_entries
choose_entries-AreDistinct chosen [] d = d
choose_entries-AreDistinct chosen (e ∷ es) d =
    choose_entries-AreDistinct (choose_entry chosen e) es (choose_entry-AreDistinct chosen e d)

snapshot-SameMap :
    (size users : ℕ) (es ds : Dict ℤ ShardStore)
    → AreDistinct es
    → AreDistinct ds
    → SameMap es ds
    → snapshot (record { size_bytes = size; user_count = users; shards = es })
      ≡ snapshot (record { size_bytes = size; user_count = users; shards = ds })
unfolding snapshot query_shards
snapshot-SameMap size users es ds d c same = rw (sort_shards-SameMap es ds d c same) refl

views_set : IsSet (StatView × List ShardView)
views_set = hlevel

-- `Snapshot` of the map itself
unfoldable snapshot_map : ℕ → ℕ → GoMap ℤ ShardStore → StatView × List ShardView
snapshot_map size users =
    Quot.lift views_set
      (λ m. snapshot (record { size_bytes = size; user_count = users; shards = m.0 }))
      λ m n same. snapshot-SameMap size users m.0 n.0 m.1 n.1 same

abbrev pub map_of : (es : Dict ℤ ShardStore) → AreDistinct es → GoMap ℤ ShardStore
map_of es d = Quot.mk (es, d)

-- Both panic, or both return the same map, of which `Snapshot` then shows the same.
abbrev pub LoadsSame : Outcome (Dict ℤ ShardStore) → Outcome (Dict ℤ ShardStore) → Type 0
LoadsSame panic panic = Unit
LoadsSame (ret es) (ret ds) =
    (d : AreDistinct es) × (c : AreDistinct ds) × (map_of es d ≡ map_of ds c)
    × ((size users : ℕ)
        → snapshot (record { size_bytes = size; user_count = users; shards = es })
          ≡ snapshot (record { size_bytes = size; user_count = users; shards = ds }))
LoadsSame _ _ = ⊥

SameMap-LoadsSame :
    (es ds : Dict ℤ ShardStore)
    → AreDistinct es
    → AreDistinct ds
    → SameMap es ds
    → LoadsSame (ret es) (ret ds)
unfolding snapshot_map
SameMap-LoadsSame es ds d c same =
    let one : map_of es d ≡ map_of ds c = Quot.sound same in
    (d, c, one, λ size users. ap (snapshot_map size users) one)

module _ (lib : Backend) (disk : Bytes → lib.Bolt) (format_time : Time → Bytes) where
  -- the store of shard `k` after the loop, where it stood at `before`
  abbrev IsLoaded : ℤ → Option Bytes → Option ShardStore → Option ShardStore → Type 0
  IsLoaded k none before after = after ≡ before
  IsLoaded k (some path) before after =
      (s : ShardStore) × (load_shard lib disk format_time k ≡ ret s) × (after ≡ some s)

  -- every chosen shard loads
  abbrev pub Load : Dict ℤ Bytes → Type 0
  Load chosen =
      (k : ℤ) (path : Bytes)
      → lookup k chosen ≡ some path
      → (s : ShardStore) × (load_shard lib disk format_time k ≡ ret s)

  load_each-AreDistinct :
      (shards : Dict ℤ ShardStore) (chosen : Dict ℤ Bytes) {out : Dict ℤ ShardStore}
      → AreDistinct shards
      → load_each lib disk format_time shards chosen ≡ ret out
      → AreDistinct out
  unfolding load_each
  load_each-AreDistinct shards [] d h = rw (← ret-injective h) d
  load_each-AreDistinct shards ((k, path) ∷ chosen) d h =
      let (s, loaded, rest) = >>=-eq-ret (load_shard lib disk format_time k) _ h in
      load_each-AreDistinct (insert k s shards) chosen (insert-AreDistinct k s shards d) rest

  load_each-IsLoaded :
      (shards : Dict ℤ ShardStore) (chosen : Dict ℤ Bytes) {out : Dict ℤ ShardStore} (j : ℤ)
      → AreDistinct chosen
      → load_each lib disk format_time shards chosen ≡ ret out
      → IsLoaded j (lookup j chosen) (lookup j shards) (lookup j out)
  unfolding load_each lookup
  load_each-IsLoaded shards [] j d h = ap (lookup j) (sym (ret-injective h))
  load_each-IsLoaded shards ((k, path) ∷ chosen) j (new, d) h =
      let (s, loaded, rest) = >>=-eq-ret (load_shard lib disk format_time k) _ h in
      let later = load_each-IsLoaded (insert k s shards) chosen j d rest in
      elim (Bool-cases (eq_ℤ k j)) [
        | inl here ↦
            let at : k ≡ j = (eq_ℤ_iff k j).0 here in
            let gone : lookup j chosen ≡ none = rw (← at) new in
            let set : lookup j (insert k s shards) ≡ some s =
              rw (← at) (lookup-insert_self k s shards) in
            rw here (s, rw (← at) loaded, (rw gone at later) ∙ set)
        | inr there ↦
            let kept : lookup j (insert k s shards) ≡ lookup j shards =
              rw (lookup-insert k j s shards, there) refl in
            rw there (rw kept at later)
      ]

  pub load_each-returns :
      (shards : Dict ℤ ShardStore) (chosen : Dict ℤ Bytes)
      → AreDistinct chosen
      → Load chosen
      → (out : Dict ℤ ShardStore) × (load_each lib disk format_time shards chosen ≡ ret out)
  unfolding load_each lookup
  load_each-returns shards [] d all = (shards, refl)
  load_each-returns shards ((k, path) ∷ chosen) (new, d) all =
      let (s, loaded) = all k path (ground (arith, eq_ℤ_iff k k)) in
      let later : Load chosen = λ j path there. elim (Bool-cases (eq_ℤ k j)) [
        | inl here ↦
            let at : k ≡ j = (eq_ℤ_iff k j).0 here in
            let gone : lookup j chosen ≡ none = rw (← at) new in cc (gone, there)
        | inr other ↦ all j path (rw other there)
      ] in
      let (out, rest) = load_each-returns (insert k s shards) chosen d later in
      (out, rw loaded rest)

  load_each-Load :
      (chosen : Dict ℤ Bytes) {out : Dict ℤ ShardStore}
      → AreDistinct chosen
      → load_each lib disk format_time [] chosen ≡ ret out
      → Load chosen
  load_each-Load chosen d h k path there =
      let loaded = rw there at (load_each-IsLoaded [] chosen k d h) in (loaded.0, loaded.1)

  IsLoaded-unique :
      (k : ℤ) (path : Option Bytes) (before one other : Option ShardStore)
      → IsLoaded k path before one
      → IsLoaded k path before other
      → one ≡ other
  IsLoaded-unique k none before one other h g = h ∙ sym g
  IsLoaded-unique k (some path) before one other (s, loaded, set) (t, again, got) = cc

  load_each_same :
      (chosen given : Dict ℤ Bytes) (es : Dict ℤ ShardStore)
      → AreDistinct chosen
      → AreDistinct given
      → SameMap chosen given
      → load_each lib disk format_time [] chosen ≡ ret es
      → LoadsSame (ret es) (load_each lib disk format_time [] given)
  load_each_same chosen given es d c same h =
      let all = load_each-Load chosen d h in
      let (ds, got) = load_each-returns [] given c (λ k path there. all k path (same k ∙ there)) in
      rw got (
        SameMap-LoadsSame es ds (load_each-AreDistinct [] chosen tt h)
          (load_each-AreDistinct [] given tt got)
          λ k.
            IsLoaded-unique k (lookup k given) (lookup k []) (lookup k es) (lookup k ds)
              (rw (← same k) (load_each-IsLoaded [] chosen k d h))
              (load_each-IsLoaded [] given k c got))

  -- Go goes through the map of the chosen files in some order, which is a list `given` of the same
  -- entries, each key once. Whatever the order, loading the files panics or returns the same map of
  -- shards, and `Snapshot`, whatever order it meets those in, shows the same.
  pub load_each_any_order :
      (entries : List (Bytes × Bool)) (given : Dict ℤ Bytes)
      → AreDistinct given
      → SameMap (choose_entries [] entries) given
      → LoadsSame
          (load_each lib disk format_time [] (choose_entries [] entries))
          (load_each lib disk format_time [] given)
  load_each_any_order entries given c same =
      let chosen = choose_entries [] entries in
      let d = choose_entries-AreDistinct [] entries tt in
      elim (Outcome-cases (load_each lib disk format_time [] chosen)) [
        | inr (es, loaded) ↦ rw loaded (load_each_same chosen given es d c same loaded)
        | inl fails ↦ elim (Outcome-cases (load_each lib disk format_time [] given)) [
          | inl also ↦ rw (fails, also) tt
          | inr (ds, loaded) ↦
              absurd (rw fails at (load_each_same given chosen ds c d (λ k. sym (same k)) loaded))
        ]
      ]
