-- ===== src/Dashboard/Tests/AnyOrder.antt =====
-- Two shards, whose files Go meets in either order.
use sharded_blockchain_dashb.Base.Int.{int_eq}
use sharded_blockchain_dashb.Base.{ℕ, ◌≡◌, refl, Bool, false, List, [], ◌∷◌, arith}
use sharded_blockchain_dashb.Base.Keyed.{Bytes, bytes_eq}
use sharded_blockchain_dashb.Base.Dict.{Dict, lookup, insert}
use sharded_blockchain_dashb.Base.Text.{codes}
use sharded_blockchain_dashb.Base.Int.{ℤ, pos, uint64}
use sharded_blockchain_dashb.Base.Outcome.{ret}
use sharded_blockchain_dashb.Base.Maps.{SameMap}
use sharded_blockchain_dashb.Core.{Time}
use sharded_blockchain_dashb.Backend.Sample.{sample, create_bucket, or_create}
use sharded_blockchain_dashb.Storage.{new_storage}
use sharded_blockchain_dashb.Query.{init_storage}
use sharded_blockchain_dashb.Query.Tests.{one, two, after, disk, after-Decodes}
use sharded_blockchain_dashb.Dashboard.{ShardStore}
use sharded_blockchain_dashb.Dashboard.Names.{
  parse_database_name, trim_suffix, split_at, atoi, digits_fold,
}
use sharded_blockchain_dashb.Dashboard.Choose.{choose_entries, choose_entry, has_suffix}
use sharded_blockchain_dashb.Dashboard.Newest.{load_shard_lem}
use sharded_blockchain_dashb.Dashboard.Store.{load_each}
use sharded_blockchain_dashb.Dashboard.Store.AnyOrder.{
  LoadsSame, load_each-returns, load_each_any_order,
}

abbrev no_text : Time → Bytes
no_text t = []

abbrev listing : List (Bytes × Bool)
listing = (codes "0_0_database", false) ∷ (codes "1_0_database", false) ∷ []

abbrev forward : Dict ℤ Bytes
forward = (pos 0, codes "0_0_database") ∷ (pos 1, codes "1_0_database") ∷ []

abbrev backward : Dict ℤ Bytes
backward = (pos 1, codes "1_0_database") ∷ (pos 0, codes "0_0_database") ∷ []

listing_chosen : choose_entries [] listing ≡ forward
unfolding choose_entries choose_entry has_suffix parse_database_name trim_suffix split_at atoi
    digits_fold bytes_eq lookup insert
listing_chosen = refl

forward-SameMap : SameMap forward backward
unfolding lookup
forward-SameMap k = ground arith

chosen-SameMap : SameMap (choose_entries [] listing) backward
chosen-SameMap k = rw listing_chosen (forward-SameMap k)

load_each_any_order_example :
    LoadsSame
      (load_each sample disk no_text [] (choose_entries [] listing))
      (load_each sample disk no_text [] backward)
unfolding lookup
load_each_any_order_example =
    load_each_any_order sample disk no_text listing backward (refl, (refl, tt)) chosen-SameMap

opens : (n : ℕ) → init_storage sample disk n 0 ≡ ret after
unfolding init_storage new_storage create_bucket or_create lookup bytes_eq
opens n = refl

-- Both orders return: each of the shards loads.
backward_returns : (out : Dict ℤ ShardStore) × (load_each sample disk no_text [] backward ≡ ret out)
unfolding lookup
backward_returns =
    load_each-returns sample disk no_text [] backward (refl, (refl, tt))
      λ k path there.
        let shown =
          load_shard_lem sample disk no_text k after one (two ∷ []) (opens (uint64 k))
            after-Decodes in
        (shown.0, shown.2)
