-- ===== src/Backend/Sample/Laws.antt =====
-- The sample backend has the laws.
use sharded_blockchain_dashb.Base.Keyed.{bytes_is_eq}
use sharded_blockchain_dashb.Base.{
  ◌≡◌, ◌≢◌, refl, ◌&&◌, some, [], ◌∷◌, if◌then◌else◌, length, arith, Bool-cases, Option-cases, inl,
  inr,
}
use sharded_blockchain_dashb.Base.Keyed.{Bytes, bytes_eq, bytes_eq_iff}
use sharded_blockchain_dashb.Base.Dict.{Dict, lookup, insert, lookup-insert, lookup-insert_self}
use sharded_blockchain_dashb.Backend.{TrieLaws, DatabaseLaws, BoltLaws, GobLaws, OpensAs, Holds}
use sharded_blockchain_dashb.Backend.Sample.{
  tx, Blob, state, header, as_state, as_header, as_block, as_raw, Contents, flat_keys, TrieDb,
  open_trie, stage, flush_found, flush, reopen, Buckets, InBuckets, or_create, create_bucket,
  put_found, put, read_found, read, digest, sample, block,
}

pub sample_trie : TrieLaws sample
unfolding as_state
sample_trie = record {
  state_round_trip = λ s. (state s, refl, refl, omega arith);
  get-update = λ t k b j _. lookup-insert k j b t;
}

insert_same :
    (k : Bytes) (v : Contents) (m : Dict Bytes Contents) → lookup k m ≡ some v → insert k v m ≡ m
unfolding lookup insert
insert_same k v [] h = cc
insert_same k v ((j, w) ∷ m) h = ground (arith, insert_same k v m, bytes_eq_iff j k)

open_stage :
    (db : TrieDb) (t : Contents) {db' : TrieDb}
    → stage db (record { root = flat_keys t; contents = t }) ≡ some db'
    → OpensAs sample db' (flat_keys t) t
unfolding stage open_trie
open_stage db [] h = record { opened = []; opens = refl; holds = λ k. refl }
open_stage db ((k, v) ∷ t) h = record {
  opened = (k, v) ∷ t;
  opens = ground (arith, lookup-insert_self (flat_keys ((k, v) ∷ t)) ((k, v) ∷ t) db.memory);
  holds = λ j. refl;
}

flush-Holds :
    (db : TrieDb) (root : Bytes) (t : Contents)
    → OpensAs sample db root t
    → (db' : TrieDb) × (flush db root ≡ some db') × Holds sample db' root t
unfolding flush open_trie reopen flush_found lookup
flush-Holds db [] t o = (
  db,
  refl,
  record {
    running = o;
    restarted = record { opened = o.opened; opens = o.opens; holds = o.holds };
  },
)
flush-Holds db (x ∷ r) t o = elim (Option-cases (lookup (x ∷ r) db.memory)) [
  | inl absent ↦
      let on_disk : lookup (x ∷ r) db.disk ≡ some o.opened = ground (arith, o.opens) in
      (
        db,
        ground arith,
        record {
          running = o;
          restarted = record { opened = o.opened; opens = ground arith; holds = o.holds };
        },
      )
  | inr (c, e) ↦
      let same : c ≡ o.opened = ground (arith, o.opens) in
      (
        record db { disk = insert (x ∷ r) c db.disk },
        ground arith,
        record {
          running = record { opened = o.opened; opens = ground (arith, o.opens); holds = o.holds };
          restarted = record {
            opened = o.opened;
            opens = ground (arith, lookup-insert_self (x ∷ r) c db.disk);
            holds = o.holds;
          };
        },
      )
]

stage_others :
    (db : TrieDb) (t : Contents) (root : Bytes) {db' : TrieDb}
    → stage db (record { root = flat_keys t; contents = t }) ≡ some db'
    → flat_keys t ≢ root
    → open_trie db' root ≡ open_trie db root
unfolding stage open_trie
stage_others db t [] h ne = ground arith
stage_others db t (x ∷ r) h ne =
    ground
      (arith, lookup-insert (flat_keys t) (x ∷ r) t db.memory, bytes_eq_iff (flat_keys t) (x ∷ r))

length-digest : (b : Blob) → length (digest b) ≡ 32
unfolding digest
length-digest (header h) = refl
length-digest _ = refl

flush_keeps :
    (db : TrieDb) (root : Bytes) (t : Contents)
    → open_trie db root ≡ some t
    → open_trie (reopen db) root ≡ some t
    → (db' : TrieDb) × (flush db root ≡ some db')
      × (reopen db' ≡ reopen db)
      × ((r : Bytes) → open_trie db' r ≡ open_trie db r)
unfolding flush open_trie reopen flush_found lookup
flush_keeps db [] t h k = (db, refl, refl, λ r. refl)
flush_keeps db (x ∷ r) t h k = elim (Option-cases (lookup (x ∷ r) db.memory)) [
  | inl absent ↦ (db, ground arith, refl, λ r. refl)
  | inr (c, e) ↦
      let same : c ≡ t = ground arith in
      let unchanged = insert_same (x ∷ r) c db.disk (ground arith) in
      (db, ground arith, refl, λ r. refl)
]

abbrev empty : Contents
empty = []

put_reads :
    (db : Buckets) (bucket k : Bytes) (v : Blob)
    → InBuckets db bucket
    → (db' : Buckets) × (put db bucket k v ≡ some db')
      × ((b : Bytes) → InBuckets db b → InBuckets db' b)
      × ((b j : Bytes)
          → read db' b j ≡ (if bytes_eq bucket b && bytes_eq k j then some v else read db b j))
unfolding put read put_found read_found InBuckets
put_reads db bucket k v (c, e) = (
  insert bucket (insert k v c) db,
  ground arith,
  λ b (c', e'). elim (Bool-cases (bytes_eq bucket b)) [
    | inl same ↦ (insert k v c, ground (arith, lookup-insert bucket b (insert k v c) db))
    | inr other ↦ (c', ground (arith, lookup-insert bucket b (insert k v c) db))
  ],
  λ b j. ground (
    arith,
    lookup-insert bucket b (insert k v c) db,
    lookup-insert k j v c,
    bytes_eq_iff bucket b,
  ),
)

create_reads :
    (db : Buckets) (bucket : Bytes)
    → (db' : Buckets) × (create_bucket db bucket ≡ some db')
      × InBuckets db' bucket
      × ((b : Bytes) → InBuckets db b → InBuckets db' b)
      × ((b k : Bytes) → read db' b k ≡ read db b k)
unfolding create_bucket or_create read read_found InBuckets lookup
create_reads db bucket = elim (Option-cases (lookup bucket db)) [
  | inl new ↦ (
    insert bucket empty db,
    ground arith,
    (empty, lookup-insert_self bucket empty db),
    λ b (c, e). (c, ground (arith, lookup-insert bucket b empty db, bytes_eq_iff bucket b)),
    λ b k. ground (arith, lookup-insert bucket b empty db, bytes_eq_iff bucket b),
  )
  | inr (c, e) ↦ (db, ground arith, (c, e), λ b h. h, λ b k. refl)
]

pub sample_database : DatabaseLaws sample
unfolding stage reopen open_trie lookup
sample_database = record {
  stage_lem = λ db t _.
      (record db { memory = insert (flat_keys t) t db.memory }, refl, open_stage db t refl);
  reopen-stage = λ db t e. ground arith;
  bytes_to_hash_idem = λ b. refl;
  reopen_idem = λ db. refl;
  stage_other = λ db t root e ne. stage_others db t root e ne;
  flush_lem = flush-Holds;
  flush_again = flush_keeps;
  bytes_to_hash-commit = λ t. refl;
  open_empty = λ db. record { opened = []; opens = refl; holds = λ k. refl };
  get-new_empty = λ k. refl;
}

pub sample_bolt : BoltLaws sample
sample_bolt = record {
  create_bucket_lem = λ db bucket _. create_reads db bucket;
  put_lem = λ db bucket k v h _. put_reads db bucket k v h;
}

pub sample_gob : GobLaws sample
unfolding as_header as_block as_raw digest
sample_gob = record {
  header_round_trip = λ h. (header h, refl, refl);
  block_round_trip = λ k. (block k, refl, refl);
  encode_tx_total = λ t. (tx t, refl);
  to_bytes-of_bytes = λ b. refl;
  length-sha256 = length-digest;
}
