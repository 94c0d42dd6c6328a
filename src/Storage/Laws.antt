-- ===== src/Storage/Laws.antt =====
-- What a stored block can be asked for, after a write and after a restart of the storage.
use sharded_blockchain_dashb.Base.{◌<◌, ◌≤◌, ◌≡◌, ◌≢◌, ap, ◌∙◌, some, if◌then◌else◌, length, arith}
use sharded_blockchain_dashb.Base.Keyed.{Bytes, bytes_eq, bytes_eq_iff, bytes_eq_refl}
use sharded_blockchain_dashb.Base.Outcome.{ret}
use sharded_blockchain_dashb.Core.{Block, BlockHeader}
use sharded_blockchain_dashb.Backend.{Backend, BoltLaws, GobLaws}
use sharded_blockchain_dashb.Storage.{
  block_bucket, block_header_bucket, newest_block_hash_bucket, only_newest_block, new_storage,
  update_newest_block, add_block_header, add_block, get_block_header, get_block,
  get_newest_block_hash,
}

-- The three buckets are there.
pub record IsOpen (lib : Backend) (db : lib.Bolt) : Type 0 where
  pub blocks : lib.HasBucket db block_bucket
  pub headers : lib.HasBucket db block_header_bucket
  pub newest : lib.HasBucket db newest_block_hash_bucket

-- A block with a header and a hash, within the limits of the database.
pub record Fits (lib : Backend) (b : Block) (h : BlockHeader) : Type 0 where
  pub header_is : b.header ≡ some h
  pub hash_some : 0 < length b.hash
  pub hash_short : length b.hash ≤ 32768
  pub block_small : (enc : lib.Blob) → lib.encode_block b ≡ some enc → lib.size enc < 2147483647
  pub header_small : (enc : lib.Blob) → lib.encode_header h ≡ some enc → lib.size enc < 2147483647
  pub hash_small : lib.size (lib.of_bytes b.hash) < 2147483647

-- What `AddBlock` has to do to a storage.
pub record Adds (lib : Backend) (db db' : lib.Bolt) (b : Block) (h : BlockHeader) : Type 0 where
  pub still_open : IsOpen lib db'
  pub newest_is : get_newest_block_hash lib db' ≡ some b.hash
  pub block_is : get_block lib db' b.hash ≡ ret (some b)
  pub header_is : get_block_header lib db' b.hash ≡ ret (some h)
  pub other_blocks : (k : Bytes) → b.hash ≢ k → get_block lib db' k ≡ get_block lib db k
  pub other_headers :
      (k : Bytes) → b.hash ≢ k → get_block_header lib db' k ≡ get_block_header lib db k

-- The three writes of `AddBlock`, as reads of the result see them.
record Writes (lib : Backend) (db db' : lib.Bolt) (hash : Bytes) (block_enc header_enc : lib.Blob)
    : Type 0 where
  blocks :
      (k : Bytes)
      → lib.read db' block_bucket k
        ≡ (if bytes_eq hash k then some block_enc else lib.read db block_bucket k)
  headers :
      (k : Bytes)
      → lib.read db' block_header_bucket k
        ≡ (if bytes_eq hash k then some header_enc else lib.read db block_header_bucket k)
  newest : lib.read db' newest_block_hash_bucket only_newest_block ≡ some (lib.of_bytes hash)

Writes-Adds :
    (lib : Backend) (gob : GobLaws lib) (db db' : lib.Bolt) (b : Block) (h : BlockHeader)
    (block_enc header_enc : lib.Blob)
    → IsOpen lib db'
    → Writes lib db db' b.hash block_enc header_enc
    → lib.decode_block block_enc ≡ some b
    → lib.decode_header header_enc ≡ some h
    → Adds lib db db' b h
unfolding get_block get_block_header get_newest_block_hash
Writes-Adds lib gob db db' b h block_enc header_enc o w db_ok h_ok = record {
  still_open = o;
  newest_is = ground (arith, w.newest, gob.to_bytes-of_bytes b.hash);
  block_is = ground (arith, w.blocks b.hash, bytes_eq_refl b.hash);
  header_is = ground (arith, w.headers b.hash, bytes_eq_refl b.hash);
  other_blocks = λ k ne. ground (arith, w.blocks k, bytes_eq_iff b.hash k);
  other_headers = λ k ne. ground (arith, w.headers k, bytes_eq_iff b.hash k);
}

module _ (lib : Backend) (bolt : BoltLaws lib) (gob : GobLaws lib) where
  -- `NewStorage` opens the three buckets and leaves every stored value as it was, so it may run on a
  -- new database or again on an old one.
  pub new_storage_lem :
      (db : lib.Bolt)
      → (db' : lib.Bolt) × (new_storage lib db ≡ ret db')
        × IsOpen lib db'
        × ((b k : Bytes) → lib.read db' b k ≡ lib.read db b k)
  unfolding new_storage
  new_storage_lem db =
      let (db1, made1, has1, keeps1, reads1) =
        bolt.create_bucket_lem db block_bucket (omega arith) in
      let (db2, made2, has2, keeps2, reads2) =
        bolt.create_bucket_lem db1 block_header_bucket (omega arith) in
      let (db3, made3, has3, keeps3, reads3) =
        bolt.create_bucket_lem db2 newest_block_hash_bucket (omega arith) in
      (
        db3,
        ground arith,
        record {
          blocks = keeps3 block_bucket (keeps2 block_bucket has1);
          headers = keeps3 block_header_bucket has2;
          newest = has3;
        },
        λ b k. reads3 b k ∙ reads2 b k ∙ reads1 b k,
      )

  -- On an open storage, for a block that carries its header, whose hash has 1 to 32768 bytes and which
  -- with its header and hash is stored in less than 2^31 - 1 bytes each, `AddBlock` returns: the block
  -- is the newest, it and its header are found under its hash as they were stored, and those under
  -- every other hash are as before.
  pub add_block_lem :
      (db : lib.Bolt) (b : Block) (h : BlockHeader)
      → IsOpen lib db
      → Fits lib b h
      → (db' : lib.Bolt) × (add_block lib db b ≡ ret db') × Adds lib db db' b h
  unfolding add_block add_block_header update_newest_block bytes_eq
  add_block_lem db b h o f =
      let (block_enc, block_encodes, block_decodes) = gob.block_round_trip b in
      let (header_enc, header_encodes, header_decodes) = gob.header_round_trip h in
      let (db1, put1, keeps1, reads1) =
        bolt.put_lem db block_bucket b.hash block_enc o.blocks
          (f.hash_some, f.hash_short, f.block_small block_enc block_encodes) in
      let (db2, put2, keeps2, reads2) =
        bolt.put_lem db1 block_header_bucket b.hash header_enc
          (keeps1 block_header_bucket o.headers)
          (f.hash_some, f.hash_short, f.header_small header_enc header_encodes) in
      let (db3, put3, keeps3, reads3) =
        bolt.put_lem db2 newest_block_hash_bucket only_newest_block (lib.of_bytes b.hash)
          (keeps2 newest_block_hash_bucket (keeps1 newest_block_hash_bucket o.newest))
          (omega arith, omega arith, f.hash_small) in
      (
        db3,
        ground (arith, f.header_is),
        Writes-Adds lib gob db db3 b h block_enc header_enc
            (record {
              blocks = keeps3 block_bucket (keeps2 block_bucket (keeps1 block_bucket o.blocks));
              headers =
                  keeps3 block_header_bucket
                    (keeps2 block_header_bucket (keeps1 block_header_bucket o.headers));
              newest =
                  keeps3 newest_block_hash_bucket
                    (keeps2 newest_block_hash_bucket (keeps1 newest_block_hash_bucket o.newest));
            })
            (record {
              blocks = λ k. reads3 block_bucket k ∙ reads2 block_bucket k ∙ reads1 block_bucket k;
              headers = λ k.
                  reads3 block_header_bucket k
                  ∙ reads2 block_header_bucket k
                  ∙ ap (λ r. if bytes_eq b.hash k then some header_enc else r)
                      (reads1 block_header_bucket k);
              newest = reads3 newest_block_hash_bucket only_newest_block;
            })
            block_decodes header_decodes,
      )
