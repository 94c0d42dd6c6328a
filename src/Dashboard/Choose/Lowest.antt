-- ===== src/Dashboard/Choose/Lowest.antt =====
-- Each shard gets the file of its lowest node.
use sharded_blockchain_dashb.Base.Int.{int_eq}
use mathlib.Core.List.{append_assoc, append-nil}
use sharded_blockchain_dashb.Base.{
  ◌≡◌, refl, ap, ◌∙◌, Bool, true, false, ◌||◌, not, Option, none, some, List, [], ◌∷◌, ◌++◌, ◌⊎◌,
  inl, inr, Bool-cases, Option-cases, All, if◌then◌else◌, arith,
}
use sharded_blockchain_dashb.Base.Keyed.{Bytes}
use sharded_blockchain_dashb.Base.Dict.{Dict, lookup, lookup-insert, lookup-insert_self}
use sharded_blockchain_dashb.Base.Text.{codes}
use sharded_blockchain_dashb.Base.Int.{ℤ, ltb_ℤ, ◌≤ℤ◌, ≤ℤ_trans, eq_ℤ, eq_ℤ_iff}
use sharded_blockchain_dashb.Dashboard.Names.{parse_database_name}
use sharded_blockchain_dashb.Dashboard.Choose.{
  has_suffix, parse_node_from_path, choose_for, choose_entry, choose_entries,
  choose_shard_databases,
}

-- A file with the node that its name speaks of.
abbrev pub Candidate : Type 0
Candidate = Bytes × ℤ

abbrev pub of_shard : ℤ → Bytes → Option (ℤ × ℤ) → List Candidate
of_shard shard_id name none = []
of_shard shard_id name (some parsed) = if eq_ℤ parsed.0 shard_id then (name, parsed.1) ∷ [] else []

-- The candidates of a shard: the files, not directories, whose name ends in "_database" and speaks of
-- the shard.
abbrev pub candidate : ℤ → Bytes × Bool → List Candidate
candidate shard_id (name, is_dir) =
    if is_dir || not (has_suffix name (codes "_database"))
    then []
    else of_shard shard_id name (parse_database_name name)

abbrev pub candidates : ℤ → List (Bytes × Bool) → List Candidate
candidates shard_id [] = []
candidates shard_id (e ∷ es) = candidate shard_id e ++ candidates shard_id es

abbrev pub Has : Bytes → ℤ → List Candidate → Type 0
Has name node_id [] = ⊥
Has name node_id (c ∷ cs) = ((c.0 ≡ name) × (c.1 ≡ node_id)) ⊎ Has name node_id cs

-- What is chosen is one of the candidates, and none has a lower node; nothing is chosen where there
-- are none.
abbrev pub IsLowest : ℤ → Option Bytes → List Candidate → Type 0
IsLowest shard_id none cs = cs ≡ []
IsLowest shard_id (some name) cs =
    (node_id : ℤ) × (parse_database_name name ≡ some (shard_id, node_id))
    × Has name node_id cs
    × All (λ c. node_id ≤ℤ c.1) cs

Has-append : (name : Bytes) (n : ℤ) (cs ds : List Candidate) → Has name n cs → Has name n (cs ++ ds)
Has-append name n [] ds h = elim h [ ]
Has-append name n (c ∷ cs) ds (inl h) = inl h
Has-append name n (c ∷ cs) ds (inr h) = inr (Has-append name n cs ds h)

Has-append_last : (name : Bytes) (n : ℤ) (cs : List Candidate) → Has name n (cs ++ (name, n) ∷ [])
Has-append_last name n [] = inl (refl, refl)
Has-append_last name n (c ∷ cs) = inr (Has-append_last name n cs)

-- A bound of the candidates so far, and of one more.
All-append_one :
    (n m k : ℤ) (name : Bytes) (cs : List Candidate)
    → m ≤ℤ n
    → m ≤ℤ k
    → All (λ c. n ≤ℤ c.1) cs
    → All (λ c. m ≤ℤ c.1) (cs ++ (name, k) ∷ [])
All-append_one n m k name [] h g a = (g, tt)
All-append_one n m k name (c ∷ cs) h g (b, bs) =
    (≤ℤ_trans m n c.1 h b, All-append_one n m k name cs h g bs)

parse_node_lem :
    (name : Bytes) (s n : ℤ)
    → parse_database_name name ≡ some (s, n)
    → parse_node_from_path name ≡ n
unfolding parse_node_from_path
parse_node_lem name s n h = rw (parse_node_from_path, h)

-- One more candidate of the shard.
choose_for-IsLowest :
    (chosen : Dict ℤ Bytes) (name : Bytes) (s n : ℤ) (cs : List Candidate) (o : Option Bytes)
    → parse_database_name name ≡ some (s, n)
    → lookup s chosen ≡ o
    → IsLowest s o cs
    → IsLowest s (lookup s (choose_for chosen name s n o)) (cs ++ (name, n) ∷ [])
choose_for-IsLowest chosen name s n cs none p e h =
    rw (lookup-insert_self s name chosen) (n, p, Has-append_last name n cs, rw h (omega arith))
choose_for-IsLowest chosen name s n cs (some current) p e (m, q, has, all) =
    let node = parse_node_lem current s m q in
    elim (Bool-cases (ltb_ℤ n (parse_node_from_path current))) [
      | inl lower ↦
          rw (lower, lookup-insert_self s name chosen)
            (
              n,
              p,
              Has-append_last name n cs,
              All-append_one m n n name cs (ground (arith, lower, node)) (omega arith) all,
            )
      | inr higher ↦
          rw (higher, e)
            (
              m,
              q,
              Has-append current m cs ((name, n) ∷ []) has,
              All-append_one m m n name cs (omega arith) (ground (arith, higher, node)) all,
            )
    ]

-- A file of another shard.
choose_for_other :
    (chosen : Dict ℤ Bytes) (name : Bytes) (r s n : ℤ) (o : Option Bytes)
    → eq_ℤ r s ≡ false
    → lookup s (choose_for chosen name r n o) ≡ lookup s chosen
choose_for_other chosen name r s n none h = rw (lookup-insert r s name chosen, h)
choose_for_other chosen name r s n (some current) h =
    elim (Bool-cases (ltb_ℤ n (parse_node_from_path current))) [
      | inl lower ↦ rw lower (rw (lookup-insert r s name chosen, h))
      | inr higher ↦ rw higher
    ]

module _ (s : ℤ) where
  choose_entry-IsLowest :
      (chosen : Dict ℤ Bytes) (e : Bytes × Bool) (cs : List Candidate)
      → IsLowest s (lookup s chosen) cs
      → IsLowest s (lookup s (choose_entry chosen e)) (cs ++ candidate s e)
  unfolding choose_entry
  choose_entry-IsLowest chosen (name, is_dir) cs h =
      elim (Bool-cases (is_dir || not (has_suffix name (codes "_database")))) [
        | inl skipped ↦ rw (skipped, append-nil cs) h
        | inr taken ↦ elim (Option-cases (parse_database_name name)) [
          | inl bad ↦ rw (taken, bad, append-nil cs) h
          | inr ((r, n), parsed) ↦ elim (Bool-cases (eq_ℤ r s)) [
            | inl same ↦
                let here : parse_database_name name ≡ some (s, n) =
                  parsed ∙ ap (λ x. some (x, n)) ((eq_ℤ_iff r s).0 same) in
                let self : eq_ℤ s s ≡ true = (eq_ℤ_iff s s).1 refl in
                rw (taken, here, self)
                  (choose_for-IsLowest chosen name s n cs (lookup s chosen) here refl h)
            | inr other ↦
                rw (taken, parsed, other, append-nil cs)
                  (rw (choose_for_other chosen name r s n (lookup r chosen) other) h)
          ]
        ]
      ]

  choose_entries-IsLowest :
      (chosen : Dict ℤ Bytes) (es : List (Bytes × Bool)) (cs : List Candidate)
      → IsLowest s (lookup s chosen) cs
      → IsLowest s (lookup s (choose_entries chosen es)) (cs ++ candidates s es)
  unfolding choose_entries
  choose_entries-IsLowest chosen [] cs h = rw (append-nil cs) h
  choose_entries-IsLowest chosen (e ∷ es) cs h =
      rw (← append_assoc cs (candidate s e) (candidates s es)) (
        choose_entries-IsLowest (choose_entry chosen e) es (cs ++ candidate s e)
          (choose_entry-IsLowest chosen e cs h))

-- `chooseShardDatabases` maps each shard to the database file of its lowest node: a file of the
-- listing, not a directory, whose name ends in "_database" and speaks of the shard, such that no
-- other such file of the shard has a lower node. A shard without such a file has no entry.
pub choose_shard_databases_lem :
    (entries : List (Bytes × Bool))
    → (chosen : Dict ℤ Bytes) × (choose_shard_databases (some entries) ≡ some chosen)
      × ((s : ℤ) → IsLowest s (lookup s chosen) (candidates s entries))
unfolding choose_shard_databases lookup
choose_shard_databases_lem entries =
    (choose_entries [] entries, refl, λ s. choose_entries-IsLowest s [] entries [] refl)
