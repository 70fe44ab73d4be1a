-- ===== src/Throughput/Seed.antt =====
-- The seeding of a zone: the calls that it makes, what it leaves allocated, and what is then stored.
use mathlib.Core.List.{append-nil, append_assoc}
use gyreplane.Prelude.{
  ℕ, zero, suc, ◌+◌, ◌^◌, ◌≤◌, ◌<◌, ◌≡◌, ◌≢◌, refl, ap, ap₂, sym, ◌∙◌, inl, inr, true, false,
  Option, none, some, List, [], ◌∷◌, ◌++◌, arith, ◌==◌, if◌then◌else◌, Bool-cases, ==_iff, length,
  take, take-append, drop-append, take-take-drop, All-take, ◌&&◌,
}
use gyreplane.Prelude.Bytes.{IsByte, IsBytes}
use gyreplane.Prelude.Int.{ℤ, pos, negsuc}
use gyreplane.Packet.{IsPacket}
use gyreplane.Kv.{entity_key, encode_entity}
use gyreplane.Kv.Range.{entity_key-injective}
use gyreplane.Kv.Values.{
  stored_entity, zero_packet-IsPacket, stored_entity-append, decode_entity-encode_entity,
}
use gyreplane.Fdb.{Call, write, commit, future_destroy, transaction_destroy}
use gyreplane.Fdb.Handles.{remove_head}
use gyreplane.ZoneTick.{State}
use gyreplane.ZoneTick.Store.{Database, key_eq, key_eq_refl, key_eq→eq, last_write}
use gyreplane.Throughput.{
  seeded, seeded_value, seed_loop, seed_entities, open_transaction, make_call,
}

seeded-IsPacket : (e_id : ℕ) → e_id < 2 ^ 32 → IsPacket (seeded e_id)
seeded-IsPacket e_id small = record {
  global_id = small;
  pos_um_x = omega arith;
  pos_um_y = omega arith;
  pos_um_z = omega arith;
  vel_x = omega arith;
  vel_y = omega arith;
  vel_z = omega arith;
  hlc = omega arith;
  class_owner = omega arith;
  sub_index = omega arith;
  rot_x = omega arith;
  rot_y = omega arith;
  rot_z = omega arith;
  payload_len = refl;
  payload_bytes = zero_packet-IsPacket.payload_bytes;
}

-- The unwritten part of the buffer behind the packet.
abbrev pub IsRest : List ℕ → Type 0
IsRest rest = (length rest ≡ 156) × IsBytes rest

-- Of the stored bytes the last four are unwritten.
seeded_value_split :
    (rest : List ℕ) (e_id : ℕ)
    → e_id < 2 ^ 32
    → seeded_value rest e_id ≡ encode_entity (seeded e_id) ++ take 4 rest
seeded_value_split rest e_id small =
    let p = encode_entity (seeded e_id) in
    let size = (decode_entity-encode_entity (seeded e_id) (seeded-IsPacket e_id small)).0 in
    sym (take-take-drop 100 4 (p ++ rest))
    ∙ ap₂ ◌++◌ (take-append p rest size) (ap (take 4) (drop-append p rest size))

-- What is stored for an entity is bytes, and stands for the entity.
pub stored_entity-seeded_value :
    (rest : List ℕ) (e_id : ℕ)
    → IsRest rest
    → e_id < 2 ^ 32
    → IsBytes (seeded_value rest e_id) × (stored_entity (seeded_value rest e_id) ≡ seeded e_id)
stored_entity-seeded_value rest e_id (_, bytes) small = rw (seeded_value_split rest e_id small) (
    stored_entity-append (seeded e_id) (take 4 rest) (seeded-IsPacket e_id small)
      (All-take IsByte 4 rest bytes))

module _ (rest : ℕ → List ℕ) (tr z_id : ℕ) where
  -- The writes of the loop.
  abbrev pub seed_writes : (left e_id : ℕ) → List Call
  seed_writes zero e_id = []
  seed_writes (suc left) e_id =
      write tr (entity_key z_id e_id) (seeded_value (rest e_id) e_id) ∷ seed_writes left (e_id + 1)

  seed_loop-seed_writes :
      (left e_id : ℕ) (s : State)
      → seed_loop rest tr z_id left e_id s ≡ record s { calls = s.calls ++ seed_writes left e_id }
  unfolding seed_loop
  seed_loop-seed_writes zero e_id s = ap (λ cs. record s { calls = cs }) (sym (append-nil s.calls))
  seed_loop-seed_writes (suc left) e_id s =
      seed_loop-seed_writes left (e_id + 1) _
      ∙ ap (λ cs. record s { calls = cs }) (append_assoc s.calls _ _)

  abbrev pub seed_calls : ℕ → List Call
  seed_calls n = seed_writes n 0 ++ commit tr ∷ []

  -- A key of none of the entities that are written is left as it was.
  unwritten :
      (left e_id : ℕ) (k : List ℕ) (old : Option (List ℕ))
      → ((i : ℕ) → e_id ≤ i → i < e_id + left → k ≢ entity_key z_id i)
      → last_write (seed_writes left e_id ++ commit tr ∷ []) k old ≡ old
  unwritten zero e_id k old other = refl
  unwritten (suc left) e_id k old other = elim (Bool-cases (key_eq (entity_key z_id e_id) k)) [
    | inl same ↦
        absurd
          (other e_id (omega arith) (omega arith) (sym (key_eq→eq (entity_key z_id e_id) k same)))
    | inr differ ↦
        unwritten left (e_id + 1) k _ (λ i from to. other i (omega arith) (omega arith))
        ∙ ap (λ b. if b then some (seeded_value (rest e_id) e_id) else old) differ
  ]

  -- An entity that is written is written once.
  last_write-seed_writes :
      (left e_id j : ℕ) (old : Option (List ℕ))
      → z_id < 2 ^ 32
      → e_id + left ≤ 2 ^ 32
      → e_id ≤ j
      → j < e_id + left
      → last_write (seed_writes left e_id ++ commit tr ∷ []) (entity_key z_id j) old
        ≡ some (seeded_value (rest j) j)
  last_write-seed_writes zero e_id j old hz room from to = absurd (omega arith)
  last_write-seed_writes (suc left) e_id j old hz room from to = elim (Bool-cases (e_id == j)) [
    | inl same ↦
        let at : e_id ≡ j = (==_iff e_id j).0 same in
        unwritten left (e_id + 1) (entity_key z_id j) _ (λ i from' to' e. absurd (
          omega (
            arith,
            (entity_key-injective z_id j z_id i hz (omega arith) hz (omega (arith, at)) e).1,
          )))
        ∙ ap (λ b. if b then some (seeded_value (rest e_id) e_id) else old)
            (ap (λ e. key_eq (entity_key z_id e) (entity_key z_id j)) at
              ∙ key_eq_refl (entity_key z_id j))
        ∙ ap (λ e. some (seeded_value (rest e) e)) at
    | inr differ ↦
        last_write-seed_writes left (e_id + 1) j _ hz (omega arith) (ground arith) (omega arith)
  ]

-- A transaction that is opened, or an error that leaves the state alone.
pub open_transaction-cases :
    (err : ℕ) (s : State)
    → s.db ≡ true
    → open_transaction err s ≡ (
        if err == 0
        then some (s.next, record s { next = s.next + 1; transactions = s.next ∷ s.transactions })
        else some (0, s))
unfolding open_transaction
open_transaction-cases err s db =
    ap
      (λ b.
        if b
        then if err == 0
          then some (s.next, record s { next = s.next + 1; transactions = s.next ∷ s.transactions })
          else some (0, s)
        else none)
      db

module _ (create committed : ℕ) (rest : ℕ → List ℕ) (z_id n : ℕ) (s : State)
    (db : s.db ≡ true) where
  pub seed_refused :
      (create == 0) ≡ false → seed_entities create committed rest z_id n s ≡ some (negsuc 0, s)
  unfolding seed_entities
  seed_refused e = rw (open_transaction-cases create s db, e) refl

  pub seed_done :
      (create == 0) ≡ true
      → seed_entities create committed rest z_id n s
        ≡ some (
          if committed == 0 then pos 0 else negsuc 0,
          record s { next = s.next + 1 + 1; calls = s.calls ++ seed_calls rest s.next z_id n },
        )
  unfolding seed_entities make_call future_destroy transaction_destroy
  seed_done e =
      rw
        (
          open_transaction-cases create s db,
          e,
          seed_loop-seed_writes rest s.next z_id n 0,
          remove_head (s.next + 1) s.futures,
          remove_head s.next s.transactions,
        )
        (ap
          (λ cs. some (
            if committed == 0 then pos 0 else negsuc 0,
            record s { next = s.next + 1 + 1; calls = cs },
          ))
          (append_assoc s.calls (seed_writes rest s.next z_id n 0) (commit s.next ∷ [])))

  -- In a process with a database, for a zone and a number of entities below 2 ^ 32, seeding returns
  -- zero exactly if neither creating the transaction nor the commit fails, and -1 otherwise. On
  -- every answer it gives back its transaction and its future, so that what is allocated is as it
  -- was; and if there is a transaction, its calls, once they are committed, put under the key of each
  -- entity below the number the value of that entity, and leave every other key as it was.
  pub seed_entities-apply :
      {Contents : Type 0} (data_base : Database Contents) (c : Contents)
      → z_id < 2 ^ 32
      → n < 2 ^ 32
      → (rc : ℤ) × (s' : State) × (made : List Call) × (seed_entities create committed rest z_id n s
          ≡ some (rc, s'))
        × (rc ≡ (if create == 0 && committed == 0 then pos 0 else negsuc 0))
        × (s' ≡ record s { next = s'.next; calls = s.calls ++ made })
        × ((create == 0) ≡ true
            → ((e : ℕ)
                → e < n
                → data_base.lookup (data_base.apply c made) (entity_key z_id e)
                  ≡ some (seeded_value (rest e) e))
              × ((k : List ℕ)
                  → ((e : ℕ) → e < n → k ≢ entity_key z_id e)
                  → data_base.lookup (data_base.apply c made) k ≡ data_base.lookup c k))
  seed_entities-apply data_base c hz hn = elim (Bool-cases (create == 0)) [
    | inr refused ↦ (
      negsuc 0,
      s,
      [],
      seed_refused refused,
      rw refused refl,
      ap (λ cs. record s { calls = cs }) (sym (append-nil s.calls)),
      λ e. absurd (ground (arith, refused, e)),
    )
    | inl created ↦ (
      _,
      _,
      seed_calls rest s.next z_id n,
      seed_done created,
      rw created refl,
      refl,
      λ _. (
        λ e small.
            data_base.apply_lookup c _ _
            ∙ last_write-seed_writes rest s.next z_id n 0 e _ hz (omega arith) (omega arith)
                (omega arith),
        λ k other.
            data_base.apply_lookup c _ k
            ∙ unwritten rest s.next z_id n 0 k _ (λ i from to. other i (omega arith)),
      ),
    )
  ]
