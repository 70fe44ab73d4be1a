-- ===== src/Throughput.antt =====
-- tools/zonetick_throughput.c: seeding and probing.
-- The tool calls libfdb_c itself and waits for its futures, so a call is made and answered at once;
-- what the library answers is an argument. `none` is a fault, as in the adapter.
pub mod Seed
pub mod Recovery
pub mod Timed
pub mod Loop
pub mod Rounds
pub mod Ends
pub mod Normal
pub mod Counted
pub mod Serving
pub mod Moved
pub mod Acceptance
pub mod Durable
pub mod Command
pub mod Endings
pub mod Outcome
use gyreplane.Prelude.{
  ℕ, zero, suc, ◌+◌, ◌*◌, Bool, true, false, Option, none, some, List, [], ◌∷◌, ◌++◌, ◌>>=◌, ◌==◌,
  if◌then◌else◌, take, length,
}
use gyreplane.Prelude.Int.{ℤ, pos, negsuc}
use gyreplane.Packet.{EntityPacket}
use gyreplane.Kv.{entity_key, encode_entity, decode_entity, zero_packet}
use gyreplane.Fdb.{Call, get, write, commit, future_destroy, transaction_destroy}
use gyreplane.ZoneTick.{State}

-- `fdb_database_create_transaction`: the transaction, 0 if there is an error, and the new state.
-- On a NULL database it is a fault.
unfoldable pub open_transaction : (err : ℕ) → State → Option (ℕ × State)
open_transaction err s =
    if s.db
    then if err == 0
      then some (s.next, record s { next = s.next + 1; transactions = s.next ∷ s.transactions })
      else some (0, s)
    else none

-- A call that returns a future.
unfoldable pub make_call : Call → State → ℕ × State
make_call call s = (
  s.next,
  record s { next = s.next + 1; futures = s.next ∷ s.futures; calls = s.calls ++ call ∷ [] },
)

-- `sizeof(zf_entity_val_t)`, where an int64_t is aligned to eight bytes.
abbrev pub entity_val_struct_size : ℕ
entity_val_struct_size = 104

-- The entity of a number that is seeded.
abbrev pub seeded : ℕ → EntityPacket
seeded e_id = record zero_packet { global_id = e_id; pos_um_x = pos (e_id * 1000); vel_x = pos 100 }

-- The bytes that are stored for it. `rest` is what the buffer of 256 bytes holds behind the hundred
-- that are encoded; nobody has written it.
abbrev pub seeded_value : (rest : List ℕ) → ℕ → List ℕ
seeded_value rest e_id = take entity_val_struct_size (encode_entity (seeded e_id) ++ rest)

-- The loop from entity `e_id` on, with `left` rounds to go; below 2 ^ 32 rounds, `e_id` does not
-- wrap around.
unfoldable pub seed_loop : (ℕ → List ℕ) → (tr z_id left e_id : ℕ) → State → State
seed_loop rest tr z_id zero e_id s = s
seed_loop rest tr z_id (suc left) e_id s = seed_loop rest tr z_id left (e_id + 1) (record s {
  calls = s.calls ++ write tr (entity_key z_id e_id) (seeded_value (rest e_id) e_id) ∷ [];
})

-- The return code and the new state; `create` and `committed` are the errors of creating the
-- transaction and of its commit.
unfoldable pub seed_entities :
    (create committed : ℕ) (rest : ℕ → List ℕ) (z_id n : ℕ) → State → Option (ℤ × State)
unfolding open_transaction seed_loop make_call future_destroy transaction_destroy
seed_entities create committed rest z_id n s = do
  (tr, s) ← open_transaction create s
  if create == 0
      then (let s = seed_loop rest tr z_id n 0 s in
          let (commit_f, s) = make_call (commit tr) s in
          do
            s ← future_destroy commit_f s
            s ← transaction_destroy tr s
            some (if committed == 0 then pos 0 else negsuc 0, s))
      else some (negsuc 0, s)

-- What is printed: a failure, that there is no such entity, or the entity that was read.
pub data Probed : Type 0 where
  failed not_found : Probed
  found : EntityPacket → Probed

-- `err` is the error of reading the future, `value` what is stored.
unfoldable pub probed : (err : ℕ) (value : Option (List ℕ)) → Option Probed
probed err none = some (if err == 0 then not_found else failed)
probed err (some value) =
    if err == 0
    then (do val ← decode_entity value (length value); some (found val))
    else some failed

-- `stored` is what the library answers to a read of a key: what is stored under it, if anything.
unfoldable pub probe_entity :
    (create err : ℕ) (stored : List ℕ → Option (List ℕ)) (z_id e_id : ℕ)
    → State
    → Option (ℤ × Probed × State)
unfolding open_transaction make_call probed future_destroy transaction_destroy
probe_entity create err stored z_id e_id s = do
  (tr, s) ← open_transaction create s
  if create == 0
      then (let key = entity_key z_id e_id in
          let (get_f, s) = make_call (get tr key) s in
          do
            printed ← probed err (stored key)
            s ← future_destroy get_f s
            s ← transaction_destroy tr s
            some (if err == 0 then pos 0 else negsuc 0, printed, s))
      else some (negsuc 0, failed, s)
