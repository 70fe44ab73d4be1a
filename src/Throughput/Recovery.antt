-- ===== src/Throughput/Recovery.antt =====
-- The probe, and what it finds of an entity that was seeded and then moved by ticks.
use mathlib.Core.List.{append-nil, append_cancel_left}
use mathlib.Core.Option.{map, some-injective}
use gyreplane.Prelude.{
  ℕ, ◌+◌, ◌^◌, ◌<◌, ◌≡◌, ◌≢◌, ◌↔◌, refl, ap, sym, subst, ◌∙◌, inl, inr, true, false, Option, none,
  some, List, [], ◌∷◌, ◌++◌, arith, ◌==◌, ◌&&◌, if◌then◌else◌, Bool-cases,
}
use gyreplane.Prelude.Bytes.{IsBytes}
use gyreplane.Prelude.Int.{ℤ, pos, negsuc}
use gyreplane.Packet.{EntityPacket}
use gyreplane.Kv.{entity_key}
use gyreplane.Kv.Range.{entity_key-InZone_iff}
use gyreplane.Kv.Values.{stored_entity, decode_entity_total}
use gyreplane.Motion.Advance.{advanced}
use gyreplane.Fdb.{Call, get, future_destroy, transaction_destroy}
use gyreplane.Fdb.Handles.{remove_head}
use gyreplane.ZoneTick.{State}
use gyreplane.ZoneTick.Store.{Database, IsWhole}
use gyreplane.ZoneTick.Zones.{Committed, elapsed, History, History-IsBytes}
use gyreplane.ZoneTick.Whole.{History-entity_at}
use gyreplane.Throughput.{
  Probed, failed, not_found, found, probed, probe_entity, make_call, seed_entities, seeded,
  seeded_value,
}
use gyreplane.Throughput.Seed.{
  IsRest, open_transaction-cases, seed_entities-apply, stored_entity-seeded_value,
}

-- What the probe prints of a stored value.
abbrev pub shown : Option (List ℕ) → Probed
shown none = not_found
shown (some value) = found (stored_entity value)

abbrev pub HoldsBytes : Option (List ℕ) → Type 0
HoldsBytes none = Unit {0}
HoldsBytes (some value) = IsBytes value

probed-shown :
    (err : ℕ) (value : Option (List ℕ))
    → HoldsBytes value
    → probed err value ≡ some (if err == 0 then shown value else failed)
unfolding probed
probed-shown err none bytes = ground arith
probed-shown err (some value) bytes = rw (decode_entity_total value bytes).0 (ground arith)

-- The state after a probe that has a transaction.
abbrev pub after_probe : (z_id e_id : ℕ) → State → State
after_probe z_id e_id s = record s {
  next = s.next + 1 + 1;
  calls = s.calls ++ get s.next (entity_key z_id e_id) ∷ [];
}

module _ (create err : ℕ) (stored : List ℕ → Option (List ℕ)) (z_id e_id : ℕ) (s : State)
    (db : s.db ≡ true) where
  abbrev probe_call : Call
  probe_call = get s.next (entity_key z_id e_id)

  probe_refused :
      (create == 0) ≡ false
      → probe_entity create err stored z_id e_id s ≡ some (negsuc 0, failed, s)
  unfolding probe_entity
  probe_refused e = rw (open_transaction-cases create s db, e) refl

  pub probe_done :
      (create == 0) ≡ true
      → HoldsBytes (stored (entity_key z_id e_id))
      → probe_entity create err stored z_id e_id s
        ≡ some (
          if err == 0 then pos 0 else negsuc 0,
          if err == 0 then shown (stored (entity_key z_id e_id)) else failed,
          after_probe z_id e_id s,
        )
  unfolding probe_entity make_call future_destroy transaction_destroy
  probe_done e bytes =
      rw
        (
          open_transaction-cases create s db,
          e,
          probed-shown err (stored (entity_key z_id e_id)) bytes,
          remove_head (s.next + 1) s.futures,
          remove_head s.next s.transactions,
        )
        refl

  -- In a process with a database, where what is stored under the key of the entity is bytes or
  -- missing, the probe returns
  -- on every answer and gives back its transaction and its future, so that what is allocated is as
  -- it was. It returns zero exactly if neither creating the transaction nor the read fails, and
  -- then it prints the entity that the bytes stored under that key stand for, or that there is none.
  pub probe_entity-shown :
      HoldsBytes (stored (entity_key z_id e_id))
      → (rc : ℤ) × (printed : Probed) × (s' : State) × (made : List Call) × (probe_entity create err
            stored z_id e_id s
          ≡ some (rc, printed, s'))
        × (s' ≡ record s { next = s'.next; calls = s.calls ++ made })
        × ((rc ≡ pos 0) ↔ ((create == 0 && err == 0) ≡ true))
        × (rc ≡ pos 0 → printed ≡ shown (stored (entity_key z_id e_id)))
  probe_entity-shown bytes = elim (Bool-cases (create == 0)) [
    | inr refused ↦ (
      negsuc 0,
      failed,
      s,
      [],
      probe_refused refused,
      ap (λ cs. record s { calls = cs }) (sym (append-nil s.calls)),
      ground arith,
      λ e. absurd (ground arith),
    )
    | inl created ↦
        (_, _, _, probe_call ∷ [], probe_done created bytes, refl, ground arith, ground arith)
  ]

module _ {Contents : Type 0} (data_base : Database Contents) where
  -- What a seeding that was committed has stored.
  pub seeded_lookup :
      (rest : ℕ → List ℕ) (z_id n : ℕ) (s s' : State) (made : List Call) (c : Contents)
      → s.db ≡ true
      → z_id < 2 ^ 32
      → n < 2 ^ 32
      → seed_entities 0 0 rest z_id n s ≡ some (pos 0, s')
      → s'.calls ≡ s.calls ++ made
      → ((e : ℕ)
          → e < n
          → data_base.lookup (data_base.apply c made) (entity_key z_id e)
            ≡ some (seeded_value (rest e) e))
        × ((k : List ℕ)
            → ((e : ℕ) → e < n → k ≢ entity_key z_id e)
            → data_base.lookup (data_base.apply c made) k ≡ data_base.lookup c k)
  seeded_lookup rest z_id n s s' made c db hz hn ran called =
      let (rc, t, made', ran', _, same, stored) =
        seed_entities-apply 0 0 rest z_id n s db data_base c hz hn in
      let at : s' ≡ t = ap (λ (r : ℤ × State). r.1) (some-injective _ _ (sym ran ∙ ran')) in
      let calls_same : made' ≡ made =
        append_cancel_left s.calls made' made (
          sym (ap (λ (x : State). x.calls) same) ∙ ap (λ (x : State). x.calls) (sym at) ∙ called) in
      subst
        (λ m.
          ((e : ℕ)
            → e < n
            → data_base.lookup (data_base.apply c m) (entity_key z_id e)
              ≡ some (seeded_value (rest e) e))
          × ((k : List ℕ)
              → ((e : ℕ) → e < n → k ≢ entity_key z_id e)
              → data_base.lookup (data_base.apply c m) k ≡ data_base.lookup c k))
        calls_same (stored refl)

  -- Take a seeding that was committed, of a zone and a number of entities below 2 ^ 32, by a
  -- process with a database; after it any committed ticks of any zones, in the order of their
  -- commits, each of fewer than 2 ^ 32 ticks, free of overflow and given the whole of its zone; and then a probe that meets no
  -- error, by any process with a database. For a seeded entity whose number is below 0xFF000000
  -- the probe finds it where it was seeded, moved by its velocity times the ticks of its own zone,
  -- whatever the buffer of the seeding held behind the packet.
  pub probe_entity-seed_entities :
      (rest : ℕ → List ℕ) (z_id n e_id : ℕ) (s s' t : State) (made : List Call) {c c' : Contents}
      {ts : List Committed}
      → IsWhole data_base
      → s.db ≡ true
      → t.db ≡ true
      → z_id < 2 ^ 32
      → n < 2 ^ 32
      → e_id < n
      → e_id < 0xff000000
      → IsRest (rest e_id)
      → seed_entities 0 0 rest z_id n s ≡ some (pos 0, s')
      → s'.calls ≡ s.calls ++ made
      → History data_base (data_base.apply c made) ts c'
      → (t' : State) × (probe_entity 0 0 (data_base.lookup c') z_id e_id t
          ≡ some (pos 0, found (advanced (elapsed z_id ts) (seeded e_id)), t'))
  probe_entity-seed_entities rest z_id n e_id s s' t made {c} {c'} {ts} whole db db' hz hn small low
        unread ran called history =
      let key = entity_key z_id e_id in
      let stored = (seeded_lookup rest z_id n s s' made c db hz hn ran called).0 e_id small in
      let (bytes, stands) = stored_entity-seeded_value (rest e_id) e_id unread (omega arith) in
      let within = (entity_key-InZone_iff z_id z_id e_id hz hz (omega arith)).1 (refl, low) in
      let moved =
        (History-entity_at data_base whole z_id key hz history).0 within
        ∙ ap (λ (v : Option (List ℕ)). map (advanced (elapsed z_id ts)) (map stored_entity v))
            stored
        ∙ ap (λ p. some (advanced (elapsed z_id ts) p)) stands in
      let kept =
        History-IsBytes data_base key history
          (λ value e. subst IsBytes (some-injective _ _ (sym stored ∙ e)) bytes) in
      let (held, shows) = read_back (data_base.lookup c' key) _ kept moved in
      (
        _,
        probe_done 0 0 (data_base.lookup c') z_id e_id t db' refl held
            ∙ ap (λ p. some (pos 0, p, after_probe z_id e_id t)) shows,
      )
    where
      read_back :
          (value : Option (List ℕ)) (p : EntityPacket)
          → ((v : List ℕ) → value ≡ some v → IsBytes v)
          → map stored_entity value ≡ some p
          → HoldsBytes value × (shown value ≡ found p)
      read_back none p bytes e = absurd (ground arith)
      read_back (some v) p bytes e = (bytes v refl, ap found (some-injective _ _ e))
