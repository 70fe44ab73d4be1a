-- ===== src/Tests/Cuts.antt =====
-- A database that gives one pair of a range at most, and a tick of it.
use mathlib.Core.Option.{map, some-injective}
use gyreplane.Prelude.{
  ℕ, ◌≡◌, refl, sym, inl, inr, true, false, Option, none, some, List, [], ◌∷◌, ◌++◌, ◌||◌, subst,
  arith, if◌then◌else◌, Bool-cases, All, length,
}
use gyreplane.Packet.{xr_packet_size}
use gyreplane.Kv.{encode_u32_be, entity_key, entity_range_begin, entity_range_end, encode_entity}
use gyreplane.Kv.KeyOrder.{in_range, key_lt}
use gyreplane.Kv.Range.{entity_key-InZone_iff}
use gyreplane.Kv.Values.{decode_entity-encode_entity}
use gyreplane.Motion.Advance.{advanced}
use gyreplane.Fdb.{Call}
use gyreplane.ZoneTick.{TickCtx, State, KeyValue, handle_range_read}
use gyreplane.ZoneTick.Update.{IsSafe}
use gyreplane.ZoneTick.Run.{opened_ctx}
use gyreplane.ZoneTick.Complete.{read_ok, taken_answer}
use gyreplane.ZoneTick.Store.{Database, key_eq, has_key, last_write, handle_range_read-lookup}
use gyreplane.ZoneTick.Zones.{Committed, elapsed, zone_read, History, entity_at}
use gyreplane.ZoneTick.Behind.{IsSized, History-behind}
use gyreplane.Tests.Packets.{ship, ship-IsPacket}
use gyreplane.Tests.Ticks.{idle, stored-IsSafe}

abbrev Values : Type 0
Values = List ℕ → Option (List ℕ)

abbrev held : (k : List ℕ) → Option (List ℕ) → List KeyValue → List KeyValue
held k none others = others
held k (some value) others = record { key = k; value = value } ∷ []

-- The first of the keys that lies in the range and is stored.
abbrev first_of : Values → List (List ℕ) → (begin end : List ℕ) → List KeyValue
first_of c [] begin end = []
first_of c (k ∷ ks) begin end =
    if in_range begin end k then held k (c k) (first_of c ks begin end) else first_of c ks begin end

first_of_stored :
    (c : Values) (ks : List (List ℕ)) (begin end : List ℕ)
    → All
        (λ kv. (in_range begin end kv.key ≡ true) × (c kv.key ≡ some kv.value))
        (first_of c ks begin end)
first_of_stored c [] begin end = tt
first_of_stored c (k ∷ ks) begin end = elim (Bool-cases (in_range begin end k)) [
  | inr outside ↦ rw outside (first_of_stored c ks begin end)
  | inl within ↦ rw within (at_head (first_of_stored c ks begin end) (c k) refl within)
]
  where
    at_head :
        All
          (λ kv. (in_range begin end kv.key ≡ true) × (c kv.key ≡ some kv.value))
          (first_of c ks begin end)
        → (found : Option (List ℕ)) → c k ≡ found
        → in_range begin end k ≡ true
        → All
            (λ kv. (in_range begin end kv.key ≡ true) × (c kv.key ≡ some kv.value))
            (held k found (first_of c ks begin end))
    at_head rest none e within = rest
    at_head rest (some value) e within = ((within, e), tt)

first_of-cut :
    (c c' : Values) (ks : List (List ℕ)) (begin end k : List ℕ)
    → ((k : List ℕ) → map (length {A = ℕ}) (c k) ≡ map (length {A = ℕ}) (c' k))
    → has_key k (first_of c ks begin end) ≡ has_key k (first_of c' ks begin end)
first_of-cut c c' [] begin end k same = refl
first_of-cut c c' (x ∷ ks) begin end k same = elim (Bool-cases (in_range begin end x)) [
  | inr outside ↦ rw outside (first_of-cut c c' ks begin end k same)
  | inl within ↦ rw within (at_head (first_of-cut c c' ks begin end k same) (c x) (c' x) (same x))
]
  where
    at_head :
        has_key k (first_of c ks begin end) ≡ has_key k (first_of c' ks begin end)
        → (found found' : Option (List ℕ))
        → map (length {A = ℕ}) found ≡ map (length {A = ℕ}) found'
        → has_key k (held x found (first_of c ks begin end))
          ≡ has_key k (held x found' (first_of c' ks begin end))
    at_head rest none none e = rest
    at_head rest none (some v) e = absurd (ground (arith, e))
    at_head rest (some v) none e = absurd (ground (arith, e))
    at_head rest (some v) (some w) e = refl

abbrev keys : List (List ℕ)
keys = entity_key 3 0 ∷ entity_key 3 1 ∷ []

cut_off :
    (c : Values) (begin end k : List ℕ)
    → true ≡ false
    → has_key k (first_of c keys begin end) ≡ true
cut_off c begin end k whole = ground (arith, whole)

abbrev cut_database : Database Values
cut_database = record {
  lookup = λ c. c;
  read = λ c. first_of c keys;
  more = λ c begin end. true;
  apply = λ c calls k. last_write calls k (c k);
  read_stored = λ c. first_of_stored c keys;
  read_all = λ c begin end k value whole within found. cut_off c begin end k whole;
  apply_lookup = λ c calls k. refl;
}

-- Two entities of zone 3 that stand where the ship does.
abbrev ships : Values
ships k =
    if key_eq (entity_key 3 0) k || key_eq (entity_key 3 1) k
    then some (encode_entity ship)
    else none

ships_value : (k value : List ℕ) → ships k ≡ some value → value ≡ encode_entity ship
ships_value k value e = elim (Bool-cases (key_eq (entity_key 3 0) k || key_eq (entity_key 3 1) k)) [
  | inl one ↦ sym (some-injective _ _ (rw one at e))
  | inr other ↦ absurd (ground (arith, e))
]

stored_ships-IsSafe :
    (begin end : List ℕ) (kvs : List KeyValue)
    → All (λ kv. (in_range begin end kv.key ≡ true) × (ships kv.key ≡ some kv.value)) kvs
    → All (IsSafe 2) kvs
stored_ships-IsSafe begin end [] held = tt
stored_ships-IsSafe begin end (kv ∷ kvs) held = (
  subst (λ v. IsSafe 2 (record { key = kv.key; value = v }))
      (sym (ships_value kv.key kv.value held.0.1)) (stored-IsSafe 2 (omega arith)),
  stored_ships-IsSafe begin end kvs held.1,
)

abbrev tick : TickCtx
tick = opened_ctx idle 3 2 true 44

read_IsSafe : All (IsSafe 2) (zone_read cut_database 3 ships)
read_IsSafe = stored_ships-IsSafe _ _ _ (first_of_stored ships keys _ _)

ticked :
    (s' : State) × (made : List Call) × (handle_range_read
        (read_ok (zone_read cut_database 3 ships))
        taken_answer
        tick
        idle
      ≡ some s')
    × (s'.calls ≡ idle.calls ++ made)
ticked =
    let (s', made, ran, called, _) =
      handle_range_read-lookup cut_database tick ships taken_answer idle (omega arith)
        read_IsSafe in
    (s', made, ran, called)

abbrev log : List Committed
log = record { ctx = tick; given = zone_read cut_database 3 ships } ∷ []

abbrev left : Values
left k = last_write ticked.1 k (ships k)

ticked-History : History cut_database ships log left
ticked-History =
    History.tick tick taken_answer idle ticked.0 ticked.1 History.here (omega arith) (omega arith)
      read_IsSafe ticked.2 ticked.3

ships-IsSized : IsSized cut_database ships
ships-IsSized w k value within e =
    subst (λ v. length v ≡ xr_packet_size) (sym (ships_value k value e))
      (decode_entity-encode_entity ship ship-IsPacket).0

History-behind_example :
    entity_at cut_database left (entity_key 3 1)
    ≡ map
        (advanced
          (if has_key (entity_key 3 1) (zone_read cut_database 3 ships) then elapsed 3 log else 0))
        (entity_at cut_database ships (entity_key 3 1))
History-behind_example =
    History-behind cut_database 3 (entity_key 3 1)
      (λ c c' begin end k same. first_of-cut c c' keys begin end k same) ships-IsSized (omega arith)
      ((entity_key-InZone_iff 3 3 1 (omega arith) (omega arith) (omega arith)).1
        (refl, omega arith))
      ticked-History

-- The second entity is not among what the tick is given.
unread : has_key (entity_key 3 1) (zone_read cut_database 3 ships) ≡ false
unfolding entity_key entity_range_begin entity_range_end encode_u32_be in_range key_lt
unread = refl
