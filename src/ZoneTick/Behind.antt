-- ===== src/ZoneTick/Behind.antt =====
-- Ticks on a database whose range reads may leave entities out: the comment in zt_on_range_read on
-- `more`.
use mathlib.Core.Option.{map}
use gyreplane.Prelude.{
  ℕ, ◌+◌, ◌^◌, ◌<◌, ◌≡◌, refl, ap, sym, ◌∙◌, inl, inr, Bool, true, false, Option, none, some, List,
  arith, ◌==◌, ==_iff, if◌then◌else◌, Bool-cases, length,
}
use gyreplane.Packet.{xr_packet_size}
use gyreplane.Kv.{entity_range_begin, entity_range_end}
use gyreplane.Kv.Range.{InZone, InZone-unique}
use gyreplane.Motion.Advance.{advanced}
use gyreplane.ZoneTick.Update.{IsSafe, moved_value, length-moved_value}
use gyreplane.ZoneTick.Store.{Database, has_key}
use gyreplane.ZoneTick.Zones.{
  Committed, elapsed, given_for, zone_read, History, tick, here, entity_at, found_IsSafe,
  tick-lookup, History-given,
}
use gyreplane.ZoneTick.Whole.{has_key-InZone}

module _ {Contents : Type 0} (db : Database Contents) where
  -- The same keys are stored, with values of the same lengths.
  abbrev pub SameSizes : Contents → Contents → Type 0
  SameSizes c c' =
      (k : List ℕ) → map (length {A = ℕ}) (db.lookup c k) ≡ map (length {A = ℕ}) (db.lookup c' k)

  -- Where a read is cut off depends on the sizes of what is stored.
  abbrev pub IsCutBySize : Type 0
  IsCutBySize =
      (c c' : Contents) (begin end k : List ℕ)
      → SameSizes c c'
      → has_key k (db.read c begin end) ≡ has_key k (db.read c' begin end)

  -- The values of the zones are as long as a tick writes them.
  abbrev pub IsSized : Contents → Type 0
  IsSized c =
      (w : ℕ) (k value : List ℕ)
      → InZone w k
      → db.lookup c k ≡ some value
      → length value ≡ xr_packet_size

  resized :
      (ticks : ℕ) (k : List ℕ) (found before : Option (List ℕ))
      → ticks < 2 ^ 32
      → ((value : List ℕ) → found ≡ some value → IsSafe ticks (record { key = k; value = value }))
      → ((value : List ℕ) → before ≡ some value → length value ≡ xr_packet_size)
      → map (length {A = ℕ}) found ≡ map (length {A = ℕ}) before
      → map (length {A = ℕ}) (map (moved_value ticks) found) ≡ map (length {A = ℕ}) before
  resized ticks k none before few safe sized same = same
  resized ticks k (some v) none few safe sized same = absurd (ground (arith, same))
  resized ticks k (some v) (some w) few safe sized same = ap some (
      length-moved_value ticks (record { key = k; value = v }) few (safe v refl)
      ∙ sym (sized w refl))

  History-SameSizes :
      {c c' : Contents} {ts : List Committed} → IsSized c → History db c ts c' → SameSizes c' c
  History-SameSizes sized here k = refl
  History-SameSizes {c = c} sized
        (tick {c' = c'} ctx ans s s' made before known few safe ran called) k =
      let same = History-SameSizes sized before k in
      let after = tick-lookup db ctx ans s s' made c' few safe ran called k in
      elim (Bool-cases (has_key k (zone_read db ctx.z_id c'))) [
        | inr missing ↦ ap (map (length {A = ℕ})) (rw missing at after) ∙ same
        | inl held ↦
            ap (map (length {A = ℕ})) (rw held at after)
            ∙ resized ctx.tick_count k (db.lookup c' k) (db.lookup c k) few
                (λ value e.
                  found_IsSafe db c' ctx.tick_count _ _ k value (zone_read db ctx.z_id c')
                    (db.read_stored c' _ _) safe held e)
                (λ value e. sized ctx.z_id k value (has_key-InZone db ctx c' k held) e) same
      ]

  given_first :
      {c c' : Contents} {ts : List Committed} (z : ℕ) (k : List ℕ)
      → IsCutBySize
      → IsSized c
      → z < 2 ^ 32
      → InZone z k
      → History db c ts c'
      → given_for k ts ≡ (if has_key k (zone_read db z c) then elapsed z ts else 0)
  given_first z k cut sized small within here = ground arith
  given_first {c = c} z k cut sized small within
        (tick {ts = ts} {c' = c'} ctx ans s s' made before known few safe ran called) =
      let ih = given_first z k cut sized small within before in
      let same =
        cut c' c (entity_range_begin z) (entity_range_end z) k (History-SameSizes sized before) in
      elim (Bool-cases (ctx.z_id == z)) [
        | inl at ↦
            let own : has_key k (zone_read db ctx.z_id c') ≡ has_key k (zone_read db z c) =
              ap (λ w. has_key k (zone_read db w c')) ((==_iff ctx.z_id z).0 at) ∙ same in
            rw (own, at) (one_more (has_key k (zone_read db z c)) ih)
        | inr apart ↦ elim (Bool-cases (has_key k (zone_read db ctx.z_id c'))) [
          | inr missing ↦ rw (missing, apart) ih
          | inl held ↦
              let unique =
                InZone-unique ctx.z_id z k known small (has_key-InZone db ctx c' k held) within in
              absurd (ground (arith, unique))
        ]
      ]
    where
      one_more :
          (b : Bool)
          → given_for k ts ≡ (if b then elapsed z ts else 0)
          → (if b then given_for k ts + ctx.tick_count else given_for k ts)
            ≡ (if b then elapsed z ts + ctx.tick_count else 0)
      one_more true e = ap (λ n. n + ctx.tick_count) e
      one_more false e = e

  -- After committed ticks of any zones, in the order of their commits, with zones and numbers of
  -- ticks below 2 ^ 32 and free of overflow, on a database whose reads may leave entities out, the
  -- same ones as long as no key and no length changes, and where the values of the zones are of the
  -- length that a tick writes: the entities of a zone that its first read would give have been
  -- moved by all of the zone's ticks, and the others by none.
  pub History-behind :
      {c c' : Contents} {ts : List Committed} (z : ℕ) (k : List ℕ)
      → IsCutBySize
      → IsSized c
      → z < 2 ^ 32
      → InZone z k
      → History db c ts c'
      → entity_at db c' k
        ≡ map
            (advanced (if has_key k (zone_read db z c) then elapsed z ts else 0))
            (entity_at db c k)
  History-behind {c = c} z k cut sized small within history =
      (History-given db k history).0
      ∙ ap (λ n. map (advanced n) (entity_at db c k))
          (given_first z k cut sized small within history)
