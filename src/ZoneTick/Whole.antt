-- ===== src/ZoneTick/Whole.antt =====
-- Ticks of many zones on a database whose range reads leave nothing out.
use mathlib.Core.Option.{map}
use gyreplane.Prelude.{
  ℕ, ◌+◌, ◌^◌, ◌<◌, ◌≡◌, refl, ap, sym, subst, ◌∙◌, inl, inr, true, false, Option, none, some, List,
  arith, ◌==◌, ==_iff, Bool-cases, All,
}
use gyreplane.Kv.Range.{InZone, InZone-unique}
use gyreplane.Kv.Values.{stored_entity}
use gyreplane.Motion.Advance.{advanced}
use gyreplane.ZoneTick.{TickCtx}
use gyreplane.ZoneTick.Update.{moved_value}
use gyreplane.ZoneTick.Store.{Database, IsWhole, has_key, has_key-Stored}
use gyreplane.ZoneTick.Zones.{
  Committed, elapsed, given_for, zone_read, History, tick, here, entity_at, tick-lookup,
  History-given,
}

module _ {Contents : Type 0} (db : Database Contents) where
  -- A zone is given the keys of its own range only.
  pub has_key-InZone :
      (ctx : TickCtx) (c : Contents) (k : List ℕ)
      → has_key k (zone_read db ctx.z_id c) ≡ true
      → InZone ctx.z_id k
  has_key-InZone ctx c k held = (has_key-Stored db ctx c _ _ k _ (db.read_stored c _ _) held).0

module _ {Contents : Type 0} (db : Database Contents) (whole : IsWhole db) where
  -- A zone is given a stored key of its range, and no other.
  given_own :
      (ctx : TickCtx) (c : Contents) (z : ℕ) (k value : List ℕ)
      → ctx.z_id < 2 ^ 32
      → z < 2 ^ 32
      → InZone z k
      → db.lookup c k ≡ some value
      → has_key k (zone_read db ctx.z_id c) ≡ (ctx.z_id == z)
  given_own ctx c z k value known small within stored = elim (Bool-cases (ctx.z_id == z)) [
    | inl same ↦
        let own : InZone ctx.z_id k =
          subst (λ w. InZone w k) (sym ((==_iff ctx.z_id z).0 same)) within in
        db.read_all c _ _ k value (whole c _ _) own stored ∙ sym same
    | inr other ↦ elim (Bool-cases (has_key k (zone_read db ctx.z_id c))) [
      | inr missing ↦ missing ∙ sym other
      | inl held ↦
          let unique =
            InZone-unique ctx.z_id z k known small (has_key-InZone db ctx c k held) within in
          absurd (ground (arith, unique))
    ]
  ]

  -- A stored key of a zone stays stored, and is given for as long as the zone is ticked.
  given_for-elapsed :
      {c c' : Contents} {ts : List Committed} (z : ℕ) (k value : List ℕ)
      → z < 2 ^ 32
      → InZone z k
      → db.lookup c k ≡ some value
      → History db c ts c'
      → (given_for k ts ≡ elapsed z ts) × ((value' : List ℕ) × (db.lookup c' k ≡ some value'))
  given_for-elapsed z k value small within stored here = (refl, (value, stored))
  given_for-elapsed z k value small within stored
        (tick {ts = ts} {c' = c'} ctx ans s s' made before known few safe ran called) =
      let (same, (value', stored')) = given_for-elapsed z k value small within stored before in
      let own = given_own ctx c' z k value' known small within stored' in
      let after = tick-lookup db ctx ans s s' made c' few safe ran called k in
      elim (Bool-cases (ctx.z_id == z)) [
        | inl at ↦ (
          rw (own, at) (ap (λ n. n + ctx.tick_count) same),
          (
            moved_value ctx.tick_count value',
            (rw (own, at) at after) ∙ ap (map (moved_value ctx.tick_count)) stored',
          ),
        )
        | inr apart ↦ (rw (own, apart) same, (value', (rw (own, apart) at after) ∙ stored'))
      ]

  never_given :
      {c c' : Contents} {ts : List Committed} (k : List ℕ)
      → ((w : ℕ) → ¬ (InZone w k))
      → History db c ts c'
      → All (λ t. has_key k t.given ≡ false) ts
  never_given k nowhere here = tt
  never_given k nowhere (tick {c' = c'} ctx ans s s' made before known few safe ran called) = (
    elim (Bool-cases (has_key k (zone_read db ctx.z_id c'))) [
      | inl held ↦ absurd (nowhere ctx.z_id (has_key-InZone db ctx c' k held))
      | inr missing ↦ missing
    ],
    never_given k nowhere before,
  )

  -- After committed ticks of any zones, in the order of their commits, with zones and numbers of
  -- ticks below 2 ^ 32 and free of overflow, on a database whose reads leave nothing out: an entity
  -- under a key in the range of a zone below 2 ^ 32 has been moved by exactly the sum of the ticks
  -- of that zone, whatever the other zones did; and a key that no zone's range holds is as it was.
  pub History-entity_at :
      {c c' : Contents} {ts : List Committed} (z : ℕ) (k : List ℕ)
      → z < 2 ^ 32
      → History db c ts c'
      → (InZone z k → entity_at db c' k ≡ map (advanced (elapsed z ts)) (entity_at db c k))
        × (((w : ℕ) → ¬ (InZone w k)) → db.lookup c' k ≡ db.lookup c k)
  History-entity_at {c = c} {c' = c'} {ts = ts} z k small history =
      let (moved, kept) = History-given db k history in
      (
        λ within. moved ∙ of_zone within (db.lookup c k) refl,
        λ nowhere. kept (never_given k nowhere history),
      )
    where
      of_zone :
          InZone z k
          → (found : Option (List ℕ)) → db.lookup c k ≡ found
          → map (advanced (given_for k ts)) (map stored_entity found)
            ≡ map (advanced (elapsed z ts)) (map stored_entity found)
      of_zone within none e = refl
      of_zone within (some value) e =
          ap (λ n. some (advanced n (stored_entity value)))
            (given_for-elapsed z k value small within e history).0
