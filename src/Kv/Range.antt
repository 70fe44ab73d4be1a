-- ===== src/Kv/Range.antt =====
-- Which keys the range of a zone covers.
use gyreplane.Prelude.{
  ℕ, ◌^◌, ◌<◌, ◌≡◌, ◌↔◌, refl, ap, sym, subst, ◌∙◌, true, List, [], ◌∷◌, ◌++◌, arith, ltb,
}
use gyreplane.Kv.{ss_zf_entity, entity_key, zone_key, entity_range_begin, entity_range_end}
use gyreplane.Kv.Integers.{be, encode_u32_be-be, be-injective, key_lt-be}
use gyreplane.Kv.KeyOrder.{
  key_lt, in_range, BelowMark, key_lt-append, in_range-split, in_range-append,
}

-- `k` lies in the range that a tick of zone `z` reads.
abbrev pub InZone : ℕ → List ℕ → Type 0
InZone z k = in_range (entity_range_begin z) (entity_range_end z) k ≡ true

-- The bytes of a range begin.
begin_bytes : (z : ℕ) → entity_range_begin z ≡ ss_zf_entity ++ (be z ++ b'/' ∷ [])
unfolding entity_range_begin
begin_bytes z = ap (λ w. ss_zf_entity ++ (w ++ b'/' ∷ [])) (encode_u32_be-be z)

key_split : (z e : ℕ) → entity_key z e ≡ entity_range_begin z ++ be e
unfolding entity_key entity_range_begin
key_split z e = rw (encode_u32_be-be z, encode_u32_be-be e) refl

InZone-split :
    (z : ℕ) (k : List ℕ) → InZone z k → (s : List ℕ) × (k ≡ entity_range_begin z ++ s) × BelowMark s
unfolding entity_range_end
InZone-split z k h = in_range-split (entity_range_begin z) k h

InZone-append : (z : ℕ) (s : List ℕ) → BelowMark s → InZone z (entity_range_begin z ++ s)
unfolding entity_range_end
InZone-append z s h = in_range-append (entity_range_begin z) s h

-- Keys with the bytes of two zones' begins in front are of one zone.
begin_injective :
    (z w : ℕ) (s t : List ℕ)
    → z < 2 ^ 32
    → w < 2 ^ 32
    → entity_range_begin z ++ s ≡ entity_range_begin w ++ t
    → (z ≡ w) × (s ≡ t)
begin_injective z w s t hz hw e =
    let same = rw (begin_bytes z, begin_bytes w) at e in (ground arith, cc)

-- No byte string at all lies in the ranges of two zones whose numbers are below 2 ^ 32.
pub InZone-unique :
    (z w : ℕ) (k : List ℕ) → z < 2 ^ 32 → w < 2 ^ 32 → InZone z k → InZone w k → z ≡ w
InZone-unique z w k hz hw in_z in_w =
    let (s, e, _) = InZone-split z k in_z in
    let (t, f, _) = InZone-split w k in_w in (begin_injective z w s t hz hw (sym e ∙ f)).0

low_first : (e : ℕ) → e < 2 ^ 32 → BelowMark (be e) → e < 0xff000000
low_first e he below = omega arith

first_low : (e : ℕ) → e < 0xff000000 → BelowMark (be e)
first_low e small = omega arith

-- For zone and entity numbers below 2 ^ 32, an entity's key lies in the range of a zone exactly
-- when it is that zone's key and the entity's number is below 0xFF000000: the range end cuts off
-- the keys that go on with 0xFF.
pub entity_key-InZone_iff :
    (z w e : ℕ)
    → z < 2 ^ 32
    → w < 2 ^ 32
    → e < 2 ^ 32
    → InZone z (entity_key w e) ↔ ((z ≡ w) × (e < 0xff000000))
entity_key-InZone_iff z w e hz hw he = (covered, covers)
  where
    covered : InZone z (entity_key w e) → (z ≡ w) × (e < 0xff000000)
    covered h =
        let (s, split, below) = InZone-split z (entity_key w e) h in
        let (same, tail) = begin_injective w z (be e) s hw hz (sym (key_split w e) ∙ split) in
        (sym same, low_first e he (subst BelowMark (sym tail) below))

    covers : (z ≡ w) × (e < 0xff000000) → InZone z (entity_key w e)
    covers (same, small) =
        subst (λ x. InZone x (entity_key w e)) (sym same)
          (subst (InZone w) (sym (key_split w e)) (InZone-append w (be e) (first_low e small)))

-- Entity keys are distinct for distinct pairs of a zone and an entity number below 2 ^ 32.
pub entity_key-injective :
    (z e w f : ℕ)
    → z < 2 ^ 32
    → e < 2 ^ 32
    → w < 2 ^ 32
    → f < 2 ^ 32
    → entity_key z e ≡ entity_key w f
    → (z ≡ w) × (e ≡ f)
entity_key-injective z e w f hz he hw hf same =
    let (zones, tails) =
      begin_injective z w (be e) (be f) hz hw (sym (key_split z e) ∙ same ∙ key_split w f) in
    (zones, be-injective e f he hf tails)

-- Within a zone the keys are in the order of the entities' numbers, for numbers below 2 ^ 32.
pub key_lt-entity_key :
    (z e f : ℕ) → e < 2 ^ 32 → f < 2 ^ 32 → key_lt (entity_key z e) (entity_key z f) ≡ ltb e f
key_lt-entity_key z e f he hf =
    rw (key_split z e, key_split z f)
      (key_lt-append (entity_range_begin z) (be e) (be f) ∙ key_lt-be e f he hf)

-- A zone's own record, under "zf/zone/", is in no zone's entity range.
pub zone_key-InZone : (z w : ℕ) → ¬ (InZone z (zone_key w))
unfolding zone_key entity_range_begin
zone_key-InZone z w h = let (s, e, below) = InZone-split z (zone_key w) h in ground arith
