-- ===== src/Tests/Stores.antt =====
-- A database kept as a list of pairs, the newest one in front, and a tick of it.
use mathlib.Core.Option.{map, some-injective}
use gyreplane.Prelude.{
  ℕ, ◌≡◌, refl, ap, inl, inr, Bool, true, false, ◌&&◌, Option, none, some, List, [], ◌∷◌, ◌++◌,
  arith, if◌then◌else◌, Bool-cases, All,
}
use gyreplane.Kv.{entity_range_begin, entity_range_end}
use gyreplane.Kv.KeyOrder.{in_range}
use gyreplane.Fdb.{Call, get, write, range_read, commit, on_error}
use gyreplane.ZoneTick.{TickCtx, State, KeyValue, handle_range_read}
use gyreplane.ZoneTick.Update.{IsSafe, moved_value}
use gyreplane.ZoneTick.Run.{opened_ctx}
use gyreplane.ZoneTick.Complete.{read_ok, taken_answer}
use gyreplane.ZoneTick.Store.{
  Database, key_eq, key_eq_refl, key_eq→eq, has_key, last_write, handle_range_read-apply,
}
use gyreplane.Tests.Ticks.{idle, stored, stored-IsSafe}

abbrev pub Pairs : Type 0
Pairs = List KeyValue

abbrev pub find : Pairs → List ℕ → Option (List ℕ)
find [] k = none
find (kv ∷ c) k = if key_eq kv.key k then some kv.value else find c k

abbrev pub is_found : Option (List ℕ) → List ℕ → Bool
is_found none value = false
is_found (some v) value = key_eq v value

-- The pairs of the rest that lie in the range and that no newer pair of all replaces.
abbrev pub scan : Pairs → Pairs → (begin end : List ℕ) → List KeyValue
scan all [] begin end = []
scan all (kv ∷ c) begin end =
    if in_range begin end kv.key && is_found (find all kv.key) kv.value
    then kv ∷ scan all c begin end
    else scan all c begin end

abbrev pub put_all : Pairs → List Call → Pairs
put_all c [] = c
put_all c (write tr key value ∷ calls) = put_all (record { key = key; value = value } ∷ c) calls
put_all c (get tr key ∷ calls) = put_all c calls
put_all c (range_read tr begin end options ∷ calls) = put_all c calls
put_all c (commit tr ∷ calls) = put_all c calls
put_all c (on_error tr err ∷ calls) = put_all c calls

is_found_inverse :
    (found : Option (List ℕ)) (value : List ℕ) → is_found found value ≡ true → found ≡ some value
is_found_inverse none value h = absurd (ground arith)
is_found_inverse (some v) value h = ap some (key_eq→eq v value h)

both : (a b : Bool) → (a && b) ≡ true → (a ≡ true) × (b ≡ true)
both a b h = ground arith

pub scan_stored :
    (all c : Pairs) (begin end : List ℕ)
    → All
        (λ kv. (in_range begin end kv.key ≡ true) × (find all kv.key ≡ some kv.value))
        (scan all c begin end)
scan_stored all [] begin end = tt
scan_stored all (kv ∷ c) begin end =
    elim (Bool-cases (in_range begin end kv.key && is_found (find all kv.key) kv.value)) [
      | inr skipped ↦ rw skipped (scan_stored all c begin end)
      | inl kept ↦
          let (within, current) = both _ _ kept in
          rw kept ((within, is_found_inverse _ kv.value current), scan_stored all c begin end)
    ]

chosen :
    (b : Bool) (x value : List ℕ) (others : Option (List ℕ))
    → b ≡ true
    → (if b then some x else others) ≡ some value
    → x ≡ value
chosen true x value others e h = some-injective x value h
chosen false x value others e h = absurd (ground arith)

passed :
    (b : Bool) (x value : List ℕ) (others : Option (List ℕ))
    → b ≡ false
    → (if b then some x else others) ≡ some value
    → others ≡ some value
passed true x value others e h = absurd (ground arith)
passed false x value others e h = h

pub scan_all :
    (all c : Pairs) (begin end k value : List ℕ)
    → in_range begin end k ≡ true
    → find all k ≡ some value
    → find c k ≡ some value
    → has_key k (scan all c begin end) ≡ true
scan_all all [] begin end k value within newest h = absurd (ground arith)
scan_all all (kv ∷ c) begin end k value within newest h = elim (Bool-cases (key_eq kv.key k)) [
  | inl same ↦
      let at : kv.key ≡ k = key_eq→eq kv.key k same in
      let holds : kv.value ≡ value = chosen _ kv.value value (find c k) same h in
      let kept : (in_range begin end kv.key && is_found (find all kv.key) kv.value) ≡ true =
        rw (at, holds, within, newest) (key_eq_refl value) in
      rw (kept, same) refl
  | inr other ↦
      let below =
        scan_all all c begin end k value within newest
          (passed _ kv.value value (find c k) other h) in
      elim (Bool-cases (in_range begin end kv.key && is_found (find all kv.key) kv.value)) [
        | inl kept ↦ rw (kept, other) below
        | inr skipped ↦ rw skipped below
      ]
]

pub find-put_all :
    (c : Pairs) (calls : List Call) (k : List ℕ)
    → find (put_all c calls) k ≡ last_write calls k (find c k)
find-put_all c [] k = refl
find-put_all c (write tr key value ∷ calls) k =
    find-put_all (record { key = key; value = value } ∷ c) calls k
find-put_all c (get tr key ∷ calls) k = find-put_all c calls k
find-put_all c (range_read tr begin end options ∷ calls) k = find-put_all c calls k
find-put_all c (commit tr ∷ calls) k = find-put_all c calls k
find-put_all c (on_error tr err ∷ calls) k = find-put_all c calls k

abbrev pub pairs_database : Database Pairs
pairs_database = record {
  lookup = find;
  read = λ c. scan c c;
  more = λ c begin end. false;
  apply = put_all;
  read_stored = λ c. scan_stored c c;
  read_all = λ c begin end k value all within stored_there.
      scan_all c c begin end k value within stored_there stored_there;
  apply_lookup = find-put_all;
}

pub scan-IsSafe :
    (ticks : ℕ) (all c : Pairs) (begin end : List ℕ)
    → All (IsSafe ticks) c
    → All (IsSafe ticks) (scan all c begin end)
scan-IsSafe ticks all [] begin end h = tt
scan-IsSafe ticks all (kv ∷ c) begin end h =
    elim (Bool-cases (in_range begin end kv.key && is_found (find all kv.key) kv.value)) [
      | inl kept ↦ rw kept (h.0, scan-IsSafe ticks all c begin end h.1)
      | inr skipped ↦ rw skipped (scan-IsSafe ticks all c begin end h.1)
    ]

abbrev tick : TickCtx
tick = opened_ctx idle 3 2 true 44

handle_range_read-apply_example :
    let begin = entity_range_begin 3 in
    let end = entity_range_end 3 in
    (s' : State) × (made : List Call) × (handle_range_read
        (read_ok (scan (stored ∷ []) (stored ∷ []) begin end))
        taken_answer
        tick
        idle
      ≡ some s')
    × (s'.calls ≡ idle.calls ++ made)
    × ((k : List ℕ)
        → find (put_all (stored ∷ []) made) k ≡ (
            if in_range begin end k
            then map (moved_value 2) (find (stored ∷ []) k)
            else find (stored ∷ []) k))
handle_range_read-apply_example =
    handle_range_read-apply pairs_database tick (stored ∷ []) taken_answer idle (omega arith) refl (
      scan-IsSafe 2 (stored ∷ []) (stored ∷ []) (entity_range_begin 3) (entity_range_end 3)
        (stored-IsSafe 2 (omega arith), tt))
