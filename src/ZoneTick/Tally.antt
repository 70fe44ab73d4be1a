-- ===== src/ZoneTick/Tally.antt =====
-- What has become of the entities depends on how often each zone was ticked for how long, and not on
-- the order: the commits as a bag.
use mathlib.Core.Option.{map}
use mathlib.Core.List
use mathlib.Core.List.{Permᴰ}
use mathlib.Core.Quot
use mathlib.Core.Quot.{Quot}
use native.Mathlib.Nat.{ℕ_set}
use gyreplane.Prelude.{
  ℕ, ◌+◌, ◌^◌, ◌<◌, ◌≡◌, refl, ap, sym, ◌∙◌, List, [], ◌∷◌, ◌==◌, if◌then◌else◌, arith,
}
use gyreplane.Kv.Range.{InZone}
use gyreplane.Motion.Advance.{advanced}
use gyreplane.ZoneTick.{State}
use gyreplane.ZoneTick.System.{IsSound}
use gyreplane.ZoneTick.Store.{Database, IsWhole}
use gyreplane.ZoneTick.Zones.{Committed, elapsed, entity_at}
use gyreplane.ZoneTick.World.{World, untouched, WorldReach}
use gyreplane.ZoneTick.Serial.{WorldReach-entity_at}

-- Zones with numbers of ticks, in no order.
abbrev pub Tally : Type 0
Tally = Quot {α = List (ℕ × ℕ)} Permᴰ

abbrev pub tally : List Committed → Tally
tally log = Quot.mk (List.map (λ t. (t.ctx.z_id, t.ctx.tick_count)) log)

time_in : ℕ → List (ℕ × ℕ) → ℕ
time_in z [] = 0
time_in z (t ∷ ts) = if t.0 == z then time_in z ts + t.1 else time_in z ts

time_in-perm : (z : ℕ) (xs ys : List (ℕ × ℕ)) → Permᴰ xs ys → time_in z xs ≡ time_in z ys
unfolding time_in
time_in-perm z [] [] Permᴰ.nil = refl
time_in-perm z (x ∷ xs) (y ∷ ys) (Permᴰ.cons e p) =
    ap (λ (t : ℕ × ℕ). if t.0 == z then time_in z xs + t.1 else time_in z xs) e
    ∙ ap (λ n. if y.0 == z then n + y.1 else n) (time_in-perm z xs ys p)
time_in-perm z (x ∷ y ∷ xs) (y' ∷ x' ∷ ys) (Permᴰ.swap e f) = ground (
  arith,
  ap (λ (t : ℕ × ℕ). t.0) e,
  ap (λ (t : ℕ × ℕ). t.1) e,
  ap (λ (t : ℕ × ℕ). t.0) f,
  ap (λ (t : ℕ × ℕ). t.1) f,
)
time_in-perm z xs ys (Permᴰ.trans p q) = time_in-perm z xs _ p ∙ time_in-perm z _ ys q

-- For how long a zone was ticked.
pub time_of : ℕ → Tally → ℕ
time_of z = Quot.lift ℕ_set (time_in z) (time_in-perm z)

time_of-tally : (z : ℕ) (log : List Committed) → elapsed z log ≡ time_of z (tally log)
unfolding time_of time_in
time_of-tally z [] = refl
time_of-tally z (t ∷ ts) =
    ap (λ n. if t.ctx.z_id == z then n + t.ctx.tick_count else n) (time_of-tally z ts)

module _ {Contents : Type 0} (db : Database Contents) where
  -- From sound states and the same contents of a database that no tick has used yet and whose reads
  -- leave nothing out: two processes that have committed the same ticks, in whatever order and with
  -- whatever failures and retries between them, have left every entity of a zone below 2 ^ 32 at
  -- the same place, moved by its velocity times the ticks of its zone in the bag of commits. It
  -- takes what `WorldReach-entity_at` takes.
  pub WorldReach-tally :
      {s s' : State} {c : Contents} {v v' : World db} (z : ℕ) (k : List ℕ)
      → IsWhole db
      → IsSound s
      → IsSound s'
      → z < 2 ^ 32
      → InZone z k
      → WorldReach db (untouched db s c) v
      → WorldReach db (untouched db s' c) v'
      → tally v.log ≡ tally v'.log
      → (entity_at db v.contents k ≡ map (advanced (time_of z (tally v.log))) (entity_at db c k))
        × (entity_at db v.contents k ≡ entity_at db v'.contents k)
  WorldReach-tally {c = c} {v = v} {v' = v'} z k whole sound sound' small within reach reach' same =
      let at = λ (n : ℕ). map (advanced n) (entity_at db c k) in
      let first =
        WorldReach-entity_at db z k whole sound small within reach
        ∙ ap at (time_of-tally z v.log) in
      let second =
        WorldReach-entity_at db z k whole sound' small within reach'
        ∙ ap at (time_of-tally z v'.log) in
      (first, first ∙ ap (λ t. at (time_of z t)) same ∙ sym second)
