-- ===== src/Throughput/Durable.antt =====
-- What the tool counts is what the database holds.
use mathlib.Core.Option.{map}
use gyreplane.Prelude.{
  ℕ, zero, suc, ◌+◌, ◌-◌, ◌^◌, ◌≤◌, ◌<◌, ◌≡◌, refl, ap, sym, subst, ◌∙◌, true, false, Option, none,
  some, List, ◌>>=◌, arith, drop, drop-append, length,
}
use gyreplane.Kv.Range.{InZone}
use gyreplane.Motion.Advance.{advanced}
use gyreplane.Align.{Double, ◌⊕◌}
use gyreplane.Fdb.Submit.{IsAligned}
use gyreplane.ZoneTick.{State, KeyValue}
use gyreplane.ZoneTick.Store.{Database, IsWhole}
use gyreplane.ZoneTick.Zones.{zone_read, entity_at}
use gyreplane.Throughput.Timed.{TickLoopCtx, start_tick, evloop_run, run_loop, timed}
use gyreplane.Throughput.Normal.{served, Rests, round_calls, served_round}
use gyreplane.Throughput.Counted.{ticked, Rests-ticked, step, drain_loop-ticked}
use gyreplane.Throughput.Serving.{
  Serving, at_start, zone_round, round_of, served_by, course, course_rounds, IsRoomy, IsMoved,
}
use gyreplane.Throughput.Moved.{read_IsSafe, round-IsMoved, moved_entity, start_moved}

bound :
    {A B : Type 0} (a : Option A) (f : A → Option A) (g : A → Option B) {u : A}
    → (do x ← a; f x) ≡ some u
    → (do x ← a; y ← f x; g y) ≡ g u
bound none f g e = absurd (ground (arith, e))
bound (some x) f g e = ap (λ y. y >>= g) e

-- A measurement of `n` rounds on a database that serves it, from the contents `c` and the state `s`.
module _ {Contents D : Type 0} ⦃F : Double D⦄ (db : Database Contents) (whole : IsWhole db)
    (self z_id : ℕ) (zone : z_id < 2 ^ 32) (now : ℕ → D) (duration : D) (s : State) (c : Contents)
    (n : ℕ) where
  abbrev pub after : ℕ → Serving Contents D
  after = course db self z_id (at_start (now 0 ⊕ duration) z_id s c)

  abbrev pub reads : ℕ → List KeyValue
  reads i = zone_read db z_id (after (i - 1)).contents

  abbrev pub HasZoneRoom : Type 0
  HasZoneRoom = (k value : List ℕ) → InZone z_id k → db.lookup c k ≡ some value → IsRoomy n value

  -- After so many rounds.
  pub record Along (m : ℕ) (v : Serving Contents D) : Type 0 where
    pub rests : Rests s (ticked (now 0 ⊕ duration) z_id m) v.running
    pub moved : (k : List ℕ) → InZone z_id k → IsMoved m (db.lookup c k) (db.lookup v.contents k)

  one_round :
      (m : ℕ)
      → s.db ≡ true
      → n < 2 ^ 32
      → HasZoneRoom
      → m + 1 ≤ n
      → Along m (after m)
      → (round_of db self z_id (after m) ≡ some (after (suc m)).running)
        × Along (m + 1) (after (suc m))
  unfolding course
  one_round m has_db small room few along =
      let v = after m in
      let kvs = zone_read db z_id v.contents in
      let t = v.running in
      let r = along.rests in
      let safe =
        read_IsSafe db whole self z_id zone n m c v.contents few room along.moved kvs
          (db.read_stored v.contents _ _) in
      let (t1, t2, ran1, ran2, q, called) =
        served_round self kvs t (r.db ∙ has_db) r.aligned
          (ap (λ (l : TickLoopCtx D). l.in_flight) r.loop_ctx) safe in
      let ran : round_of db self z_id v ≡ some t2 = rw ran1 ran2 in
      let same : after (suc m)
          ≡ record { contents = db.apply v.contents (round_calls self kvs t); running = t2 } =
        ap (served_by db self z_id v) ran
        ∙ ap (λ calls. record { contents = db.apply v.contents calls; running = t2 })
            (ap (λ calls. drop (length t.state.calls) calls) called
              ∙ drop-append t.state.calls (round_calls self kvs t) refl) in
      (
        ran ∙ ap (λ (w : Serving Contents D). some w.running) (sym same),
        subst (Along (m + 1)) (sym same) (record {
          rests = Rests-ticked self now reads duration z_id s m r q;
          moved = λ k within.
              round-IsMoved db whole self z_id zone n m v.contents t k (db.lookup c k) few small
                (ap (λ (l : TickLoopCtx D). l.z_id) r.loop_ctx) within
                (λ value e. room k value within e) (along.moved k within);
        }),
      )

  pub course-Along :
      (m : ℕ) → s.db ≡ true → IsAligned s → n < 2 ^ 32 → HasZoneRoom → m ≤ n → Along m (after m)
  unfolding course
  course-Along zero has_db al small room few = record {
    rests = record {
      loop_ctx = refl;
      db = refl;
      aligned = al;
      wrappers = refl;
      contexts = refl;
      transactions = refl;
    };
    moved = λ k within. start_moved (db.lookup c k) (λ value e. (room k value within e).0);
  }
  course-Along (suc m) has_db al small room few =
      subst (λ j. Along j (after (suc m))) (omega arith)
        (one_round m has_db small room (omega arith)
          (course-Along m has_db al small room (omega arith))).1

  -- The loop from round `m` on.
  run_loop-course :
      (k left m : ℕ)
      → s.db ≡ true
      → IsAligned s
      → n < 2 ^ 32
      → HasZoneRoom
      → m + k ≡ n
      → ((j : ℕ) → 1 ≤ j → j < 1 + n → F.less (now j) (now 0 ⊕ duration) ≡ true)
      → F.less (now (1 + n)) (now 0 ⊕ duration) ≡ false
      → k < left
      → run_loop self now
          (course_rounds db self z_id (at_start (now 0 ⊕ duration) z_id s c))
          left
          (m + 1)
          (after m).running
        ≡ some (1 + n + 1, (after n).running)
  run_loop-course k zero m has_db al small room all before over enough = absurd (omega arith)
  run_loop-course zero (suc left) m has_db al small room all before over enough =
      let along = course-Along m has_db al small room (omega arith) in
      let at_end : m ≡ n = omega arith in
      step self now reads duration z_id s left (m + 1) m (after m).running false along.rests
        (subst (λ j. F.less (now j) (now 0 ⊕ duration) ≡ false) (omega arith) over)
      ∙ ap (λ j. some (j + 1 + 1, (after j).running)) at_end
      ∙ ap (λ j. some (j, (after n).running)) (omega arith)
  run_loop-course (suc k) (suc left) m has_db al small room all before over enough =
      let along = course-Along m has_db al small room (omega arith) in
      let (ran, _) = one_round m has_db small room (omega arith) along in
      let rest =
        run_loop-course k left (suc m) has_db al small room (omega arith) before over
          (omega arith) in
      let read : reads (m + 1) ≡ zone_read db z_id (after m).contents =
        ap (λ j. zone_read db z_id (after j).contents) (omega arith) in
      step self now reads duration z_id s left (m + 1) m (after m).running true along.rests
        (before (m + 1) (omega arith) (omega arith))
      ∙ ap
          (λ kvs. do
            t ← start_tick self (served kvs) (after m).running
            t ← evloop_run (served kvs).events t
            run_loop self now (course_rounds db self z_id (at_start (now 0 ⊕ duration) z_id s c))
                left (m + 1 + 1) t)
          read
      ∙ bound (start_tick self (zone_round db self z_id (after m).contents) (after m).running)
          (evloop_run (zone_round db self z_id (after m).contents).events)
          (run_loop self now (course_rounds db self z_id (at_start (now 0 ⊕ duration) z_id s c))
            left (m + 1 + 1))
          ran
      ∙ ap
          (λ j.
            run_loop self now (course_rounds db self z_id (at_start (now 0 ⊕ duration) z_id s c))
              left j (after (suc m)).running)
          (omega arith)
      ∙ rest

  -- Take a database whose reads leave nothing out and a state with a database where futures and
  -- wrappers are paired, fewer than 2 ^ 32 rounds, and a zone below 2 ^ 32 whose stored values are
  -- bytes that stand for entities further from the ends of an int64_t than the fastest goes in so
  -- many ticks. If in each round the database gives what it holds and takes what the tool commits,
  -- and the clock shows times before the deadline at its first `n` readings in the loop and not at
  -- the next one, within a bound above `n`, then the tool comes to an end with `n` ticks counted,
  -- none failed, and nothing more allocated than before, and in the database each entity of the
  -- zone has moved by exactly the ticks that were counted.
  pub timed-durable :
      (left : ℕ) (k : List ℕ)
      → s.db ≡ true
      → IsAligned s
      → n < 2 ^ 32
      → ((k value : List ℕ) → InZone z_id k → db.lookup c k ≡ some value → IsRoomy n value)
      → ((j : ℕ) → 1 ≤ j → j < 1 + n → F.less (now j) (now 0 ⊕ duration) ≡ true)
      → F.less (now (1 + n)) (now 0 ⊕ duration) ≡ false
      → n < left
      → InZone z_id k
      → let end = course db self z_id (at_start (now 0 ⊕ duration) z_id s c) n in
        (timed self now
            (course_rounds db self z_id (at_start (now 0 ⊕ duration) z_id s c))
            left
            duration
            z_id
            s
          ≡ some (1 + n + 1, end.running))
        × Rests s (ticked (now 0 ⊕ duration) z_id n) end.running
        × (entity_at db end.contents k
            ≡ map (advanced end.running.loop_ctx.ticks_done) (entity_at db c k))
  unfolding timed course
  timed-durable zero k has_db al small room before over enough within = absurd (omega arith)
  timed-durable (suc left) k has_db al small room before over enough within =
      let along = course-Along n has_db al small room (omega arith) in
      let ran =
        run_loop-course n (suc left) 0 has_db al small room (omega arith) before over enough in
      let counted : (after n).running.loop_ctx.ticks_done ≡ n =
        ap (λ (l : TickLoopCtx D). l.ticks_done) along.rests.loop_ctx ∙ omega arith in
      (
        rw ran (
            drain_loop-ticked self now reads duration z_id s left (1 + n + 1) n (after n).running
              along.rests),
        along.rests,
        moved_entity n (db.lookup c k) (db.lookup (after n).contents k) (along.moved k within)
            ∙ ap (λ j. map (advanced j) (entity_at db c k)) (sym counted),
      )
