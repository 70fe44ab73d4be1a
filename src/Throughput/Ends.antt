-- ===== src/Throughput/Ends.antt =====
-- The two loops of the tool end once the clock has passed their deadlines.
use gyreplane.Prelude.{
  ℕ, zero, suc, ◌+◌, ◌≤◌, ◌<◌, ◌≡◌, refl, ◌∙◌, inl, inr, true, false, Option, some, [], ◌>>=◌,
  arith, Bool-cases, leb, leb→le,
}
use gyreplane.Align.{Double, ◌⊕◌, lit}
use gyreplane.ZoneTick.{State}
use gyreplane.ZoneTick.System.{IsSound}
use gyreplane.Throughput.Timed.{Running, Round, evloop_run, run_loop, drain_loop, begun, timed}
use gyreplane.Throughput.Loop.{IsRound, InLoop, rest}
use gyreplane.Throughput.Rounds.{start_tick-InLoop, evloop_run-InLoop}

module _ {D : Type 0} ⦃F : Double D⦄ (self : ℕ) (now : ℕ → D) (rounds : ℕ → Round)
    (Refused : Type 0) (fine : (i : ℕ) → IsRound Refused (rounds i)) (z_id : ℕ) (deadline : D)
    (created : ℕ) (last : ℕ) where
  abbrev Kept : Running D → Type 0
  Kept = InLoop Refused z_id deadline created

  -- A loop that ends with at most so many readings of the clock taken.
  abbrev Ends : ℕ → Option (ℕ × Running D) → Type 0
  Ends most result = (j : ℕ) × (t' : Running D) × (result ≡ some (j, t')) × (j ≤ most) × Kept t'

  -- A reading that is before a deadline that is past from `last` on.
  before_last :
      (limit : D) (i : ℕ)
      → ((j : ℕ) → last ≤ j → F.less (now j) limit ≡ false)
      → F.less (now i) limit ≡ true
      → i < last
  before_last limit i past early = elim (Bool-cases (leb last i)) [
    | inl after ↦ absurd (ground (arith, early, past i (leb→le last i after)))
    | inr before ↦ ground (arith, before)
  ]

  run_loop-Ends :
      (left i : ℕ) (t : Running D)
      → ((j : ℕ) → last ≤ j → F.less (now j) deadline ≡ false)
      → i ≤ last
      → last < i + left
      → Kept t
      → Ends (last + 1) (run_loop self now rounds left i t)
  unfolding run_loop
  run_loop-Ends zero i t past from enough n = absurd (omega arith)
  run_loop-Ends (suc left) i t past from enough n =
      elim (Bool-cases (F.less (now i) t.loop_ctx.deadline)) [
        | inr over ↦ (i + 1, t, rw over refl, omega arith, n)
        | inl early ↦
            let sooner = before_last deadline i past (rw n.counts.until at early) in
            let (t1, ran1, n1) =
              start_tick-InLoop Refused z_id deadline created self (rounds i) t (fine i) n in
            let (t2, ran2, n2) =
              evloop_run-InLoop Refused z_id deadline created (rounds i).events t1 (fine i).events
                n1 in
            let (j, t3, ran3, few, n3) =
              run_loop-Ends left (i + 1) t2 past (omega arith) (omega arith) n2 in
            (j, t3, rw (early, ran1, ran2) ran3, few, n3)
      ]

  drain_loop-Ends :
      (left i : ℕ) (t : Running D)
      → ((j : ℕ) → last ≤ j → F.less (now j) (deadline ⊕ lit 2) ≡ false)
      → i ≤ last + 1
      → last + 1 < i + left
      → Kept t
      → Ends (last + 2) (drain_loop self now rounds left i t)
  unfolding drain_loop
  drain_loop-Ends zero i t past from enough n = absurd (omega arith)
  drain_loop-Ends (suc left) i t past from enough n = elim (Bool-cases t.loop_ctx.in_flight) [
    | inr clear ↦ (i, t, rw clear refl, omega arith, n)
    | inl flag ↦ elim (Bool-cases (F.less (now i) (t.loop_ctx.deadline ⊕ lit 2))) [
      | inr over ↦ (i + 1, t, rw (flag, over) refl, omega arith, n)
      | inl early ↦
          let sooner = before_last (deadline ⊕ lit 2) i past (rw n.counts.until at early) in
          let (t1, ran1, n1) =
            evloop_run-InLoop Refused z_id deadline created (rounds i).events t (fine i).events n in
          let (j, t2, ran2, few, n2) =
            drain_loop-Ends left (i + 1) t1 past (omega arith) (omega arith) n1 in
          (j, t2, going_on flag early ∙ rw ran1 ran2, few, n2)
    ]
  ]
    where
      going_on :
          t.loop_ctx.in_flight ≡ true
          → F.less (now i) (t.loop_ctx.deadline ⊕ lit 2) ≡ true
          → drain_loop self now rounds (suc left) i t
            ≡ (do t ← evloop_run (rounds i).events t; drain_loop self now rounds left (i + 1) t)
      going_on flag early = rw (flag, early) refl

-- The clock shows no time before the deadlines from its reading `last` on.
abbrev pub IsPast : {D : Type 0} ⦃F : Double D⦄ → (ℕ → D) → D → ℕ → Type 0
IsPast ⦃F⦄ now duration last =
    (j : ℕ)
    → last ≤ j
    → (F.less (now j) (now 0 ⊕ duration) ≡ false)
      × (F.less (now j) (now 0 ⊕ duration ⊕ lit 2) ≡ false)

module _ {D : Type 0} ⦃F : Double D⦄ (self : ℕ) (now : ℕ → D) (rounds : ℕ → Round) (duration : D)
    (z_id : ℕ) (s : State) (last left : ℕ) where
  -- From a sound state with a database and no callback to come, the timed part of the tool
  -- returns, without a fault and whatever the library answers, if its reads give entities that a
  -- tick can move without overflow, if from some later reading on the clock shows no time before
  -- the deadlines, and if the bound allows two readings more than that one; it takes no more. At
  -- the end every transaction that was created for a tick is counted, as done or as failed, but
  -- for at most one; it is in flight, or it is stuck, which takes a start or a submission that was
  -- refused. The counters wrap around at 2 ^ 32.
  pub timed-InLoop :
      (Refused : Type 0)
      → ((i : ℕ) → IsRound Refused (rounds i))
      → s.db ≡ true
      → IsSound s
      → s.wrappers ≡ []
      → IsPast now duration last
      → 0 < last
      → last + 2 ≤ left
      → (j : ℕ) × (t' : Running D) × (timed self now rounds left duration z_id s ≡ some (j, t'))
        × (j ≤ last + 2)
        × InLoop Refused z_id (now 0 ⊕ duration) s.active_transactions t'
  unfolding timed
  timed-InLoop Refused fine db ok alone past started enough =
      let deadline = now 0 ⊕ duration in
      let created = s.active_transactions in
      let (i, t1, ran1, few1, n1) =
        run_loop-Ends self now rounds Refused fine z_id deadline created last left 1
          (record { loop_ctx = begun self now rounds duration z_id; state = s })
          (λ j after. (past j after).0) (omega arith) (omega arith)
          (record {
            completed = 0;
            failures = 0;
            uncounted = 0;
            counts = record {
              sound = ok;
              db = db;
              zone = refl;
              until = refl;
              done_counted = omega arith;
              failed_counted = omega arith;
              started = omega arith;
            };
            phase = rw alone rest;
          }) in
      let (j, t2, ran2, few2, n2) =
        drain_loop-Ends self now rounds Refused fine z_id deadline created last left i t1
          (λ j after. (past j after).1) few1 (omega (arith, few1)) n1 in
      (j, t2, rw ran1 ran2, few2, n2)
