-- ===== src/ZoneTick/Reach.antt =====
-- The states that starts of ticks and callbacks reach, in whatever order they come.
use gyreplane.Prelude.{
  ℕ, ◌+◌, ◌≤◌, ◌≡◌, ap, subst, Bool, true, Option, some, List, [], ◌∷◌, ◌++◌, arith,
}
use gyreplane.Prelude.Int.{ℤ}
use gyreplane.Fdb.{Answer, Wrapper, future_callback}
use gyreplane.Fdb.Handles.{count, count-append}
use gyreplane.Fdb.Submit.{accepted}
use gyreplane.ZoneTick.{Callback, State, Outcome, dispatch, zonetick_run}
use gyreplane.ZoneTick.Leaves.{answered}
use gyreplane.ZoneTick.Handlers.{IsSafeFor}
use gyreplane.ZoneTick.System.{IsSound, Sound, Sound-weaken, pending, fire-Sound}
use gyreplane.ZoneTick.Run.{started_users, zonetick_run-Sound}

-- The process, when the library answers each submission in one of the ways in `Allowed`.
module _ (Allowed : Answer → Type 0) where
  -- A tick is started, or the library makes one of the pending callbacks, whichever, with whatever
  -- errors and answers. The list holds the user contexts whose tick starts.
  pub data Step : List ℕ → State → State → Type 0 where
    start :
        {s s' : State} {rc : ℤ} (calloc : Bool) (create : ℕ) (ans : Answer) (z_id tick_count : ℕ)
        (done_cb : Bool) (user_ctx : ℕ)
        → Allowed ans
        → s.db ≡ true
        → zonetick_run calloc create ans z_id tick_count done_cb user_ctx s ≡ some (rc, s')
        → Step (started_users rc done_cb user_ctx) s s'
    fire :
        {s s' : State} (out : Outcome) (ans : Answer) (w : Wrapper Callback)
        (pre post : List (Wrapper Callback))
        → Allowed ans
        → s.wrappers ≡ pre ++ w ∷ post
        → IsSafeFor out w.cb
        → future_callback (dispatch out ans) w s ≡ some s'
        → Step [] s s'

  pub data Reach (s : State) : List ℕ → State → Type 0 where
    here : Reach s [] s
    next :
        {t u : State} {started more : List ℕ}
        → Reach s started t
        → Step more t u
        → Reach s (started ++ more) u

-- A call has one result.
same_state : {s t : State} {result : Option State} → result ≡ some s → result ≡ some t → s ≡ t
same_state e f = ground (arith, e, f)

same_start :
    {s t : State} {rc rc' : ℤ} {result : Option (ℤ × State)}
    → result ≡ some (rc, s)
    → result ≡ some (rc', t)
    → (rc ≡ rc') × (s ≡ t)
same_start e f = ground (arith, e, f)

module _ {Allowed : Answer → Type 0} where
  -- A step leads from a sound state to a sound one and answers no tick twice.
  Step-Sound :
      {started : List ℕ} {s s' : State}
      → IsSound s
      → Step Allowed started s s'
      → (ans : Answer) × Allowed ans × Sound (accepted ans) started s s'
  Step-Sound {s = s} {s' = s'} ok
        (start calloc create ans z_id tick_count done_cb user_ctx allowed db ran) =
      let (rc, t, ran', code, good, _, _) =
        zonetick_run-Sound calloc create ans z_id tick_count done_cb user_ctx s db ok in
      let (same_rc, same) = same_start ran' ran in
      (
        ans,
        allowed,
        subst (λ c. Sound (accepted ans) (started_users c done_cb user_ctx) s s') same_rc
            (subst (Sound (accepted ans) (started_users rc done_cb user_ctx) s) same
              (Sound-weaken (accepted ans) good)),
      )
  Step-Sound {s = s} ok (fire out ans w pre post allowed at safe ran) =
      let (t, ran', good, _) = fire-Sound out ans w pre post s at ok safe in
      (ans, allowed, subst (Sound (accepted ans) [] s) (same_state ran' ran) good)

  -- From a sound state, every state that the process reaches is sound, in whatever order the
  -- callbacks come and whatever the library answers, if each read gives entities that the tick can
  -- move without overflow. Sound means that each future is held by one wrapper, and that each
  -- callback to come owns a context and a transaction that are allocated. No tick is answered more
  -- often than it was started, counting those that are still pending.
  pub Reach-Sound :
      {s : State} {started : List ℕ} {u : State}
      → IsSound s
      → Reach Allowed s started u
      → IsSound u
        × ((a : ℕ)
            → count a (answered u) + count a (pending u)
              ≤ count a (answered s) + count a (pending s) + count a started)
  Reach-Sound ok here = (ok, λ a. omega arith)
  Reach-Sound {s = s} {u = u} ok (next {t = t} {started = started} {more = more} reach step) =
      let (ok_t, once) = Reach-Sound ok reach in
      let (ans, allowed, good) = Step-Sound ok_t step in
      (good.sound, λ a. omega (arith, once a, good.accounts a, count-append a started more))

  -- If every submission is taken and each read gives entities that the tick can move without
  -- overflow, then from a sound state each tick is answered exactly as often as it was started,
  -- counting those that are still pending.
  pub Reach-answered :
      {s : State} {started : List ℕ} {u : State}
      → ((ans : Answer) → Allowed ans → accepted ans ≡ true)
      → IsSound s
      → Reach Allowed s started u
      → (a : ℕ)
      → count a (answered u) + count a (pending u)
        ≡ count a (answered s) + count a (pending s) + count a started
  Reach-answered taken ok here a = omega arith
  Reach-answered {s = s} {u = u} taken ok
        (next {t = t} {started = started} {more = more} reach step) a =
      let (ok_t, _) = Reach-Sound ok reach in
      let (ans, allowed, good) = Step-Sound ok_t step in
      let kept = ap (count a) (good.nothing_lost (taken ans allowed)) in
      omega
        (arith, Reach-answered taken ok reach a, good.accounts a, kept, count-append a started more)

  -- In every state that the process reaches from a sound one, a callback to come can be made, if
  -- what it reads can be moved without overflow: it returns, in a sound state.
  pub Reach-fires :
      {s : State} {started : List ℕ} {u : State} (out : Outcome) (ans : Answer)
      (w : Wrapper Callback) (pre post : List (Wrapper Callback))
      → IsSound s
      → Reach Allowed s started u
      → Allowed ans
      → u.wrappers ≡ pre ++ w ∷ post
      → IsSafeFor out w.cb
      → (u' : State) × Step Allowed [] u u' × IsSound u'
  Reach-fires {u = u} out ans w pre post ok reach allowed at safe =
      let (u', ran, good, _) = fire-Sound out ans w pre post u at (Reach-Sound ok reach).0 safe in
      (u', fire out ans w pre post allowed at safe ran, good.sound)
