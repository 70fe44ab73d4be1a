-- ===== src/Fdb/Contract.antt =====
-- `future_callback`: each future is destroyed once and each wrapper freed once, if the callback
-- leaves its future alone.
use mathlib.Core.Option.{some-injective}
use gyreplane.Prelude.{
  ℕ, ◌<◌, ◌≡◌, refl, ap, sym, subst, Option, none, some, List, ◌∷◌, ◌++◌, map, All, ◌>>=◌, arith,
}
use gyreplane.Fdb.{Wrapper, Library, future_callback, future_destroy, free_wrapper}
use gyreplane.Fdb.Handles.{
  Below, remove, remove_by, remove_absent, Below-without, above_middle, remove_middle,
  remove-map_middle,
}
use gyreplane.Fdb.Submit.{IsAligned}

module _ {C A : Type 0} where
  -- The state without a wrapper and its future.
  abbrev pub released : List (Wrapper C) → List (Wrapper C) → Library C A → Library C A
  released pre post s = record s {
    wrappers = pre ++ post;
    futures = map Wrapper.future (pre ++ post);
  }

  -- After a callback that left futures and wrappers paired and its own wrapper in place, what is
  -- given back is that wrapper and its future, and nothing else; the pairing stays.
  pub future_callback-released :
      (run : C → Library C A → Option (Library C A)) (w : Wrapper C) (pre post : List (Wrapper C))
      (s s' : Library C A)
      → run w.cb s ≡ some s'
      → IsAligned s'
      → s'.wrappers ≡ pre ++ w ∷ post
      → (future_callback run w s ≡ some (released pre post s')) × IsAligned (released pre post s')
  unfolding future_callback
  future_callback-released run w pre post s s' ran ok here = (
    rw (ran, destroyed, freed) refl,
    record { paired = refl; fresh = Below-without Wrapper.future s'.next w pre post fresh },
  )
    where
      fresh : Below s'.next (map Wrapper.future (pre ++ w ∷ post))
      fresh = subst (λ ws. Below s'.next (map Wrapper.future ws)) here ok.fresh

      above : All (λ v. w.future < v.future) pre
      above = above_middle Wrapper.future s'.next w pre post fresh

      destroyed : remove w.future s'.futures ≡ some (map Wrapper.future (pre ++ post))
      destroyed = rw (ok.paired, here) (remove-map_middle Wrapper.future w pre post above)

      freed : remove_by Wrapper.future w.future s'.wrappers ≡ some (pre ++ post)
      freed = rw here (remove_middle Wrapper.future w pre post above)

  -- In a state with futures and wrappers paired, a callback to come that destroys the future it is
  -- handed makes the wrapper destroy it a second time, which is a fault.
  pub future_callback_double_destroy :
      (w : Wrapper C) (pre post : List (Wrapper C)) (s : Library C A)
      → IsAligned s
      → s.wrappers ≡ pre ++ w ∷ post
      → future_callback (λ _. future_destroy w.future) w s ≡ none
  unfolding future_callback
  future_callback_double_destroy w pre post s ok here = rw (destroyed, gone) refl
    where
      fresh : Below s.next (map Wrapper.future (pre ++ w ∷ post))
      fresh = subst (λ ws. Below s.next (map Wrapper.future ws)) here ok.fresh

      destroyed : remove w.future s.futures ≡ some (map Wrapper.future (pre ++ post))
      destroyed =
          rw (ok.paired, here)
            (remove-map_middle Wrapper.future w pre post
              (above_middle Wrapper.future s.next w pre post fresh))

      gone : remove w.future (map Wrapper.future (pre ++ post)) ≡ none
      gone = remove_absent Wrapper.future s.next w pre post fresh

module _ {C A : Type 0} where
  -- What the wrapper around a callback leaves alone.
  pub future_callback-keeps :
      (run : C → Library C A → Option (Library C A)) (w : Wrapper C) (s mid s' : Library C A)
      → run w.cb s ≡ some mid
      → future_callback run w s ≡ some s'
      → (s'.calls ≡ mid.calls) × (s'.app ≡ mid.app)
  unfolding future_callback future_destroy free_wrapper
  future_callback-keeps run w s mid s' ran fired =
      future_gone (remove w.future mid.futures) (rw ran at fired)
    where
      wrapper_gone :
          (futures : List ℕ) (wrappers : Option (List (Wrapper C)))
          → (do wrappers ← wrappers; some (record mid { futures = futures; wrappers = wrappers }))
            ≡ some s'
          → (s'.calls ≡ mid.calls) × (s'.app ≡ mid.app)
      wrapper_gone futures none e = absurd (ground arith)
      wrapper_gone futures (some wrappers) e =
          let same = some-injective _ _ e in
          (ap (λ (x : Library C A). x.calls) (sym same), ap (λ (x : Library C A). x.app) (sym same))

      future_gone :
          (futures : Option (List ℕ))
          → (do
            s ← (do futures ← futures; some (record mid { futures = futures }))
            free_wrapper w.future s)
            ≡ some s'
          → (s'.calls ≡ mid.calls) × (s'.app ≡ mid.app)
      future_gone none e = absurd (ground arith)
      future_gone (some futures) e =
          wrapper_gone futures (remove_by Wrapper.future w.future mid.wrappers) e

  -- A callback that returned has had its function return.
  pub future_callback_inverse :
      (run : C → Library C A → Option (Library C A)) (w : Wrapper C) (s s' : Library C A)
      → future_callback run w s ≡ some s'
      → (mid : Library C A) × (run w.cb s ≡ some mid) × (s'.calls ≡ mid.calls) × (s'.app ≡ mid.app)
  unfolding future_callback
  future_callback_inverse run w s s' fired = returned (run w.cb s) refl
    where
      returned :
          (result : Option (Library C A))
          → run w.cb s ≡ result
          → (mid : Library C A) × (run w.cb s ≡ some mid)
            × (s'.calls ≡ mid.calls)
            × (s'.app ≡ mid.app)
      returned none e = absurd (ground (arith, rw e at fired))
      returned (some mid) e =
          let (calls, app) = future_callback-keeps run w s mid s' e fired in (mid, e, calls, app)
