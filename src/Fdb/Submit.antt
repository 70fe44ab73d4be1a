-- ===== src/Fdb/Submit.antt =====
-- What each submission to the library leaves allocated, on every answer.
use gyreplane.Prelude.{
  ℕ, ◌+◌, ◌≡◌, refl, ap, Bool, true, false, ◌&&◌, Option, some, List, [], ◌∷◌, ◌++◌, map, arith,
  ◌==◌, if◌then◌else◌, Bool-cases, inl, inr, ◌↔◌, ◌≢◌,
}
use gyreplane.Prelude.Int.{ℤ, pos, negsuc}
use gyreplane.Fdb.{
  Call, Wrapper, Answer, Library, request, async_get, async_get_range, async_commit, handle_error,
  get, range_read, first_greater_or_equal, want_whole, commit, on_error,
}
use gyreplane.Fdb.Handles.{Below, Below-weaken, remove}

-- Whether a submission is accepted: the library has a future, there is memory for the wrapper and
-- the callback is set.
abbrev pub accepted : Answer → Bool
accepted ans = ans.future && ans.malloc && ans.set_callback == 0

-- What the adapter returns.
abbrev pub code : Answer → ℤ → ℤ
code ans failed =
    if ans.future then (if ans.malloc then pos ans.set_callback else negsuc 0) else failed

code-accepted_iff :
    (ans : Answer) (failed : ℤ) → failed ≢ pos 0 → (code ans failed ≡ pos 0) ↔ (accepted ans ≡ true)
code-accepted_iff ans failed ne = ground arith

module _ {C A : Type 0} where
  -- Every future is held by one wrapper, which has its callback to come, and every wrapper holds one
  -- future; all were taken from the supply.
  pub record IsAligned (s : Library C A) : Type 0 where
    pub paired : s.futures ≡ map Wrapper.future s.wrappers
    pub fresh : Below s.next (map Wrapper.future s.wrappers)

  -- The state after a submission: the call is made, and an accepted one has one future and one
  -- wrapper more.
  abbrev pub submitted : Answer → Call → C → Library C A → Library C A
  submitted ans call cb s = record s {
    next = if ans.future then s.next + 1 else s.next;
    futures = if accepted ans then s.next ∷ s.futures else s.futures;
    wrappers =
        if accepted ans then record { cb = cb; future = s.next } ∷ s.wrappers else s.wrappers;
    calls = s.calls ++ call ∷ [];
  }

  pub request-submitted :
      (ans : Answer) (failed : ℤ) (call : Call) (cb : C) (s : Library C A)
      → request ans failed call cb s ≡ some (code ans failed, submitted ans call cb s)
  unfolding request remove
  request-submitted ans failed call cb s = ground arith

  kept-IsAligned :
      (ans : Answer) (call : Call) (cb : C) (s : Library C A)
      → accepted ans ≡ false
      → IsAligned s
      → IsAligned (submitted ans call cb s)
  kept-IsAligned ans call cb s refused ok =
      rw refused
        (record { paired = ok.paired; fresh = Below-weaken s.next _ _ (ground arith) ok.fresh })

  added-IsAligned :
      (ans : Answer) (call : Call) (cb : C) (s : Library C A)
      → accepted ans ≡ true
      → IsAligned s
      → IsAligned (submitted ans call cb s)
  added-IsAligned ans call cb s taken ok =
      rw taken
        (record { paired = ap (λ fs. s.next ∷ fs) ok.paired; fresh = (ground arith, ok.fresh) })

  pub submitted-IsAligned :
      (ans : Answer) (call : Call) (cb : C) (s : Library C A)
      → IsAligned s
      → IsAligned (submitted ans call cb s)
  submitted-IsAligned ans call cb s ok = elim (Bool-cases (accepted ans)) [
    | inl taken ↦ added-IsAligned ans call cb s taken ok
    | inr refused ↦ kept-IsAligned ans call cb s refused ok
  ]

  -- What a submission promises: it faults on no answer, its call is made, and it returns zero
  -- exactly if the callback will be made. Then one future and one wrapper more are allocated;
  -- otherwise what it allocated is given back.
  abbrev pub Submits : Answer → Call → C → Library C A → Option (ℤ × Library C A) → Type 0
  Submits ans call cb s result =
      (rc : ℤ) × (s' : Library C A) × (result ≡ some (rc, s'))
      × ((rc ≡ pos 0) ↔ (accepted ans ≡ true))
      × (s' ≡ submitted ans call cb s)
      × IsAligned s'

  request-Submits :
      (ans : Answer) (failed : ℤ) (call : Call) (cb : C) (s : Library C A)
      → failed ≢ pos 0
      → IsAligned s
      → Submits ans call cb s (request ans failed call cb s)
  request-Submits ans failed call cb s ne ok = (
    code ans failed,
    submitted ans call cb s,
    request-submitted ans failed call cb s,
    code-accepted_iff ans failed ne,
    refl,
    submitted-IsAligned ans call cb s ok,
  )

  -- Each of the four asynchronous operations, `fdb_handle_error` for an error code that is not
  -- zero, from a state where futures and wrappers are paired: it faults on no answer, makes its call,
  -- and returns zero exactly if its callback will be made. Then one future and one wrapper more are
  -- allocated; otherwise all that it allocated is given back. Futures and wrappers stay paired.
  pub async-Submits :
      (ans : Answer) (tr err : ℕ) (key begin end : List ℕ) (cb : C) (s : Library C A)
      → err ≢ 0
      → IsAligned s
      → Submits ans (get tr key) cb s (async_get ans tr key cb s)
        × Submits ans
            (range_read tr (first_greater_or_equal begin) (first_greater_or_equal end) want_whole)
            cb
            s
            (async_get_range ans tr begin end cb s)
        × Submits ans (commit tr) cb s (async_commit ans tr cb s)
        × Submits ans (on_error tr err) cb s (handle_error ans tr err cb s)
  unfolding async_get async_get_range async_commit handle_error
  async-Submits ans tr err key begin end cb s ne ok = (
    request-Submits ans (negsuc 0) (get tr key) cb s (ground arith) ok,
    request-Submits ans (negsuc 0)
        (range_read tr (first_greater_or_equal begin) (first_greater_or_equal end) want_whole) cb s
        (ground arith) ok,
    request-Submits ans (negsuc 0) (commit tr) cb s (ground arith) ok,
    request-Submits ans (pos err) (on_error tr err) cb s (ground arith) ok,
  )
