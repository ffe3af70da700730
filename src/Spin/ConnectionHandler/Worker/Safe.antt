-- ===== src/Spin/ConnectionHandler/Worker/Safe.antt =====
-- No call of `detach` returns while the worker has a call-back of its entry to call.
use mathlib.Core.Path.{subst}
use arachnida.Base.{
  ℕ, Bool, true, false, ◌||◌, List, [], ◌∷◌, none, some, All, ◌==◌, ◌≡◌, ◌≢◌, refl, ap, ◌∙◌, arith,
  Bool-cases, inl, inr, ◌⊎◌,
}
use arachnida.Spin.ConnectionHandler.{
  detached, Callback, Callbacks, attach, mark, erase, scan, state_of, read_fds, Handler, Step,
}
use arachnida.Spin.ConnectionHandler.Nodes.{IsSound, Step-IsSound}
use arachnida.Spin.ConnectionHandler.Worker.{
  has, Call, to_call, Phase, idle, selecting, calling, removing, World, runs_callbacks, Move,
  attaches, detach_begins, detach_returns, worker_detaches, scans, selects, select_fails,
  call_returns, calls_end, removes, removal_ends, Happens, starts, then_move,
}
use arachnida.Spin.ConnectionHandler as H
use arachnida.Spin.ConnectionHandler.Worker.Distinct.{
  Distinct, attach-Distinct, mark-Distinct, scan-Distinct, erase-Distinct,
}
use arachnida.Spin.ConnectionHandler.Worker.Live.{
  is_live, Keeps, read_fds-Selects, scan-Keeps, attach-Keeps, mark-Keeps, erase-Keeps,
  attach-is_live, mark-is_live, erase-is_live, to_call-AreLive, AreLive,
}

-- The entry of a call is live, or the worker has detached it itself.
abbrev pub is_covered : Callbacks → List ℕ → Call → Bool
is_covered cs dropped k = has k.node dropped || is_live (state_of k.node cs)

abbrev AreCovered : Callbacks → List ℕ → List Call → Type 0
AreCovered cs dropped = All (λ k. is_covered cs dropped k ≡ true)

abbrev Holds : Callbacks → List ℕ → Phase → Type 0
Holds cs dropped idle = Unit {0}
Holds cs dropped (selecting fds) = Keeps fds cs
Holds cs dropped (calling calls failed) = AreCovered cs dropped calls
Holds cs dropped (removing fds) = Unit {0}

AreCovered-imp :
    (cs ds : Callbacks) (dropped more : List ℕ) (ks : List Call)
    → ((k : Call) → is_covered cs dropped k ≡ true → is_covered ds more k ≡ true)
    → AreCovered cs dropped ks
    → AreCovered ds more ks
AreCovered-imp cs ds dropped more [] f h = tt
AreCovered-imp cs ds dropped more (k ∷ ks) f (p, h) =
    (f k p, AreCovered-imp cs ds dropped more ks f h)

-- What a change of the list keeps.
Holds-imp :
    (cs ds : Callbacks) (dropped : List ℕ) (p : Phase)
    → ((fds : List ℕ) → Keeps fds cs → Keeps fds ds)
    → ((k : Call) → is_live (state_of k.node cs) ≡ true → is_live (state_of k.node ds) ≡ true)
    → Holds cs dropped p
    → Holds ds dropped p
Holds-imp cs ds dropped idle keeps lives h = tt
Holds-imp cs ds dropped (selecting fds) keeps lives h = keeps fds h
Holds-imp cs ds dropped (calling calls failed) keeps lives h =
    AreCovered-imp cs ds dropped dropped calls
      (λ k e. elim (Bool-cases (has k.node dropped)) [
        | inl y ↦ rw y refl
        | inr y ↦ rw y (lives k (ground arith))
      ])
      h
Holds-imp cs ds dropped (removing fds) keeps lives h = tt

-- Behind a call of `detach` from a call-back of the worker.
Holds-dropped :
    (cs : Callbacks) (dropped : List ℕ) (p : Phase) (fd node : ℕ)
    → runs_callbacks p ≡ true
    → Holds cs dropped p
    → Holds (erase node (mark fd cs)) (node ∷ dropped) p
Holds-dropped cs dropped idle fd node r h = tt
Holds-dropped cs dropped (selecting fds) fd node r h = cc
Holds-dropped cs dropped (calling calls failed) fd node r h =
    AreCovered-imp cs (erase node (mark fd cs)) dropped (node ∷ dropped) calls
      (λ k e. elim (Bool-cases (node == k.node)) [
        | inl same ↦ ground arith
        | inr other ↦ elim (Bool-cases (has k.node dropped)) [
          | inl y ↦ ground arith
          | inr n ↦
              let ne : k.node ≢ node = grind arith in
              let live : is_live (state_of k.node cs) ≡ true = ground arith in
              let kept =
                erase-is_live (mark fd cs) k.node node ne (mark-is_live cs k.node fd live) in
              rw (other, n) kept
        ]
      ])
      h
Holds-dropped cs dropped (removing fds) fd node r h = tt

AreLive-AreCovered :
    (cs : Callbacks) (dropped : List ℕ) (ks : List Call) → AreLive cs ks → AreCovered cs dropped ks
AreLive-AreCovered cs dropped [] h = tt
AreLive-AreCovered cs dropped (k ∷ ks) (l, h) = (ground arith, AreLive-AreCovered cs dropped ks h)

abbrev IsSafe : World → Type 0
IsSafe w =
    IsSound w.handler × Distinct w.handler.callbacks × Holds w.handler.callbacks w.dropped w.phase

mark-Holds :
    (w : World) (fd : ℕ)
    → Holds w.handler.callbacks w.dropped w.phase
    → Holds (mark fd w.handler.callbacks) w.dropped w.phase
mark-Holds w fd h =
    Holds-imp w.handler.callbacks (mark fd w.handler.callbacks) w.dropped w.phase
      (λ fds k. mark-Keeps w.handler.callbacks fds fd k)
      (λ k e. mark-is_live w.handler.callbacks k.node fd e) h

live-other :
    (w : World) (node : ℕ) (k : Call)
    → state_of node w.handler.callbacks ≡ some detached
    → is_live (state_of k.node w.handler.callbacks) ≡ true
    → k.node ≢ node
live-other w node k s l same =
    let off : is_live (state_of k.node w.handler.callbacks) ≡ false =
      ap (λ n. is_live (state_of n w.handler.callbacks)) same ∙ ap is_live s in
    cc

Move-IsSafe : {w v : World} → Move w v → IsSafe w → IsSafe v
Move-IsSafe {w} (attaches fd on_select on_error l) (o, d, h) =
    let step : Step w.handler _ = H.attaches fd on_select on_error in
    (
      Step-IsSound step o,
      attach-Distinct w.handler.callbacks w.handler.next_node fd on_select on_error l d,
      Holds-imp w.handler.callbacks _ w.dropped w.phase
          (λ fds k.
            attach-Keeps w.handler.callbacks fds w.handler.next_node fd on_select on_error k)
          (λ k e.
            attach-is_live w.handler.callbacks k.node w.handler.next_node fd on_select on_error e)
          h,
    )
Move-IsSafe {w} (detach_begins fd c e) (o, d, h) =
    let step : Step w.handler _ = H.removes fd in
    (Step-IsSound step o, mark-Distinct w.handler.callbacks fd d, mark-Holds w fd h)
Move-IsSafe {w} (detach_returns node before after e s) (o, d, h) =
    let step : Step w.handler _ = H.detach_returns node before after e s in
    (
      Step-IsSound step o,
      erase-Distinct w.handler.callbacks node d,
      Holds-imp w.handler.callbacks _ w.dropped w.phase
          (λ fds k. erase-Keeps w.handler.callbacks fds node k)
          (λ k l. erase-is_live w.handler.callbacks k.node node (live-other w node k s l) l) h,
    )
Move-IsSafe {w} (worker_detaches fd c r e) (o, d, h) =
    let step : Step w.handler _ = H.worker_detaches fd c e in
    (
      Step-IsSound step o,
      erase-Distinct (mark fd w.handler.callbacks) c.node (mark-Distinct w.handler.callbacks fd d),
      Holds-dropped w.handler.callbacks w.dropped w.phase fd c.node r h,
    )
Move-IsSafe {w} (scans e) (o, d, h) =
    let step : Step w.handler _ = H.scans in
    (
      Step-IsSound step o,
      scan-Distinct w.handler.callbacks d,
      scan-Keeps w.handler.callbacks (read_fds w.handler.callbacks)
          (read_fds-Selects w.handler.callbacks d),
    )
Move-IsSafe {w} (selects fds is_set e given) (o, d, h) =
    let keeps : Keeps fds w.handler.callbacks = subst (Holds w.handler.callbacks w.dropped) e h in
    (
      o,
      d,
      AreLive-AreCovered w.handler.callbacks w.dropped (to_call is_set w.handler.callbacks)
          (to_call-AreLive w.handler.callbacks fds is_set 0 w.handler.next_node o given keeps),
    )
Move-IsSafe {w} (select_fails fds test_fd e) (o, d, h) = (o, d, tt)
Move-IsSafe {w} (call_returns k calls failed throws e) (o, d, h) =
    let covered : AreCovered w.handler.callbacks w.dropped (k ∷ calls) =
      subst (Holds w.handler.callbacks w.dropped) e h in
    (o, d, covered.1)
Move-IsSafe {w} (calls_end failed e) (o, d, h) = (o, d, tt)
Move-IsSafe {w} (removes fd fds e) (o, d, h) =
    let step : Step w.handler _ = H.removes fd in
    (Step-IsSound step o, mark-Distinct w.handler.callbacks fd d, tt)
Move-IsSafe {w} (removal_ends e) (o, d, h) = (o, d, tt)

Happens-IsSafe : {w : World} → Happens w → IsSafe w
Happens-IsSafe starts = (omega arith, tt, tt)
Happens-IsSafe (then_move run move) = Move-IsSafe move (Happens-IsSafe run)

-- The entry is in the list and no call of `detach` can return that waits for it, or the worker has
-- detached it itself.
abbrev pub IsHeld : World → Call → Type 0
IsHeld w k =
    (has k.node w.dropped ≡ true)
    ⊎ ((state_of k.node w.handler.callbacks ≢ none)
        × (state_of k.node w.handler.callbacks ≢ some detached))

covered-IsHeld :
    (w : World) (k : Call) → is_covered w.handler.callbacks w.dropped k ≡ true → IsHeld w k
covered-IsHeld w k e = elim (Bool-cases (has k.node w.dropped)) [
  | inl y ↦ inl y
  | inr n ↦
      let live : is_live (state_of k.node w.handler.callbacks) ≡ true = ground arith in
      inr (
        (λ gone.
            let dead : is_live (state_of k.node w.handler.callbacks) ≡ false = ap is_live gone in
            cc),
        (λ off.
            let dead : is_live (state_of k.node w.handler.callbacks) ≡ false = ap is_live off in
            cc),
      )
]

calls-covered :
    (w : World) (ks : List Call) → AreCovered w.handler.callbacks w.dropped ks → All (IsHeld w) ks
calls-covered w [] h = tt
calls-covered w (k ∷ ks) (e, h) = (covered-IsHeld w k e, calls-covered w ks h)

-- In every run of the worker and the other threads in which a descriptor is attached only while no
-- entry has it: when the worker is calling call-backs, the entry of the one that runs and of each one
-- that is still to be called is in the list, and no call of `detach` from another thread that waits
-- for it can return, unless a call-back of the worker has detached the entry itself.
pub calls-IsHeld :
    {w : World}
    → Happens w
    → (calls : List Call) (failed : List ℕ) → w.phase ≡ calling calls failed
    → All (IsHeld w) calls
calls-IsHeld {w} run calls failed e =
    let (o, d, h) = Happens-IsSafe run in
    calls-covered w calls (subst (Holds w.handler.callbacks w.dropped) e h)
