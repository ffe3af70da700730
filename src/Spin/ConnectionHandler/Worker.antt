-- ===== src/Spin/ConnectionHandler/Worker.antt =====
-- `workerThreadFunc_` of lib/Spin/Private/ConnectionHandler.cpp, with the places where other threads
-- come in between: what is under `callbacks_lock_` is one step, and so is a call of `select`. The
-- worker's call-backs run between its steps.
pub mod Distinct
pub mod Live
pub mod Safe
use arachnida.Base.{
  ℕ, suc, Bool, true, false, not, ◌||◌, List, [], ◌∷◌, ◌++◌, Option, none, some, ◌==◌,
  if◌then◌else◌, ◌≡◌,
}
use arachnida.Spin.ConnectionHandler.{
  AttachmentState, pending_attachment, attached, pending_detachment, detached, Callback, Callbacks,
  attach, find_callback, mark, state_of, erase, scan, read_fds, callbacks_to_call, bad_fds, Handler,
  initial,
}

-- An element of `callbacks_to_call`, with the list node that it was made of.
pub record Call : Type 0 where
  pub node : ℕ
  pub file_descriptor : ℕ
  pub on_select_callback : ℕ

-- `callbacks_to_call`, with the nodes.
unfoldable pub to_call : (ℕ → Bool) → Callbacks → List Call
to_call is_set [] = []
to_call is_set (c ∷ cs) =
    let calls = to_call is_set cs in
    if is_set c.file_descriptor
    then record {
      node = c.node;
      file_descriptor = c.file_descriptor;
      on_select_callback = c.on_select_callback;
    }
      ∷ calls
    else calls

-- The on-error call-back that one round of the loop over the descriptors to remove calls, if any.
unfoldable pub on_error_of : ℕ → Callbacks → Option ℕ
unfolding find_callback
on_error_of fd callbacks = elim (find_callback fd callbacks) [
  | none ↦ none
  | some c ↦ c.on_error_callback
]

abbrev pub has : ℕ → List ℕ → Bool
has n [] = false
has n (m ∷ ms) = m == n || has n ms

abbrev pub has_fd : ℕ → Callbacks → Bool
has_fd fd [] = false
has_fd fd (c ∷ cs) = c.file_descriptor == fd || has_fd fd cs

-- Where the worker is: about to look at the list, in `select` with these descriptors, behind it with
-- these calls to make (the first one is running) and the descriptors whose calls have thrown, or taking
-- descriptors out.
pub data Phase : Type 0 where
  idle : Phase
  selecting : List ℕ → Phase
  calling : List Call → List ℕ → Phase
  removing : List ℕ → Phase

-- `dropped` has the nodes that the worker's own call-backs have detached.
pub record World : Type 0 where
  pub handler : Handler
  pub phase : Phase
  pub dropped : List ℕ

abbrev pub starting : World
starting = record { handler = initial; phase = idle; dropped = [] }

abbrev pub runs_callbacks : Phase → Bool
runs_callbacks idle = false
runs_callbacks (selecting fds) = false
runs_callbacks (calling calls failed) = true
runs_callbacks (removing fds) = true

abbrev pub with_callbacks : World → Callbacks → World
with_callbacks w cs = record w { handler = record w.handler { callbacks = cs } }

abbrev pub after_attach : World → ℕ → ℕ → Option ℕ → World
after_attach w fd on_select on_error = record w {
  handler = record w.handler {
    callbacks = attach w.handler.next_node fd on_select on_error w.handler.callbacks;
    next_node = suc w.handler.next_node;
  };
}

-- A step of the worker or of another thread. A descriptor is attached only when no entry has it, as
-- long as its owner detaches it before it is closed. `select` answers with descriptors that it was
-- given, or fails.
pub data Move (w : World) : World → Type 0 where
  attaches :
      (fd on_select : ℕ) (on_error : Option ℕ)
      → has_fd fd w.handler.callbacks ≡ false
      → Move w (after_attach w fd on_select on_error)
  detach_begins :
      (fd : ℕ) (c : Callback)
      → find_callback fd w.handler.callbacks ≡ some c
      → Move w (record w {
        handler = record w.handler {
          callbacks = mark fd w.handler.callbacks;
          waiting = c.node ∷ w.handler.waiting;
        };
      })
  detach_returns :
      (node : ℕ) (before after : List ℕ)
      → w.handler.waiting ≡ before ++ node ∷ after
      → state_of node w.handler.callbacks ≡ some detached
      → Move w (record w {
        handler = record w.handler {
          callbacks = erase node w.handler.callbacks;
          waiting = before ++ after;
        };
      })
  worker_detaches :
      (fd : ℕ) (c : Callback)
      → runs_callbacks w.phase ≡ true
      → find_callback fd w.handler.callbacks ≡ some c
      → Move w (record (with_callbacks w (erase c.node (mark fd w.handler.callbacks))) {
        dropped = c.node ∷ w.dropped;
      })
  scans :
      w.phase ≡ idle
      → Move w (record (with_callbacks w (scan w.handler.callbacks)) {
        phase = selecting (read_fds w.handler.callbacks);
      })
  selects :
      (fds : List ℕ) (is_set : ℕ → Bool)
      → w.phase ≡ selecting fds
      → ((fd : ℕ) → is_set fd ≡ true → has fd fds ≡ true)
      → Move w (record w { phase = calling (to_call is_set w.handler.callbacks) [] })
  select_fails :
      (fds : List ℕ) (test_fd : ℕ → Bool)
      → w.phase ≡ selecting fds
      → Move w (record w { phase = removing (bad_fds test_fd w.handler.callbacks) })
  call_returns :
      (k : Call) (calls : List Call) (failed : List ℕ) (throws : Bool)
      → w.phase ≡ calling (k ∷ calls) failed
      → Move w (record w {
        phase = calling calls (if throws then failed ++ (k.file_descriptor ∷ []) else failed);
      })
  calls_end :
      (failed : List ℕ)
      → w.phase ≡ calling [] failed
      → Move w (record w { phase = removing failed })
  removes :
      (fd : ℕ) (fds : List ℕ)
      → w.phase ≡ removing (fd ∷ fds)
      → Move w (record (with_callbacks w (mark fd w.handler.callbacks)) { phase = removing fds })
  removal_ends : w.phase ≡ removing [] → Move w (record w { phase = idle })

pub data Happens : World → Type 0 where
  starts : Happens starting
  then_move : {w v : World} → Happens w → Move w v → Happens v
