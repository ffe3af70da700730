-- ===== src/Spin/Tests/Handlers.antt =====
-- Runs of the handlers and the theorems about them at such inputs.
use arachnida.Base.{ℕ, true, List, [], ◌∷◌, ◌++◌, none, some, codes, ◌≡◌, refl, arith}
use arachnida.Spin.Message.{Request, make_request}
use arachnida.Spin.RequestHandler.{handle, get_next_request, Run, done, handle_then, take_then}
use arachnida.Spin.RequestHandler.Order.{Run-fifo}
use arachnida.Spin.ConnectionHandler.{
  AttachmentState, attached, detached, Callback, attach, find_callback, mark, state_of, erase, scan,
  read_fds, is_selected, attaches, scans, Reachable, starts, then_step,
}
use arachnida.Spin.ConnectionHandler.Nodes.{IsOrdered, IsSound, Reachable-IsSound}
use arachnida.Spin.ConnectionHandler.Detaching.{Lacks, detach_lem, detach_leaves}

abbrev first : Request
first = make_request 1 (codes "GET") (codes "/a") (codes "HTTP/1.1")

abbrev second : Request
second = make_request 1 (codes "GET") (codes "/b") (codes "HTTP/1.1")

two_handled : Run (first ∷ []) (second ∷ []) (first ∷ []) (second ∷ [])
unfolding handle get_next_request
two_handled = handle_then second (take_then first refl (done (second ∷ [])))

Run-fifo_example : first ∷ second ∷ [] ≡ first ∷ second ∷ []
Run-fifo_example = Run-fifo two_handled

-- Descriptor 5 is attached, then 6, and the worker looks at them.
reached : Reachable (record {
  callbacks = scan (attach 1 6 61 none (attach 0 5 51 (some 50) []));
  next_node = 2;
  waiting = [];
})
reached =
    then_step (then_step (then_step starts (attaches 5 51 (some 50))) (attaches 6 61 none)) scans

Reachable-IsSound_run : IsSound (record {
  callbacks = scan (attach 1 6 61 none (attach 0 5 51 (some 50) []));
  next_node = 2;
  waiting = [];
})
Reachable-IsSound_run = Reachable-IsSound reached

abbrev entry : ℕ → ℕ → AttachmentState → Callback
entry node fd s = record {
  node = node;
  file_descriptor = fd;
  on_select_callback = 51;
  on_error_callback = none;
  state = s;
}

six_first : Lacks 5 (entry 0 6 attached ∷ [])
six_first = ((λ h. omega arith), tt)

three-IsOrdered : IsOrdered 0 (entry 0 6 attached ∷ entry 1 5 detached ∷ entry 2 5 attached ∷ []) 3
three-IsOrdered = (omega arith, (omega arith, (omega arith, omega arith)))

detach_lem_example :
    (find_callback 5 (entry 0 6 attached ∷ entry 1 5 detached ∷ entry 2 5 attached ∷ [])
      ≡ some (entry 1 5 detached))
    × (state_of 1
          (scan (mark 5 (entry 0 6 attached ∷ entry 1 5 detached ∷ entry 2 5 attached ∷ [])))
        ≡ some detached)
    × (erase 1 (scan (mark 5 (entry 0 6 attached ∷ entry 1 5 detached ∷ entry 2 5 attached ∷ [])))
        ≡ scan (entry 0 6 attached ∷ []) ++ scan (entry 2 5 attached ∷ []))
detach_lem_example =
    detach_lem 5 (entry 0 6 attached ∷ []) (entry 1 5 detached) (entry 2 5 attached ∷ []) 3
      three-IsOrdered six_first refl

live_selected : is_selected attached ≡ true
unfolding is_selected
live_selected = refl

detach_leaves_run :
    (earlier later : List ℕ) × (read_fds (
        erase 1 (scan (mark 5 (entry 0 6 attached ∷ entry 1 5 detached ∷ entry 2 5 attached ∷ []))))
      ≡ earlier ++ 5 ∷ later)
detach_leaves_run =
    detach_leaves (entry 0 6 attached ∷ []) (entry 1 5 detached) [] (entry 2 5 attached) [] 3
      three-IsOrdered six_first refl live_selected
