-- ===== src/Spin/Tests/Workers.antt =====
-- Runs of the connection handler's worker at concrete inputs.
use arachnida.Base.{[], ◌∷◌, none, some, All, ◌==◌, ◌≡◌, refl, arith}
use arachnida.Spin.ConnectionHandler.{
  Callback, Callbacks, pending_detachment, attached, detached, scan, read_fds, state_of,
}
use arachnida.Spin.ConnectionHandler.Worker.{
  Call, to_call, calling, World, starting, Move, attaches, scans, selects, Happens, starts,
  then_move, selecting, after_attach, on_error_of,
}
use arachnida.Spin.ConnectionHandler.Worker.Safe.{IsHeld, calls-IsHeld}

abbrev entry : Callback
entry = record {
  node = 0;
  file_descriptor = 5;
  on_select_callback = 50;
  on_error_callback = some 51;
  state = attached;
}

abbrev called : Call
called = record { node = 0; file_descriptor = 5; on_select_callback = 50 }

abbrev with_one : World
with_one = after_attach starting 5 50 (some 51)

abbrev in_select : World
in_select = record {
  handler = record { callbacks = entry ∷ []; next_node = 1; waiting = [] };
  phase = selecting (5 ∷ []);
  dropped = [];
}

abbrev in_call : World
in_call = record {
  handler = record { callbacks = entry ∷ []; next_node = 1; waiting = [] };
  phase = calling (called ∷ []) [];
  dropped = [];
}

scans_one : Move with_one in_select
unfolding arachnida.Spin.ConnectionHandler.attach scan read_fds
scans_one = scans refl

selects_one : Move in_select in_call
unfolding to_call
selects_one = selects (5 ∷ []) (λ fd. fd == 5) refl (λ fd e. ground arith)

runs_one : Happens in_call
runs_one =
    then_move (then_move (then_move starts (attaches 5 50 (some 51) refl)) scans_one) selects_one

calls-IsHeld_example : All (IsHeld in_call) (called ∷ [])
calls-IsHeld_example = calls-IsHeld runs_one (called ∷ []) [] refl

on_error_run : on_error_of 5 (entry ∷ []) ≡ some 51
unfolding on_error_of
on_error_run = refl

-- Two entries of one descriptor, the first about to be detached: it is detached by the worker's look at
-- the list, which selects the descriptor for the second, and is called all the same.
abbrev two : Callbacks
two =
    record {
      node = 0;
      file_descriptor = 5;
      on_select_callback = 50;
      on_error_callback = none;
      state = pending_detachment;
    }
    ∷ record {
      node = 1;
      file_descriptor = 5;
      on_select_callback = 60;
      on_error_callback = none;
      state = attached;
    }
    ∷ []

two_run :
    (read_fds two ≡ 5 ∷ [])
    × (state_of 0 (scan two) ≡ some detached)
    × (to_call (λ fd. fd == 5) (scan two)
        ≡ record { node = 0; file_descriptor = 5; on_select_callback = 50 }
          ∷ record { node = 1; file_descriptor = 5; on_select_callback = 60 }
          ∷ [])
unfolding scan read_fds state_of to_call
two_run = (refl, refl, refl)
