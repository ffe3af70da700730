-- ===== src/Spin/RequestHandler/Order.antt =====
-- The order in which requests leave the queue.
use arachnida.Base.{List, [], ◌∷◌, ◌++◌, append_assoc, append-nil, some, ◌≡◌, sym, ap, ◌∙◌}
use arachnida.Spin.Message.{Request}
use arachnida.Spin.RequestHandler.{handle, get_next_request, Run, done, handle_then, take_then}

next_first :
    (requests rest : List Request) (request : Request)
    → get_next_request requests ≡ some (request, rest)
    → requests ≡ request ∷ rest
unfolding get_next_request
next_first [] rest request e = absurd (cc)
next_first (r ∷ rs) rest request e = cc

handle_append :
    (requests : List Request) (request : Request) (ins : List Request)
    → requests ++ request ∷ ins ≡ handle requests request ++ ins
unfolding handle
handle_append requests request ins = sym (append_assoc requests (request ∷ []) ins)

-- Whatever calls the threads make in whatever order: the requests that were waiting, then those that
-- were handled, are those that were taken, then those that wait at the end. None is lost, doubled or
-- overtaken.
pub Run-fifo :
    {requests ins outs after : List Request}
    → Run requests ins outs after
    → requests ++ ins ≡ outs ++ after
Run-fifo (done requests) = append-nil requests
Run-fifo (handle_then {requests} {ins} request run) =
    handle_append requests request ins ∙ Run-fifo run
Run-fifo (take_then {requests} {rest} {ins} request e run) =
    ap (λ q. q ++ ins) (next_first requests rest request e) ∙ ap (◌∷◌ request) (Run-fifo run)
