-- ===== src/Spin/RequestHandler.antt =====
-- lib/Spin/Handlers/HTTPRequestHandler.h and HTTPRequestHandler.cpp. Each method holds the lock
-- throughout, so that calls from different threads are a sequence of steps on the queue.
pub mod Order
use arachnida.Base.{List, [], ◌∷◌, ◌++◌, Option, none, some, ◌≡◌}
use arachnida.Spin.Message.{Request}

unfoldable pub handle : List Request → Request → List Request
handle requests request = requests ++ request ∷ []

-- The oldest request and the queue without it; `none` if the call waits.
unfoldable pub get_next_request : List Request → Option (Request × List Request)
get_next_request [] = none
get_next_request (request ∷ requests) = some (request, requests)

-- A run of calls by any threads, with the requests that were handled and those that were taken, in order.
pub data Run : List Request → List Request → List Request → List Request → Type 0 where
  done : (requests : List Request) → Run requests [] [] requests
  handle_then :
      {requests ins outs after : List Request} (request : Request)
      → Run (handle requests request) ins outs after
      → Run requests (request ∷ ins) outs after
  take_then :
      {requests rest ins outs after : List Request} (request : Request)
      → get_next_request requests ≡ some (request, rest)
      → Run rest ins outs after
      → Run requests ins (request ∷ outs) after
