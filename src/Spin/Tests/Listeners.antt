-- ===== src/Spin/Tests/Listeners.antt =====
-- Addresses, listeners, accepted connections and descriptors that are detached twice, and requests that stall: runs and the
-- theorems at such inputs.
use arachnida.Base.{List, true, ℕ, ◌+◌, [], ◌∷◌, none, some, codes, ◌≡◌, ◌≢◌, refl, ok, arith}
use arachnida.Base.Check.{all_hold, all_hold_sound}
use arachnida.Acari.ParsingHelpers.{is_ignorable_white_space, is_word, is_supported_protocol}
use arachnida.Acari.ParsingHelpers.RequestLine.{IsWord}
use arachnida.Spin.Address.{Address, connect_target, connect_ssl_target, construct_local_address}
use arachnida.Spin.Address.Texts.{construct_local_address-injective, connect_ssl_target-differs}
use arachnida.Spin.ConnectionHandler.{
  attached, Callback, find_callback, mark, state_of, erase, scan, Handler, attaches,
}
use arachnida.Spin.ConnectionHandler.Nodes.{IsSound}
use arachnida.Spin.ConnectionHandler.Twice.{
  Steps, stays, and_then, detached_once, detach_detach-IsGone,
}
use arachnida.Spin.DataHandler.{is_supported_method, on_data_ready}
use arachnida.Spin.DataHandler.Fields.{crlf}
use arachnida.Spin.DataHandler.Stalled.{request_line, waiting, on_data_ready_stalls}
use arachnida.Spin.HttpConnections.{validate_any}
use arachnida.Spin.HttpConnections.Kept.{Event, opened, failed, run, entries, run-counts}
use arachnida.Spin.Connection.{make_connection}
use arachnida.Spin.Listener.{clear_new_connection_handler}
use arachnida.Spin.Listener.Registrations.{registrations, set_times, listening, clear-set_times}
use arachnida.Spin.Message.{make_request}
use arachnida.Spin.Tests.Decimal.{read_decimal, print_from, print_decimal, print_decimal-IsDecimal}

abbrev localhost : Address
localhost = record { u8_0 = 127; u8_1 = 0; u8_2 = 0; u8_3 = 1 }

abbrev any_address : Address
any_address = record { u8_0 = 0; u8_1 = 0; u8_2 = 0; u8_3 = 0 }

local_text : construct_local_address print_decimal localhost 8080 ≡ codes "127.0.0.1:8080"
unfolding construct_local_address print_from
local_text = refl

any_text : construct_local_address print_decimal any_address 0 ≡ codes "*:*"
unfolding construct_local_address
any_text = refl

ssl_text :
    connect_ssl_target print_decimal localhost 80
    ≡ 127 ∷ b'.' ∷ 0 ∷ b'.' ∷ 0 ∷ b'.' ∷ 1 ∷ codes ":80"
unfolding connect_ssl_target print_from
ssl_text = refl

abbrev web : ℕ
web = 8080

construct_local_address-injective_example : (localhost ≡ localhost) × (web ≡ 8000 + 80)
construct_local_address-injective_example =
    construct_local_address-injective print_decimal print_decimal-IsDecimal localhost localhost web
      (8000 + 80) refl

connect_ssl_target-differs_run :
    connect_ssl_target print_decimal localhost 80 ≢ connect_target print_decimal localhost 80
connect_ssl_target-differs_run =
    connect_ssl_target-differs print_decimal print_decimal-IsDecimal localhost 80

abbrev one : Callback
one = record {
  node = 0;
  file_descriptor = 5;
  on_select_callback = 51;
  on_error_callback = none;
  state = attached;
}

abbrev one_attached : Handler
one_attached = record { callbacks = one ∷ []; next_node = 1; waiting = [] }

one-IsSound : IsSound one_attached
one-IsSound = (omega arith, omega arith)

one_found : find_callback 5 one_attached.callbacks ≡ some one
unfolding find_callback
one_found = refl

-- The descriptor is attached again after the first call of `detach` has returned.
attached_again : Steps (detached_once 5 0 one_attached) (record {
  callbacks =
      arachnida.Spin.ConnectionHandler.attach 1 5 52 none
        (erase 0 (scan (mark 5 (mark 5 (one ∷ [])))));
  next_node = 2;
  waiting = 0 ∷ [];
})
attached_again = and_then stays (attaches 5 52 none)

detach_detach-IsGone_example :
    Steps one_attached (detached_once 5 0 one_attached)
    × ((detached_once 5 0 one_attached).waiting ≡ 0 ∷ [])
    × (state_of 0 (
          arachnida.Spin.ConnectionHandler.attach 1 5 52 none
            (erase 0 (scan (mark 5 (mark 5 (one ∷ []))))))
        ≡ none)
detach_detach-IsGone_example =
    detach_detach-IsGone one_attached
      (record {
        callbacks =
            arachnida.Spin.ConnectionHandler.attach 1 5 52 none
              (erase 0 (scan (mark 5 (mark 5 (one ∷ [])))));
        next_node = 2;
        waiting = 0 ∷ [];
      })
      5 one one-IsSound one_found attached_again

-- Set twice and cleared.
clear-set_times_run :
    let (l2, h2) = set_times 2 60 7 (listening 6 none) one_attached in
    let cleared = clear_new_connection_handler l2 h2 in
    (cleared.listener ≡ listening 6 none)
    × (registrations 6 cleared.handler.callbacks ≡ 1 + registrations 6 (one ∷ []))
    × (clear_new_connection_handler cleared.listener cleared.handler
        ≡ record { listener = listening 6 none; handler = cleared.handler; result = ok tt })
clear-set_times_run = clear-set_times 1 60 7 6 none one_attached one-IsSound

url_a : IsWord (codes "/a")
unfolding is_ignorable_white_space all_hold
url_a = record { ne_nil = λ h. cc; words = all_hold_sound is_word (codes "/a") refl }

get_supported :
    (is_supported_method (codes "GET") ≡ true) × (is_supported_protocol (codes "HTTP/1.0") ≡ true)
unfolding is_supported_method is_supported_protocol
get_supported = (refl, refl)

on_data_ready_stalls_example :
    let r = make_request 7 (codes "GET") (codes "/a") (codes "HTTP/1.0") in
    (on_data_ready read_decimal 7 none (request_line (codes "GET") (codes "/a") (codes "HTTP/1.0"))
      ≡ record { attribute = some (waiting read_decimal 7 r); handled = []; thrown = none })
    × (on_data_ready read_decimal 7 (some (waiting read_decimal 7 r)) crlf
        ≡ record { attribute = some (waiting read_decimal 7 r); handled = []; thrown = none })
on_data_ready_stalls_example =
    on_data_ready_stalls read_decimal 7 (codes "GET") (codes "/a") (codes "HTTP/1.0")
      get_supported.0 url_a get_supported.1

-- Two connections are served, one fails twice, and the third has no descriptor.
abbrev events : List Event
events =
    opened 1 (make_connection (some 5)) localhost
    ∷ opened 2 (make_connection (some 6)) localhost
    ∷ failed 1
    ∷ failed 1
    ∷ opened 3 (make_connection none) localhost
    ∷ []

kept_run : run validate_any 9 events [] ≡ 2 ∷ []
unfolding arachnida.Spin.HttpConnections.handle_new_connection
    arachnida.Spin.HttpConnections.on_connection_error
kept_run = refl

run-counts_example : entries 1 (run validate_any 9 events []) ≡ 0
run-counts_example = run-counts validate_any 9 1 events []
