-- ===== src/Spin/DataHandler/Cut.antt =====
-- onDataReady on requests that arrive in two pieces, cut within the first line.
use arachnida.Base.{
  ℕ, suc, ◌+◌, false, List, [], ◌∷◌, ◌++◌, Option, none, some, Bytes, length, length-append, All,
  ◌≡◌, refl, ap, ◌∙◌, arith, ok,
}
use arachnida.Acari.ParsingHelpers.{at_end, extract_request_header}
use arachnida.Acari.ParsingHelpers.CutLine.{first_line, extract_request_header-cut}
use arachnida.Spin.DataHandler.Words.{is_supported_method-IsWord, is_supported_protocol-IsWord}
use arachnida.Spin.Message.{Request, make_request}
use arachnida.Spin.DataHandler.{
  is_supported_method, Pending, parse_new, restore, get_request, read_headers_of, header_stage,
  read_request, rounds, leftover, finished, on_data_ready,
}
use arachnida.Spin.DataHandler.Wire.{
  IsWire, request_text-more, requests_text, on_data_ready-requests_text,
}

abbrev IsIncomplete : ℕ → Bytes → Type 0
IsIncomplete connection s =
    extract_request_header (make_request connection) is_supported_method s ≡ ok none

module _ (cast : Bytes → Option ℕ) (connection : ℕ) where
  rounds-read_request :
      (fuel : ℕ) (a1 a2 : Option Pending) (b1 b2 : Bytes) (handled : List Request)
      → read_request connection a1 b1 ≡ read_request connection a2 b2
      → rounds cast connection (suc fuel) a1 b1 handled
        ≡ rounds cast connection (suc fuel) a2 b2 handled
  unfolding rounds
  rounds-read_request fuel a1 a2 b1 b2 handled e = rw (e, rounds) refl

  -- What was left over and what arrives are read as if they had arrived together.
  on_data_ready-leftover :
      (a b : Bytes)
      → at_end (a ++ b) ≡ false
      → on_data_ready cast connection (some (leftover a)) b
        ≡ on_data_ready cast connection none (a ++ b)
  unfolding on_data_ready
  on_data_ready-leftover a b more =
      let same_length : length a + length b ≡ 0 + length (a ++ b) =
        omega (arith, length-append a b) in
      rounds-read_request (suc (length a + length b)) (some (leftover a)) none b (a ++ b) []
        (unfold read_request get_request restore in rw more)
      ∙ ap (λ n. rounds cast connection (suc (suc n)) none (a ++ b) []) same_length

  rounds_stores :
      (fuel : ℕ) (a : Bytes)
      → read_request connection none a
        ≡ ok (record { request = none; rest = a; end_of_headers_found = false })
      → rounds cast connection (suc fuel) none a []
        ≡ record { attribute = some (leftover a); handled = []; thrown = none }
  rounds_stores fuel a e = unfold rounds in ground arith

  on_data_ready_stores :
      (a : Bytes)
      → IsIncomplete connection a
      → on_data_ready cast connection none a
        ≡ record { attribute = some (leftover a); handled = []; thrown = none }
  unfolding on_data_ready
  on_data_ready_stores a h =
      rounds_stores (suc (0 + length a)) a
        (unfold read_request get_request parse_new header_stage read_headers_of in rw h)

  cut-IsIncomplete :
      (r : Request) (a c : Bytes)
      → IsWire cast connection r
      → a ++ c ≡ first_line r.method r.url r.protocol_and_version
      → IsIncomplete connection a
  cut-IsIncomplete r a c w =
      extract_request_header-cut (make_request connection) is_supported_method r.method r.url
        r.protocol_and_version a c (is_supported_method-IsWord r.method w.method) w.method w.url
        (is_supported_protocol-IsWord r.protocol_and_version w.protocol)

  -- Requests that arrive in two pieces, `a` and `b`, cut anywhere in the first line of the first one, at
  -- its begin or at its end: the first call handles nothing and leaves the piece in the connection's
  -- attribute, and the second call handles all requests, in order, each as it was sent. The requests are
  -- as they may stand on the wire (`IsWire`), and the first line is the method, the URL and the protocol
  -- with one space between them.
  pub on_data_ready_cut :
      (r : Request) (rs : List Request) (a b c : Bytes)
      → IsWire cast connection r
      → All (IsWire cast connection) rs
      → a ++ b ≡ requests_text cast connection (r ∷ rs)
      → a ++ c ≡ first_line r.method r.url r.protocol_and_version
      → (on_data_ready cast connection none a
          ≡ record { attribute = some (leftover a); handled = []; thrown = none })
        × (on_data_ready cast connection (some (leftover a)) b ≡ finished (r ∷ rs))
  on_data_ready_cut r rs a b c w ws e cut = (
    on_data_ready_stores a (cut-IsIncomplete r a c w cut),
    on_data_ready-leftover a b
          (ap at_end e ∙ request_text-more cast connection r (requests_text cast connection rs) w)
        ∙ ap (on_data_ready cast connection none) e
        ∙ on_data_ready-requests_text cast connection r rs w ws,
  )
