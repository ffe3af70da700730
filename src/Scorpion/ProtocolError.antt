-- ===== src/Scorpion/ProtocolError.antt =====
-- lib/Scorpion/Exceptions/SSL.h and SSL.cpp: `SSLProtocolError`, which takes the text that OpenSSL keeps
-- of an error. `is_text` is the test of ERR_TXT_STRING, `to_text` the text of a number, and `formats`
-- what the formatting and its allocation do.
pub mod Moves
use arachnida.Base.{ℕ, Bool, ◌++◌, not, Option, none, some, Bytes, codes, if◌then◌else◌}

-- `message` is what `std::runtime_error` holds.
pub record ProtocolError : Type 0 where
  pub message : Bytes
  pub error_code : ℕ
  pub filename : Bytes
  pub line : ℕ
  pub error_line_data : Option Bytes
  pub error_line_data_flags : ℕ
  pub formatted : Option Bytes

unfoldable pub protocol_error : Bytes → ℕ → Bytes → ℕ → Option Bytes → ℕ → ProtocolError
protocol_error message error_code filename line data_ flags = record {
  message = message;
  error_code = error_code;
  filename = filename;
  line = line;
  error_line_data = data_;
  error_line_data_flags = flags;
  formatted = none;
}

-- The copy constructor: the copy, and what is left of the error that was copied.
unfoldable pub copy : ProtocolError → ProtocolError × ProtocolError
unfolding protocol_error
copy e = (e, protocol_error e.message e.error_code e.filename e.line none e.error_line_data_flags)

abbrev with_message : Bytes → ProtocolError → ProtocolError
with_message message e = record {
  message = message;
  error_code = e.error_code;
  filename = e.filename;
  line = e.line;
  error_line_data = e.error_line_data;
  error_line_data_flags = e.error_line_data_flags;
  formatted = e.formatted;
}

-- `swap`, which leaves the bases where they are
unfoldable pub swap : ProtocolError → ProtocolError → ProtocolError × ProtocolError
swap a b = (with_message a.message b, with_message b.message a)

-- `operator=`, whose argument is a copy: what is assigned to, and what is left of the argument.
unfoldable pub assign : ProtocolError → ProtocolError → ProtocolError × ProtocolError
unfolding swap copy
assign a e = ((swap a (copy e).0).0, (copy e).1)

module _ (is_text : ℕ → Bool) (to_text : ℕ → Bytes) (formats : Bool) where
  unfoldable pub further : ProtocolError → Bytes
  further e = elim e.error_line_data [
    | some text ↦ if is_text e.error_line_data_flags then text else codes "no further information"
    | none ↦ codes "no further information"
  ]

  -- `"%1%: %2% (%3%): %4%"`
  abbrev pub sentence : ProtocolError → Bytes
  sentence e =
      e.message
      ++ (codes ": "
          ++ (e.filename ++ (codes " (" ++ (to_text e.line ++ (codes "): " ++ further e)))))

  unfoldable pub what : ProtocolError → Bytes × ProtocolError
  unfolding further
  what e = elim e.formatted [
    | some text ↦ (text, e)
    | none ↦ if not formats then (e.message, e) else (
      sentence e,
      record {
        message = e.message;
        error_code = e.error_code;
        filename = e.filename;
        line = e.line;
        error_line_data = e.error_line_data;
        error_line_data_flags = e.error_line_data_flags;
        formatted = some (sentence e);
      },
    )
  ]
