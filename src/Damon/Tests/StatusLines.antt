-- ===== src/Damon/Tests/StatusLines.antt =====
-- The status line of a response that says "not found", as the grammar and the client read it.
use arachnida.Base.{codes, some, ◌++◌, ◌≡◌, refl, ok}
use arachnida.Base.Check.{all_hold, all_hold_sound}
use arachnida.Acari.ParsingHelpers.{extract_response_header}
use arachnida.Damon.Tests.Reception.{answer, hi-IsServed}
use arachnida.Spin.Grammar.Messages.{status_line}
use arachnida.Spin.Grammar.Spirit.{hit}
use arachnida.Spin.Grammar.StatusCodes.{starts_with_digits}
use arachnida.Spin.Grammar.StatusLines.{is_printable, after_line, status_line-serialize}
use arachnida.Spin.Response.{complete_fields, serialize, make_response_with}
use arachnida.Spin.DataHandler.Fields.{crlf}
use arachnida.Spin.Tests.Decimal.{read_decimal, three_digits}
use arachnida.Spin.Tests.Grammars.{Derives, Derives-IsSpirit}

status_line-serialize_example :
    Derives status_line 0
      (serialize three_digits (answer (codes "hi")))
      (hit 0 (after_line (complete_fields three_digits (answer (codes "hi"))) (codes "hi")))
    × (extract_response_header make_response_with read_decimal
          (serialize three_digits (answer (codes "hi")))
        ≡ ok (
            some (
              make_response_with (codes "HTTP/1.1") 404 (codes "Not Found"),
              crlf ++ after_line (complete_fields three_digits (answer (codes "hi"))) (codes "hi"),
            )))
unfolding starts_with_digits
status_line-serialize_example =
    status_line-serialize Derives-IsSpirit three_digits read_decimal make_response_with
      (answer (codes "hi")) 0 hi-IsServed.protocol refl refl refl hi-IsServed.reason
      (unfold all_hold in all_hold_sound is_printable (codes "Not Found") refl) hi-IsServed.fields
