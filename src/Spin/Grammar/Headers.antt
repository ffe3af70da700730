-- ===== src/Spin/Grammar/Headers.antt =====
-- lib/Spin/Private/Grammar.h: the other header fields.
use arachnida.Base.{codes}
use arachnida.Spin.Grammar.{
  Parser, ch_p, kleene, optional, positive, str_p, times, ◌<%>◌, ◌<|>◌, ◌>>◌,
}
use arachnida.Spin.Grammar.Basic.{comment, digit, hex, lws, quoted_string, sp, token}
use arachnida.Spin.Grammar.Uri.{absoluteuri, host, port, relativeuri}
use arachnida.Spin.Grammar.Values.{delta_seconds, http_date, media_type, product, transfer_coding}

unfoldable pub content_location : Parser
unfolding absoluteuri relativeuri
content_location = str_p (codes "Content-Location") >> ch_p b':' >> (absoluteuri <|> relativeuri)

unfoldable pub md5_digest : Parser
unfolding hex
md5_digest = times 32 hex

unfoldable pub content_md5 : Parser
unfolding md5_digest
content_md5 = str_p (codes "Content-MD5") >> ch_p b';' >> md5_digest

unfoldable pub first_byte_pos : Parser
unfolding digit
first_byte_pos = positive digit

unfoldable pub last_byte_pos : Parser
unfolding digit
last_byte_pos = positive digit

unfoldable pub byte_range_resp_spec : Parser
unfolding first_byte_pos last_byte_pos
byte_range_resp_spec = first_byte_pos >> ch_p b'-' >> last_byte_pos <|> ch_p b'*'

unfoldable pub instance_length : Parser
unfolding digit
instance_length = positive digit

unfoldable pub content_type : Parser
unfolding media_type
content_type = str_p (codes "Content-Type") >> ch_p b':' >> media_type

unfoldable pub expires : Parser
unfolding http_date
expires = str_p (codes "Expires") >> ch_p b':' >> http_date

unfoldable pub last_modified : Parser
unfolding http_date
last_modified = str_p (codes "Last-Modified") >> ch_p b':' >> http_date

unfoldable pub date : Parser
unfolding http_date
date = str_p (codes "Date") >> ch_p b':' >> http_date

unfoldable pub extension_pragma : Parser
unfolding quoted_string token
extension_pragma = token >> optional (ch_p b'=' >> (token <|> quoted_string))

unfoldable pub pragma_directive : Parser
unfolding extension_pragma
pragma_directive = str_p (codes "no-cache") <|> extension_pragma

unfoldable pub pragma : Parser
unfolding lws pragma_directive
pragma =
    str_p (codes "Pragma")
    >> ch_p b':'
    >> (kleene lws >> pragma_directive >> kleene lws) <%> ch_p b','

unfoldable pub transfer_encoding : Parser
unfolding lws transfer_coding
transfer_encoding =
    str_p (codes "Transfer-Encoding")
    >> ch_p b':'
    >> (kleene lws >> transfer_coding >> kleene lws) <%> ch_p b','

unfoldable pub upgrade : Parser
unfolding lws product
upgrade =
    str_p (codes "Upgrade") >> ch_p b':' >> (kleene lws >> product >> kleene lws) <%> ch_p b','

unfoldable pub protocol_name : Parser
unfolding token
protocol_name = token

unfoldable pub protocol_version : Parser
unfolding token
protocol_version = token

unfoldable pub received_protocol : Parser
unfolding protocol_name protocol_version
received_protocol = optional (protocol_name >> ch_p b'/') >> protocol_version

unfoldable pub pseudonym : Parser
unfolding token
pseudonym = token

unfoldable pub received_by : Parser
unfolding host port pseudonym
received_by = host >> optional (ch_p b':' >> port) <|> pseudonym

unfoldable pub via : Parser
unfolding comment received_by received_protocol
via =
    str_p (codes "Via")
    >> ch_p b':'
    >> (received_protocol >> received_by >> optional comment) <%> ch_p b','

unfoldable pub warn_code : Parser
unfolding digit
warn_code = times 3 digit

unfoldable pub warn_agent : Parser
unfolding host port pseudonym
warn_agent = host >> optional (ch_p b':' >> port) <|> pseudonym

unfoldable pub warn_text : Parser
unfolding quoted_string
warn_text = quoted_string

unfoldable pub warn_date : Parser
unfolding http_date
warn_date = ch_p 34 >> http_date >> ch_p 34

unfoldable pub warning_value : Parser
unfolding sp warn_agent warn_code warn_date warn_text
warning_value = warn_code >> sp >> warn_agent >> sp >> warn_text >> optional (sp >> warn_date)

unfoldable pub warning : Parser
unfolding warning_value
warning = str_p (codes "Warning") >> ch_p b':' >> warning_value <%> ch_p b','

unfoldable pub expect_params : Parser
unfolding quoted_string token
expect_params = ch_p b';' >> token >> optional (ch_p b'=' >> (token <|> quoted_string))

unfoldable pub expectation_extension : Parser
unfolding expect_params quoted_string token
expectation_extension =
    token >> optional (ch_p b'=' >> (token <|> quoted_string) >> kleene expect_params)

unfoldable pub expectation : Parser
unfolding expectation_extension
expectation = str_p (codes "100-continue") <|> expectation_extension

unfoldable pub expect : Parser
unfolding expectation lws
expect = (kleene lws >> expectation >> kleene lws) <%> ch_p b','

unfoldable pub host_header : Parser
unfolding host port
host_header = str_p (codes "Host") >> ch_p b':' >> host >> optional (ch_p b':' >> port)

unfoldable pub if_modified_since : Parser
unfolding http_date
if_modified_since = str_p (codes "If-Modified-Since") >> ch_p b':' >> http_date

unfoldable pub if_unmodified_since : Parser
unfolding http_date
if_unmodified_since = str_p (codes "If-Unmodified-Since") >> ch_p b':' >> http_date

unfoldable pub max_forwards : Parser
unfolding digit
max_forwards = str_p (codes "Max-Forwards") >> ch_p b':' >> positive digit

unfoldable pub byte_range_spec : Parser
unfolding first_byte_pos last_byte_pos
byte_range_spec = first_byte_pos >> ch_p b'-' >> optional last_byte_pos

unfoldable pub suffix_length : Parser
unfolding digit
suffix_length = positive digit

unfoldable pub suffix_byte_range_spec : Parser
unfolding suffix_length
suffix_byte_range_spec = ch_p b'-' >> suffix_length

unfoldable pub byte_range_set : Parser
unfolding byte_range_spec lws suffix_byte_range_spec
byte_range_set =
    (kleene lws >> (byte_range_spec <|> suffix_byte_range_spec) >> kleene lws) <%> ch_p b','

unfoldable pub referer : Parser
unfolding absoluteuri relativeuri
referer = str_p (codes "Referer") >> ch_p b':' >> (absoluteuri <|> relativeuri)

unfoldable pub user_agent : Parser
unfolding comment lws product
user_agent =
    str_p (codes "User-Agent")
    >> ch_p b':'
    >> (kleene lws >> (product <|> comment) >> kleene lws) <%> ch_p b','

unfoldable pub location : Parser
unfolding absoluteuri
location = str_p (codes "Last-Modified") >> ch_p b':' >> absoluteuri

unfoldable pub retry_after : Parser
unfolding delta_seconds http_date
retry_after = str_p (codes "Retry-After") >> ch_p b':' >> (http_date <|> delta_seconds)
