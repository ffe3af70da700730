-- ===== src/Spin/Grammar/Messages.antt =====
-- lib/Spin/Private/Grammar.h: requests, responses and what they are made of.
use arachnida.Base.{codes}
use arachnida.Spin.Grammar.{
  Parser, ch_p, kleene, never, optional, positive, str_p, times, ◌<%>◌, ◌<->◌, ◌<|>◌, ◌>>◌,
}
use arachnida.Spin.Grammar.Basic.{cr, crlf, digit, http_version, lf, lws, octet, sp, text}
use arachnida.Spin.Grammar.Uri.{abs_path, absoluteuri, authority}
use arachnida.Spin.Grammar.Values.{delta_seconds}
use arachnida.Spin.Grammar.Fields.{
  accept, accept_charset, accept_encoding, accept_language, age, authorization, cache_extension,
  cache_request_directive, connection,
}
use arachnida.Spin.Grammar.Headers.{
  byte_range_set, date, expect, host_header, if_modified_since, if_unmodified_since, location,
  max_forwards, pragma, referer, retry_after, transfer_encoding, upgrade, user_agent, via, warning,
}
use arachnida.Spin.Grammar.Entities.{
  bytes_unit, entity_header, entity_tag, field_name, message_header, method, range_unit,
}

unfoldable pub request_uri : Parser
unfolding abs_path absoluteuri authority
request_uri = ch_p b'*' <|> absoluteuri <|> abs_path <|> authority

unfoldable pub request_line : Parser
unfolding crlf http_version method request_uri sp
request_line = method >> sp >> request_uri >> sp >> http_version >> crlf

unfoldable pub cache_response_directive : Parser
unfolding cache_extension delta_seconds field_name lws
cache_response_directive =
    str_p (codes "public")
    <|> str_p (codes "private")
      >> optional (
          ch_p b'=' >> ch_p 34 >> (kleene lws >> field_name >> kleene lws) <%> ch_p b',' >> ch_p 34)
    <|> str_p (codes "no-cache")
      >> optional (ch_p b'=' >> ch_p 34 >> field_name <%> ch_p b',' >> ch_p 34)
    <|> str_p (codes "no-store")
    <|> str_p (codes "no-transform")
    <|> str_p (codes "must-revalidate")
    <|> str_p (codes "proxy-revalidate")
    <|> str_p (codes "max-age") >> ch_p b'=' >> delta_seconds
    <|> str_p (codes "s-maxage") >> ch_p b'=' >> delta_seconds
    <|> cache_extension

unfoldable pub cache_directive : Parser
unfolding cache_request_directive cache_response_directive
cache_directive = cache_request_directive <|> cache_response_directive

unfoldable pub cache_control : Parser
unfolding cache_directive lws
cache_control =
    str_p (codes "Cache-Control")
    >> ch_p b':'
    >> (kleene lws >> cache_directive >> kleene lws) <%> ch_p b','

unfoldable pub trailer_header : Parser
unfolding field_name lws
trailer_header =
    str_p (codes "Trailer") >> ch_p b':' >> (kleene lws >> field_name >> kleene lws) <%> ch_p b','

unfoldable pub general_header : Parser
unfolding cache_control connection date pragma trailer_header transfer_encoding upgrade via warning
general_header =
    cache_control <|> connection <|> date <|> pragma <|> trailer_header <|> transfer_encoding
    <|> upgrade <|> via <|> warning

unfoldable pub if_match : Parser
unfolding entity_tag lws
if_match =
    str_p (codes "If-Match")
    >> ch_p b':'
    >> (ch_p b'*' <|> (kleene lws >> entity_tag >> kleene lws) <%> ch_p b',')

unfoldable pub if_none_match : Parser
unfolding entity_tag lws
if_none_match =
    str_p (codes "If-none-Match")
    >> ch_p b':'
    >> (ch_p b'*' <|> (kleene lws >> entity_tag >> kleene lws) <%> ch_p b',')

unfoldable pub byte_ranges_specifier : Parser
unfolding byte_range_set bytes_unit
byte_ranges_specifier = bytes_unit >> ch_p b'=' >> byte_range_set

unfoldable pub ranges_specifier : Parser
unfolding byte_ranges_specifier
ranges_specifier = byte_ranges_specifier

unfoldable pub range : Parser
unfolding ranges_specifier
range = str_p (codes "Range") >> ch_p b':' >> ranges_specifier

unfoldable pub request_header : Parser
unfolding accept accept_charset accept_encoding accept_language authorization expect host_header
    if_match if_modified_since if_none_match if_unmodified_since max_forwards range referer
    user_agent
request_header =
    accept <|> accept_charset <|> accept_encoding <|> accept_language <|> authorization <|> expect
    <|> never <|> host_header <|> if_match <|> if_modified_since <|> if_none_match <|> never
    <|> if_unmodified_since <|> max_forwards <|> never <|> range <|> referer <|> never
    <|> user_agent

unfoldable pub message_body : Parser
unfolding octet
message_body = positive octet <|> positive octet

unfoldable pub request : Parser
unfolding crlf entity_header general_header message_body request_header request_line
request =
    request_line
    >> kleene ((general_header <|> request_header <|> entity_header) >> crlf)
    >> crlf
    >> optional message_body

unfoldable pub extension_code : Parser
unfolding digit
extension_code = times 3 digit

unfoldable pub status_code : Parser
unfolding extension_code
status_code =
    str_p (codes "100")
    <|> str_p (codes "101")
    <|> str_p (codes "200")
    <|> str_p (codes "201")
    <|> str_p (codes "202")
    <|> str_p (codes "203")
    <|> str_p (codes "204")
    <|> str_p (codes "205")
    <|> str_p (codes "206")
    <|> str_p (codes "300")
    <|> str_p (codes "301")
    <|> str_p (codes "302")
    <|> str_p (codes "303")
    <|> str_p (codes "304")
    <|> str_p (codes "305")
    <|> str_p (codes "307")
    <|> str_p (codes "400")
    <|> str_p (codes "401")
    <|> str_p (codes "402")
    <|> str_p (codes "403")
    <|> str_p (codes "404")
    <|> str_p (codes "405")
    <|> str_p (codes "406")
    <|> str_p (codes "407")
    <|> str_p (codes "408")
    <|> str_p (codes "409")
    <|> str_p (codes "410")
    <|> str_p (codes "411")
    <|> str_p (codes "412")
    <|> str_p (codes "413")
    <|> str_p (codes "414")
    <|> str_p (codes "415")
    <|> str_p (codes "416")
    <|> str_p (codes "417")
    <|> str_p (codes "500")
    <|> str_p (codes "501")
    <|> str_p (codes "502")
    <|> str_p (codes "503")
    <|> str_p (codes "504")
    <|> str_p (codes "505")
    <|> extension_code

unfoldable pub reason_phrase : Parser
unfolding cr lf text
reason_phrase = kleene (text <-> cr <-> lf)

unfoldable pub status_line : Parser
unfolding crlf http_version reason_phrase sp status_code
status_line = http_version >> sp >> status_code >> sp >> reason_phrase >> crlf

unfoldable pub acceptable_ranges : Parser
unfolding lws range_unit
acceptable_ranges =
    (kleene lws >> range_unit >> kleene lws) <%> ch_p b','
    <|> kleene lws >> str_p (codes "none") >> kleene lws

unfoldable pub accept_ranges : Parser
unfolding acceptable_ranges
accept_ranges = str_p (codes "Accept-Ranges") >> ch_p b':' >> acceptable_ranges

unfoldable pub etag : Parser
unfolding entity_tag
etag = str_p (codes "ETag") >> ch_p b':' >> entity_tag

unfoldable pub vary : Parser
unfolding field_name lws
vary =
    str_p (codes "Vary")
    >> ch_p b':'
    >> (ch_p b'*' <|> (kleene lws >> field_name >> kleene lws) <%> ch_p b',')

unfoldable pub response_header : Parser
unfolding accept_ranges age etag location retry_after vary
response_header =
    accept_ranges <|> age <|> etag <|> location <|> never <|> retry_after <|> never <|> vary
    <|> never

unfoldable pub response : Parser
unfolding crlf entity_header general_header message_body response_header status_line
response =
    status_line
    >> kleene ((general_header <|> response_header <|> entity_header) >> crlf)
    >> crlf
    >> optional message_body

unfoldable pub http_message : Parser
unfolding request response
http_message = request <|> response

unfoldable pub start_line : Parser
unfolding crlf request_line status_line
start_line = kleene crlf >> request_line <|> status_line

unfoldable pub generic_message : Parser
unfolding crlf message_body message_header start_line
generic_message =
    start_line >> kleene (message_header >> crlf) >> crlf >> optional message_body >> kleene crlf
