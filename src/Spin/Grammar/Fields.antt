-- ===== src/Spin/Grammar/Fields.antt =====
-- lib/Spin/Private/Grammar.h: header fields up to Content-Length.
use arachnida.Base.{codes}
use arachnida.Spin.Grammar.{
  Parser, between, ch_p, kleene, optional, positive, str_p, ◌<%>◌, ◌<|>◌, ◌>>◌,
}
use arachnida.Spin.Grammar.Basic.{alpha, digit, lws, quoted_string, token}
use arachnida.Spin.Grammar.Values.{
  charset, content_coding, delta_seconds, language_tag, parameter, qvalue, subtype, type,
}

unfoldable pub content_encoding : Parser
unfolding content_coding lws
content_encoding =
    str_p (codes "Content-Encoding")
    >> ch_p b':'
    >> (kleene lws >> content_coding >> kleene lws) <%> ch_p b','

unfoldable pub content_language : Parser
unfolding language_tag lws
content_language =
    str_p (codes "Content-Language")
    >> ch_p b':'
    >> (kleene lws >> language_tag >> kleene lws) <%> ch_p b','

unfoldable pub content_length : Parser
unfolding digit
content_length = str_p (codes "Content-Length") >> ch_p b':' >> positive digit

unfoldable pub cache_extension : Parser
unfolding quoted_string token
cache_extension = token >> optional (ch_p b'=' >> (token <|> quoted_string))

unfoldable pub cache_request_directive : Parser
unfolding cache_extension delta_seconds
cache_request_directive =
    str_p (codes "no-cache")
    <|> str_p (codes "no-store")
    <|> str_p (codes "max-age") >> ch_p b'=' >> delta_seconds
    <|> str_p (codes "max-stale") >> optional (ch_p b'=' >> delta_seconds)
    <|> str_p (codes "min-fresh") >> optional (ch_p b'=' >> delta_seconds)
    <|> str_p (codes "no-transform")
    <|> str_p (codes "only-if-cached")
    <|> cache_extension

unfoldable pub connection_token : Parser
unfolding token
connection_token = token

unfoldable pub connection : Parser
unfolding connection_token lws
connection =
    str_p (codes "Connection")
    >> ch_p b':'
    >> (kleene lws >> connection_token >> kleene lws) <%> ch_p b','

unfoldable pub media_range : Parser
unfolding parameter subtype type
media_range =
    (str_p (codes "*/*") <|> type >> ch_p b'/' >> ch_p b'*' <|> type >> ch_p b'/' >> subtype)
    >> kleene (ch_p b';' >> parameter)

unfoldable pub accept_extension : Parser
unfolding quoted_string token
accept_extension = ch_p b';' >> token >> optional (ch_p b'=' >> (token <|> quoted_string))

unfoldable pub accept_params : Parser
unfolding accept_extension qvalue
accept_params = ch_p b';' >> ch_p b'q' >> ch_p b'=' >> qvalue >> kleene accept_extension

unfoldable pub accept : Parser
unfolding accept_params lws media_range
accept =
    str_p (codes "Accept")
    >> ch_p b':'
    >> optional (
        (kleene lws >> media_range >> kleene lws >> optional accept_params >> kleene lws)
        <%> ch_p b',')

unfoldable pub accept_charset : Parser
unfolding charset lws qvalue
accept_charset =
    str_p (codes "Accept-Charset")
    >> ch_p b':'
    >> (kleene lws
        >> (charset <|> ch_p b'*')
        >> kleene lws
        >> optional (
            kleene lws
            >> ch_p b';'
            >> kleene lws
            >> ch_p b'q'
            >> kleene lws
            >> ch_p b'='
            >> kleene lws
            >> qvalue
            >> kleene lws))
      <%> ch_p b','

unfoldable pub codings : Parser
unfolding content_coding
codings = content_coding <|> ch_p b'*'

unfoldable pub accept_encoding : Parser
unfolding codings lws qvalue
accept_encoding =
    str_p (codes "Accept-Encoding")
    >> ch_p b':'
    >> (kleene lws
        >> codings
        >> kleene lws
        >> optional (
            kleene lws
            >> ch_p b';'
            >> kleene lws
            >> ch_p b'q'
            >> kleene lws
            >> ch_p b'='
            >> kleene lws
            >> qvalue
            >> kleene lws))
      <%> ch_p b','

unfoldable pub language_range : Parser
unfolding alpha
language_range = between 1 8 alpha >> kleene (ch_p b'-' >> between 1 8 alpha) <|> ch_p b'*'

unfoldable pub accept_language : Parser
unfolding language_range lws qvalue
accept_language =
    str_p (codes "Accept-Language")
    >> ch_p b':'
    >> (kleene lws
        >> language_range
        >> kleene lws
        >> optional (
            kleene lws
            >> ch_p b';'
            >> kleene lws
            >> ch_p b'q'
            >> kleene lws
            >> ch_p b'='
            >> kleene lws
            >> qvalue
            >> kleene lws))
      <%> ch_p b','

unfoldable pub authorization : Parser
unfolding token
authorization = str_p (codes "Authorization") >> ch_p b':' >> token

unfoldable pub age_value : Parser
unfolding delta_seconds
age_value = delta_seconds

unfoldable pub age : Parser
unfolding age_value
age = str_p (codes "Age") >> ch_p b':' >> age_value
