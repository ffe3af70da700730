-- ===== src/Spin/Grammar/Entities.antt =====
-- lib/Spin/Private/Grammar.h: entities and what describes them.
use arachnida.Base.{codes}
use arachnida.Spin.Grammar.{Parser, ch_p, kleene, optional, str_p, ◌<%>◌, ◌<|>◌, ◌>>◌}
use arachnida.Spin.Grammar.Basic.{crlf, lws, quoted_string, separators, sp, text, token}
use arachnida.Spin.Grammar.Values.{chunk, last_chunk}
use arachnida.Spin.Grammar.Fields.{content_encoding, content_language, content_length}
use arachnida.Spin.Grammar.Headers.{
  byte_range_resp_spec, content_location, content_md5, content_type, expires, instance_length,
  last_modified,
}

unfoldable pub extension_method : Parser
unfolding token
extension_method = token

unfoldable pub method : Parser
unfolding extension_method
method =
    str_p (codes "OPTIONS")
    <|> str_p (codes "GET")
    <|> str_p (codes "HEAD")
    <|> str_p (codes "POST")
    <|> str_p (codes "PUT")
    <|> str_p (codes "DELETE")
    <|> str_p (codes "TRACE")
    <|> str_p (codes "CONNECT")
    <|> extension_method

unfoldable pub allow : Parser
unfolding lws method
allow = str_p (codes "Allow") >> ch_p b':' >> (kleene lws >> method >> kleene lws) <%> ch_p b','

unfoldable pub bytes_unit : Parser
bytes_unit = str_p (codes "bytes")

unfoldable pub byte_content_range_spec : Parser
unfolding byte_range_resp_spec bytes_unit instance_length sp
byte_content_range_spec =
    bytes_unit >> sp >> byte_range_resp_spec >> ch_p b'/' >> (instance_length <|> ch_p b'*')

unfoldable pub content_range_spec : Parser
unfolding byte_content_range_spec
content_range_spec = byte_content_range_spec

unfoldable pub content_range : Parser
unfolding content_range_spec
content_range = str_p (codes "Content-Range") >> ch_p b':' >> content_range_spec

unfoldable pub field_name : Parser
unfolding token
field_name = token

unfoldable pub field_content : Parser
unfolding quoted_string separators text token
field_content = kleene (token <|> separators <|> quoted_string) <|> kleene text

unfoldable pub field_value : Parser
unfolding field_content lws
field_value = kleene (field_content <|> lws)

unfoldable pub message_header : Parser
unfolding field_name field_value
message_header = field_name >> ch_p b':' >> optional field_value

unfoldable pub extension_header : Parser
unfolding message_header
extension_header = message_header

unfoldable pub entity_header : Parser
unfolding allow content_encoding content_language content_length content_location content_md5
    content_range content_type expires extension_header last_modified
entity_header =
    allow <|> content_encoding <|> content_language <|> content_length <|> content_location
    <|> content_md5 <|> content_range <|> content_type <|> expires <|> last_modified
    <|> extension_header

unfoldable pub trailer : Parser
unfolding crlf entity_header
trailer = kleene (entity_header >> crlf)

unfoldable pub chunked_body : Parser
unfolding chunk crlf last_chunk trailer
chunked_body = kleene chunk >> last_chunk >> trailer >> crlf

unfoldable pub weak : Parser
weak = str_p (codes "W/")

unfoldable pub opaque_tag : Parser
unfolding quoted_string
opaque_tag = quoted_string

unfoldable pub entity_tag : Parser
unfolding opaque_tag weak
entity_tag = optional weak >> opaque_tag

unfoldable pub other_range_unit : Parser
unfolding token
other_range_unit = token

unfoldable pub range_unit : Parser
unfolding bytes_unit other_range_unit
range_unit = bytes_unit <|> other_range_unit
