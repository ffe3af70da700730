-- ===== src/Spin/Grammar/Uri.antt =====
-- lib/Spin/Private/Grammar.h: the rules of URIs.
use arachnida.Base.{codes}
use arachnida.Spin.Grammar.{
  Parser, ch_p, kleene, lexeme_d, optional, positive, str_p, times, ◌<%>◌, ◌<|>◌, ◌>>◌,
}
use arachnida.Spin.Grammar.Basic.{alpha, digit, hex}

unfoldable pub domainlabel : Parser
unfolding alpha digit
domainlabel =
    alpha
    <|> digit
    <|> (alpha <|> digit) >> kleene (alpha <|> digit <|> ch_p b'-') >> (alpha <|> digit)

unfoldable pub toplabel : Parser
unfolding alpha digit
toplabel = alpha <|> alpha >> kleene (alpha <|> digit <|> ch_p b'-') >> (alpha <|> digit)

unfoldable pub hostname : Parser
unfolding domainlabel toplabel
hostname = kleene (domainlabel >> ch_p b'.') >> toplabel >> optional (ch_p b'.')

unfoldable pub ipv4address : Parser
unfolding digit
ipv4address = positive digit >> times 3 (ch_p b'.' >> positive digit)

unfoldable pub host : Parser
unfolding hostname ipv4address
host = hostname <|> ipv4address

unfoldable pub port : Parser
unfolding digit
port = positive digit

unfoldable pub mark : Parser
mark =
    ch_p b'-'
    <|> ch_p b'_'
    <|> ch_p b'.'
    <|> ch_p b'!'
    <|> ch_p b'~'
    <|> ch_p b'*'
    <|> ch_p 39
    <|> ch_p b'('
    <|> ch_p b')'

unfoldable pub unreserved : Parser
unfolding alpha digit mark
unreserved = alpha <|> digit <|> mark

unfoldable pub escaped : Parser
unfolding hex
escaped = ch_p b'%' >> hex >> hex

unfoldable pub pchar : Parser
unfolding escaped unreserved
pchar =
    unreserved
    <|> escaped
    <|> ch_p b':'
    <|> ch_p b'@'
    <|> ch_p b'&'
    <|> ch_p b'='
    <|> ch_p b'+'
    <|> ch_p b'$'
    <|> ch_p b','

unfoldable pub param : Parser
unfolding pchar
param = kleene pchar

unfoldable pub segment : Parser
unfolding param pchar
segment = kleene pchar >> kleene (ch_p b';' >> param)

unfoldable pub path_segments : Parser
unfolding segment
path_segments = segment <%> ch_p b'/'

unfoldable pub abs_path : Parser
unfolding path_segments
abs_path = ch_p b'/' >> path_segments

unfoldable pub reserved : Parser
reserved =
    ch_p b';'
    <|> ch_p b'/'
    <|> ch_p b'?'
    <|> ch_p b':'
    <|> ch_p b'@'
    <|> ch_p b'&'
    <|> ch_p b'='
    <|> ch_p b'+'
    <|> ch_p b'$'
    <|> ch_p b','

unfoldable pub uric : Parser
unfolding escaped reserved unreserved
uric = reserved <|> unreserved <|> escaped

unfoldable pub query : Parser
unfolding uric
query = kleene uric

unfoldable pub scheme : Parser
unfolding alpha digit
scheme = alpha >> kleene (alpha <|> digit <|> ch_p b'+' <|> ch_p b'-' <|> ch_p b'.')

unfoldable pub userinfo : Parser
unfolding escaped unreserved
userinfo = kleene (
    unreserved
    <|> escaped
    <|> ch_p b';'
    <|> ch_p b':'
    <|> ch_p b'&'
    <|> ch_p b'='
    <|> ch_p b'+'
    <|> ch_p b'$'
    <|> ch_p b',')

unfoldable pub hostport : Parser
unfolding host port
hostport = host >> optional (ch_p b':' >> port)

unfoldable pub server : Parser
unfolding hostport userinfo
server = optional (userinfo >> ch_p b'@') >> hostport

unfoldable pub reg_name : Parser
unfolding escaped unreserved
reg_name = positive (
    unreserved
    <|> escaped
    <|> ch_p b'$'
    <|> ch_p b','
    <|> ch_p b';'
    <|> ch_p b':'
    <|> ch_p b'@'
    <|> ch_p b'&'
    <|> ch_p b'='
    <|> ch_p b'+')

unfoldable pub authority : Parser
unfolding reg_name server
authority = server <|> reg_name

unfoldable pub net_path : Parser
unfolding abs_path authority
net_path = str_p (codes "//") >> authority >> optional abs_path

unfoldable pub hier_part : Parser
unfolding abs_path net_path query
hier_part = (net_path <|> abs_path) >> optional (ch_p b'?' >> query)

unfoldable pub uric_no_slash : Parser
unfolding escaped unreserved
uric_no_slash =
    unreserved
    <|> escaped
    <|> ch_p b';'
    <|> ch_p b'?'
    <|> ch_p b':'
    <|> ch_p b'@'
    <|> ch_p b'&'
    <|> ch_p b'='
    <|> ch_p b'+'
    <|> ch_p b'$'
    <|> ch_p b','

unfoldable pub opaque_part : Parser
unfolding uric uric_no_slash
opaque_part = uric_no_slash >> kleene uric

unfoldable pub absoluteuri : Parser
unfolding hier_part opaque_part scheme
absoluteuri = lexeme_d (scheme >> ch_p b':' >> (hier_part <|> opaque_part))

unfoldable pub rel_segment : Parser
unfolding escaped unreserved
rel_segment = positive (
    unreserved
    <|> escaped
    <|> ch_p b';'
    <|> ch_p b'@'
    <|> ch_p b'&'
    <|> ch_p b'='
    <|> ch_p b'+'
    <|> ch_p b'$'
    <|> ch_p b',')

unfoldable pub rel_path : Parser
unfolding abs_path rel_segment
rel_path = rel_segment >> optional abs_path

unfoldable pub relativeuri : Parser
unfolding abs_path net_path query rel_path
relativeuri = (net_path <|> abs_path <|> rel_path) >> optional (ch_p b'?' >> query)

unfoldable pub delims : Parser
delims = ch_p b'<' <|> ch_p b'>' <|> ch_p b'#' <|> ch_p b'%' <|> ch_p 34

unfoldable pub unwise : Parser
unwise =
    ch_p b'{'
    <|> ch_p b'}'
    <|> ch_p b'|'
    <|> ch_p 92
    <|> ch_p b'^'
    <|> ch_p b'['
    <|> ch_p b']'
    <|> ch_p b'`'

unfoldable pub path : Parser
unfolding abs_path opaque_part
path = abs_path <|> opaque_part

unfoldable pub fragment : Parser
unfolding uric
fragment = kleene uric

unfoldable pub uri_reference : Parser
unfolding absoluteuri fragment relativeuri
uri_reference = optional (absoluteuri <|> relativeuri) >> optional (ch_p b'#' >> fragment)
