-- ===== src/Spin/Grammar/Basic.antt =====
-- lib/Spin/Private/Grammar.h: the basic rules.
use arachnida.Base.{codes}
use arachnida.Spin.Grammar.{
  Parser, ch_p, comment_reference, kleene, optional, positive, range_p, str_p, ◌<->◌, ◌<|>◌, ◌>>◌,
}

unfoldable pub octet : Parser
octet = range_p 0 255

unfoldable pub char : Parser
char = range_p 0 127

unfoldable pub upalpha : Parser
upalpha = range_p b'A' b'Z'

unfoldable pub loalpha : Parser
loalpha = range_p b'a' b'z'

unfoldable pub alpha : Parser
unfolding loalpha upalpha
alpha = upalpha <|> loalpha

unfoldable pub digit : Parser
digit = range_p b'0' b'9'

unfoldable pub ctl : Parser
ctl = range_p 0 31 <|> ch_p 127

unfoldable pub cr : Parser
cr = ch_p 13

unfoldable pub lf : Parser
lf = ch_p 10

unfoldable pub sp : Parser
sp = ch_p 32

unfoldable pub ht : Parser
ht = ch_p 9

unfoldable pub double_quote : Parser
double_quote = ch_p 34

unfoldable pub crlf : Parser
unfolding cr lf
crlf = cr >> lf

unfoldable pub lws : Parser
unfolding crlf ht sp
lws = optional crlf >> positive (sp <|> ht)

unfoldable pub text : Parser
unfolding ctl lws octet
text = octet <-> ctl <|> lws

unfoldable pub hex : Parser
unfolding digit
hex = range_p b'a' b'f' <|> range_p b'A' b'F' <|> digit

unfoldable pub separators : Parser
unfolding ht sp
separators =
    ch_p b'('
    <|> ch_p b')'
    <|> ch_p b'<'
    <|> ch_p b'>'
    <|> ch_p b'@'
    <|> ch_p b','
    <|> ch_p b';'
    <|> ch_p b':'
    <|> ch_p 92
    <|> ch_p 34
    <|> ch_p b'/'
    <|> ch_p b'['
    <|> ch_p b']'
    <|> ch_p b'?'
    <|> ch_p b'='
    <|> ch_p b'{'
    <|> ch_p b'}'
    <|> sp
    <|> ht

unfoldable pub token : Parser
unfolding char ctl separators
token = positive (char <-> ctl <-> separators)

unfoldable pub ctext : Parser
unfolding text
ctext = text <-> ch_p b'(' <-> ch_p b')'

unfoldable pub quoted_pair : Parser
unfolding char
quoted_pair = ch_p 92 >> char

unfoldable pub comment : Parser
unfolding ctext quoted_pair
comment = ch_p b'(' >> kleene (ctext <|> quoted_pair <|> comment_reference) >> ch_p b')'

unfoldable pub qdtext : Parser
unfolding text
qdtext = text <-> ch_p 34

unfoldable pub quoted_string : Parser
unfolding qdtext quoted_pair
quoted_string = ch_p 34 >> kleene (qdtext <|> quoted_pair) >> ch_p 34

unfoldable pub http_version : Parser
unfolding digit
http_version = str_p (codes "HTTP") >> ch_p b'/' >> positive digit >> ch_p b'.' >> positive digit
