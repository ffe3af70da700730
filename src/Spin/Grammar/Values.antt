-- ===== src/Spin/Grammar/Values.antt =====
-- lib/Spin/Private/Grammar.h: tokens, dates, versions and bodies in chunks.
use arachnida.Base.{codes}
use arachnida.Spin.Grammar.{
  Parser, assigns, between, ch_p, kleene, optional, positive, sized, str_p, times, ◌<|>◌, ◌>>◌,
}
use arachnida.Spin.Grammar.Basic.{alpha, crlf, digit, hex, octet, quoted_string, sp, token}
use arachnida.Spin.Grammar.Uri.{abs_path, host, port, query}

unfoldable pub http_url : Parser
unfolding abs_path host port query
http_url =
    str_p (codes "http:")
    >> str_p (codes "//")
    >> host
    >> optional (ch_p b':' >> port)
    >> optional (abs_path >> optional (ch_p b'?' >> query))

unfoldable pub wkday : Parser
wkday =
    str_p (codes "Mon")
    <|> str_p (codes "Tue")
    <|> str_p (codes "Wed")
    <|> str_p (codes "Thu")
    <|> str_p (codes "Fri")
    <|> str_p (codes "Sat")
    <|> str_p (codes "Sun")

unfoldable pub month : Parser
month =
    str_p (codes "Jan")
    <|> str_p (codes "Feb")
    <|> str_p (codes "Mar")
    <|> str_p (codes "Apr")
    <|> str_p (codes "May")
    <|> str_p (codes "Jun")
    <|> str_p (codes "Jul")
    <|> str_p (codes "Aug")
    <|> str_p (codes "Sep")
    <|> str_p (codes "Oct")
    <|> str_p (codes "Nov")
    <|> str_p (codes "Dec")

unfoldable pub date1 : Parser
unfolding digit month sp
date1 = times 2 digit >> sp >> month >> sp >> times 4 digit

unfoldable pub time : Parser
unfolding digit
time = times 2 digit >> ch_p b':' >> times 2 digit >> ch_p b':' >> times 2 digit

unfoldable pub rfc1123_date : Parser
unfolding date1 sp time wkday
rfc1123_date = wkday >> ch_p b',' >> sp >> date1 >> sp >> time >> sp >> str_p (codes "GMT")

unfoldable pub weekday : Parser
weekday =
    str_p (codes "Monday")
    <|> str_p (codes "Tuesday")
    <|> str_p (codes "Wednesday")
    <|> str_p (codes "Thursday")
    <|> str_p (codes "Friday")
    <|> str_p (codes "Saturday")
    <|> str_p (codes "Sunday")

unfoldable pub date2 : Parser
unfolding digit month
date2 = times 2 digit >> ch_p b'-' >> month >> ch_p b'-' >> times 2 digit

unfoldable pub rfc850_date : Parser
unfolding date2 sp time weekday
rfc850_date = weekday >> ch_p b',' >> sp >> date2 >> sp >> time >> sp >> str_p (codes "GMT")

unfoldable pub date3 : Parser
unfolding digit month sp
date3 = month >> sp >> (times 2 digit <|> sp >> digit)

unfoldable pub asctime_date : Parser
unfolding date3 digit sp time wkday
asctime_date = wkday >> sp >> date3 >> sp >> time >> sp >> times 4 digit

unfoldable pub http_date : Parser
unfolding asctime_date rfc1123_date rfc850_date
http_date = rfc1123_date <|> rfc850_date <|> asctime_date

unfoldable pub delta_seconds : Parser
unfolding digit
delta_seconds = positive digit

unfoldable pub charset : Parser
unfolding token
charset = token

unfoldable pub content_coding : Parser
unfolding token
content_coding = token

unfoldable pub attribute : Parser
unfolding token
attribute = token

unfoldable pub value : Parser
unfolding quoted_string token
value = token <|> quoted_string

unfoldable pub parameter : Parser
unfolding attribute value
parameter = attribute >> ch_p b'=' >> value

unfoldable pub transfer_extension : Parser
unfolding parameter token
transfer_extension = token >> kleene (ch_p b';' >> parameter)

unfoldable pub transfer_coding : Parser
unfolding transfer_extension
transfer_coding = str_p (codes "chunked") <|> transfer_extension

unfoldable pub chunk_size_p : Parser
unfolding hex
chunk_size_p = assigns (positive hex)

unfoldable pub chunk_ext_name : Parser
unfolding token
chunk_ext_name = token

unfoldable pub chunk_ext_val : Parser
unfolding quoted_string token
chunk_ext_val = token <|> quoted_string

unfoldable pub chunk_extension : Parser
unfolding chunk_ext_name chunk_ext_val
chunk_extension = kleene (ch_p b';' >> chunk_ext_name >> optional (ch_p b'=' >> chunk_ext_val))

unfoldable pub chunk_data : Parser
unfolding octet
chunk_data = sized octet

unfoldable pub chunk : Parser
unfolding chunk_data chunk_extension chunk_size_p crlf
chunk = chunk_size_p >> optional chunk_extension >> crlf >> chunk_data >> crlf

unfoldable pub last_chunk : Parser
unfolding chunk_extension crlf
last_chunk = positive (ch_p b'0') >> optional chunk_extension >> crlf

unfoldable pub primary_tag : Parser
unfolding alpha
primary_tag = between 1 8 alpha

unfoldable pub subtag : Parser
unfolding alpha
subtag = between 1 8 alpha

unfoldable pub language_tag : Parser
unfolding primary_tag subtag
language_tag = primary_tag >> kleene (ch_p b'-' >> subtag)

unfoldable pub type : Parser
unfolding token
type = token

unfoldable pub subtype : Parser
unfolding token
subtype = token

unfoldable pub media_type : Parser
unfolding parameter subtype type
media_type = type >> ch_p b'/' >> subtype >> kleene (ch_p b';' >> parameter)

unfoldable pub product_version : Parser
unfolding token
product_version = token

unfoldable pub product : Parser
unfolding product_version token
product = token >> optional (ch_p b'/' >> product_version)

unfoldable pub qvalue : Parser
unfolding digit
qvalue =
    ch_p b'1' >> optional (between 0 3 digit) <|> ch_p b'1' >> optional (between 0 3 (ch_p b'0'))
