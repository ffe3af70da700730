-- ===== src/Lib.antt =====
-- Arachnida: a library of HTTP servers and clients in C++.
--
-- The program's parts:
-- - lib/Acari has the codecs, the parsing of HTTP headers and the attributes that hang on connections.
-- - lib/Spin is the server. The connection handler's thread waits for descriptors with `select` and
--   calls the call-back of a connection or a UDP socket. For HTTP that is `HTTPDataHandler::onDataReady`:
--   it reads from the connection, takes up the request that an earlier call left in the connection's
--   attribute, and gives each complete request to the request handler, a queue that other threads empty.
-- - lib/Damon is the client: it parses a URL, serializes a request, and reads the response.
-- - lib/Scorpion wraps OpenSSL: security contexts, which share what they build, and the BIOs that a
--   connection reads and writes. lib/Agelena logs.
--
-- The files, and the code that they are about:
-- - Base and its children: bytes, lists over the native numbers, results and exceptions, Boolean tests,
--   shared lemmas.
-- - Acari/Base64: lib/Acari/base64encode.cpp, the loops of `base64encode` and `base64decode` over indices
--   of 32 bits and a buffer; Groups describes base64 without either. Acari/UrlCoding: lib/Acari/urlencode.cpp.
-- - Acari/ParsingHelpers: lib/Acari/ParsingHelpers.hpp. `find_header_end` is `findHeaderEnd`,
--   `split_header` is `splitHeader`, `extract_request_header` is `extractRequestHeader`, and so on.
--   CutLine: what it makes of a part of a first line.
-- - Acari/Attributes: lib/Acari/Attributes.cpp. Acari/ThreadLocal: lib/Acari/ThreadLocalStorage.cpp.
-- - Spin/Message: lib/Spin/Details/Header.h and Request.cpp. Spin/Response: lib/Spin/Details/Response.cpp.
-- - Spin/DataHandler: lib/Spin/Handlers/HTTPDataHandler.cpp. `get_request` is the loop that parses or
--   takes up a request, `read_headers` the loop over header fields, `take_body` the part on
--   `Content-Length`, `rounds` the way back by `goto`, and `on_data_ready` a whole call.
-- - Spin/RequestHandler: lib/Spin/Handlers/HTTPRequestHandler.cpp.
-- - Spin/ConnectionHandler: lib/Spin/Private/ConnectionHandler.cpp, as a step relation: a step is a
--   critical section of some thread. ConnectionHandler/Worker: the worker's phases between them.
-- - Spin/Connection: lib/Spin/Connection.cpp. Spin/UdpSocket: lib/Spin/UDPSocket.cpp.
--   Spin/Pipe: lib/Spin/Private/Pipe.cpp, with its constructor in Pipe/Ends.
--   Spin/HexAdapter: `dehex` of lib/Spin/Private/Grammar.h.
--   Spin/Address: lib/Spin/Details/Address.h, and the strings of lib/Spin/Connector.cpp and Listener.cpp.
--   Spin/Listener: lib/Spin/Listener.cpp.
-- - Spin/Grammar: lib/Spin/Private/Grammar.h, each rule as a term over the combinators of Boost.Spirit;
--   Basic, Uri, Values, Fields, Headers, Entities and Messages hold the rules, Spirit what is
--   documented of the combinators, as laws of a relation that stands for Spirit. Interpreter computes
--   what the laws give (Sound), Chars says what parsers of one character take. Requests, Chunks,
--   StatusCodes, StatusLines and Hosts follow the rules of these names.
-- - Spin/HttpConnections: lib/Spin/Handlers/HTTPConnectionHandler.cpp.
-- - Spin/Exceptions: lib/Spin/Exceptions. Scorpion/ProtocolError: lib/Scorpion/Exceptions/SSL.cpp.
-- - Damon/Message: lib/Damon/Request.h, Response.h and Details/Header.cpp. Damon/Url:
--   lib/Damon/Private/parseURL.cpp. Damon/Serialize: `serialize` of lib/Damon/Request.cpp. Damon/Session:
--   the search of `send` for a connection, in the same file. Damon/Reading and
--   Damon/Reception: `getResponse`, in the same file; `get_start` is its loop that reads or takes up a
--   response, `read_headers` the loop over header fields, `take_body` the part on `Content-Length`,
--   `attempts` the way back to `retry`, and `get_responses` the loop of `send` over several requests. Damon/Sending:
--   `send` of one request. Damon/Pipelining: `send` of several, `send_requests` here.
-- - Scorpion/Enumerators, Flags and Context: lib/Scorpion/Context.h and Context.cpp. `get_context` is
--   `getContext`, `set` a setter with its `copyOnWrite`. Scorpion/Program: several contexts and the
--   holders they share, with the operations as commands. Scorpion/Bio: lib/Scorpion/BIO.cpp.
--   Scorpion/Startup: lib/Scorpion/Private/OpenSSL.cpp.
-- - Acari/Tests, Spin/Tests, Damon/Tests and Scorpion/Tests: runs at concrete inputs.
--
-- State is passed explicitly: a method takes the object as a record and returns the new one. An
-- exception is a value of `Exception`. An iterator is the list of the bytes from it on. What the system,
-- OpenSSL and boost answer (`recvfrom`, `select`, a BIO's `read`, `lexical_cast`, `regex_match`) are
-- arguments; the theorems that need something of them have it as a hypothesis.
--
-- Fuel: `read_headers` takes one more than the bytes that are left, since every round that goes on takes
-- at least one byte; `rounds` takes two more than all bytes there are, since every complete request takes
-- at least one, and one round may end with the request of an earlier call. `out_of_fuel` is what a model
-- that runs out would return. `attempts` takes a round for each way back to `retry`: one is enough for a
-- response that one read brings, and where the code goes round for ever, no fuel is.
-- The loops of base64 take one round more than there are bytes, which is enough where no index wraps
-- around; the model of a loop that does not end is the empty string.
-- `null_dereference` stands for a read through a null pointer.
--
-- Not modelled: the sessions' own security contexts, logging, the classes of
-- exceptions without text, the calls that initialize OpenSSL, the end of a connection that leaves the
-- HTTP connection handler, the start and the end of the connection handler's thread, and the
-- construction of sockets other than those of a pipe. Of the grammar, `start` returns a rule that is
-- declared nowhere. That the action on a chunk's size sets it, though the adapter that it is made with
-- does not live that long, is a hypothesis of its own, `Assigns`, of what is said of chunks.
-- Locks are not modelled, but for the step relation of the connection handler
-- and the runs of the request handler, where each critical section is one step.
pub mod Base
pub mod Acari
pub mod Spin
pub mod Damon
pub mod Scorpion
