-- ===== src/Lib.antt =====
-- A verification library for the Boost documentation search engine: a preprocessor, an index, a
-- searcher and an HTTP server, and some of the Boost.Asio example programs that stand in its corpus.
--
-- The search engine, below doc_searcher. parser/parser.cc walks the html files of the documentation
-- and writes one line of title, address and content for each; searcher/searcher.cc reads that file
-- into a forward and an inverted index and answers queries from it; http_server/http_server.cc
-- builds the index at its start and answers `GET /searcher`. They share common/util.hpp, and the
-- file of lines is all that the preprocessor and the server share.
-- - Util.antt: common/util.hpp, `Util::Read` is `read` and `Util::Split` is `split`.
-- - Parser.antt: parser/parser.cc, one function for each of its functions (`EnumFile` is
--   `enum_file`, `ParseTitle` is `parse_title`, and so on) and one for each loop.
-- - Index.antt: searcher/searcher.h and the class `Index` of searcher/searcher.cc. The index is
--   passed from call to call; `unordered_map` is an association list.
-- - Searcher.antt: the class `Searcher` of searcher/searcher.cc.
-- - Pipeline.antt: the preprocessor's output as the input of the index.
-- - Server.antt: http_server/http_server.cc, `main` up to `listen` and the handler.
--
-- The examples, below doc_searcher/data/input/html/boost_asio/example.
-- - Asio/Request.antt, Asio/RequestParser.antt: http/server/request.hpp, header.hpp and
--   request_parser.cpp; a call of `consume` is a step from a state and a request to a state, a
--   request and a result.
-- - Asio/Reply.antt, Asio/MimeTypes.antt, Asio/RequestHandler.antt: http/server/reply.cpp,
--   mime_types.cpp and request_handler.cpp.
-- - Asio/Connection.antt: http/server/connection.cpp and connection_manager.cpp, for one connection.
--   A completion of an asynchronous operation is a call of its handler.
-- - Asio/HttpServer.antt: http/server/server.cpp and `stop_all`, for all connections. An operation
--   that is under way is a field of its object, and a run is any sequence of completions, each with
--   any outcome (`Step`, `Reach`); the same holds of the servers and the client that follow.
-- - Asio/ChatServer.antt: the room and the sessions of chat/chat_server.cpp. Asio/ChatClient.antt:
--   the client of chat/chat_client.cpp. The writes that are under way are a list, so that two at once
--   would show. Both read from a stream of bytes as a `Reader`, whose laws each of them fills, and
--   ChatClient/Conversation.antt puts clients and server together.
-- - Asio/Nonblocking.antt: the session and the connection of nonblocking/third_party_lib.cpp; the
--   array that the session reads into and writes from is shared by both.
-- - Asio/Timeouts.antt: the channel, the sessions and their timers of timeouts/server.cpp. To move or
--   to cancel a timer wakes the actor that waits on it. Asio/TimeoutClient.antt: the client of
--   timeouts/async_tcp_client.cpp.
-- - Asio/Allocation.antt: the allocator for handlers and the echo session of allocation/server.cpp.
-- - Asio/IoServicePool.antt: http/server2/io_service_pool.cpp. IoServicePool/Server.antt: the
--   http/server2/server.cpp that spreads its connections over the pool.
-- - Asio/CoroutineParser.antt: http/server4/request_parser.cpp, the parser as a coroutine, by the
--   points where it yields. Asio/CoroutineServer.antt: the coroutine of http/server4/server.cpp.
-- - Asio/Porthopper.antt: porthopper/protocol.hpp and the subscriptions of porthopper/server.cpp,
--   whose control connections are in Porthopper/Control.antt. Porthopper/Client.antt: the loop of
--   porthopper/client.cpp as handlers of what a move from port to port waits for.
-- - Asio/Serialization.antt: serialization/connection.hpp. Asio/Stream.antt has what it and the port
--   hopper use of streams with `std::hex` and `std::setw`.
-- - Asio/Socks4.antt, Asio/ChatMessage.antt: the messages of socks4/socks4.hpp and
--   chat/chat_message.hpp; memory that a buffer refers to is the bytes that it holds.
-- - Asio/PrioritisedHandlers.antt: the queue of invocation/prioritised_handlers.cpp.
-- - Asio/Icmp: the headers of icmp/icmp_header.hpp and icmp/ipv4_header.hpp, the checksum, and the
--   pinger of icmp/ping.cpp. A wait that is cancelled has its handler called, as Asio does. The time
--   of a reply is signed, as the clock may be set back.
--
-- Strings are lists of bytes. What the programs call and do not define is an argument, with its
-- documented behaviour as a named law where a theorem needs it: cppjieba, `boost::split`
-- (`IsSplit`), `boost::filesystem`, `std::sort` (`IsSort`), the order in which a hash map is visited
-- (`VisitsAll`), jsoncpp, cpp-httplib, `lexical_cast`, hexadecimal numbers (`ReadsHex`, `IsHex`),
-- `operator new` (`IsFreshAt`), the archives of Boost and the file system. An uncaught exception, or
-- the use of a null pointer, is a result of its own.
--
-- Loops are recursion on the list that they walk. Fuel is that of `append_blocks`, the loop
-- that reads a file 512 bytes at a time, and of `execute_all`: one more than the length of the file,
-- and as many rounds as there are handlers where none is added. Each round of `append_blocks`
-- but the last takes at least one byte. `int` counters of the index do not wrap: a count is at most
-- the number of tokens of one document. The version numbers of a request wrap at 32 bits, and so
-- does the sum of the checksum.
--
-- Not modelled: printing and logging, the tests and demonstrations, the dictionary data, the
-- sockets and threads behind the examples, and the other example programs. The
-- parsers, replies and request handlers of http/server2 and http/server3 are copies of those of
-- http/server, word for word but for the namespace.
pub mod Prelude
pub mod Util
pub mod Parser
pub mod Index
pub mod Searcher
pub mod Pipeline
pub mod Server
pub mod Asio
mod Tests
