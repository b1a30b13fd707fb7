-- ===== src/Asio.antt =====
-- The example programs of Boost.Asio that stand in the documentation corpus, below
-- doc_searcher/data/input/html/boost_asio/example.
pub mod Request
pub mod RequestParser
pub mod Reply
pub mod MimeTypes
pub mod RequestHandler
pub mod Connection
pub mod HttpServer
pub mod Icmp
pub mod Socks4
pub mod ChatMessage
pub mod PrioritisedHandlers
pub mod ChatServer
pub mod ChatClient
pub mod Timeouts
pub mod Allocation
pub mod TimeoutClient
pub mod IoServicePool
pub mod CoroutineParser
pub mod CoroutineServer
pub mod Stream
pub mod Nonblocking
pub mod Porthopper
pub mod Serialization
