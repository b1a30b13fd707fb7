-- ===== src/Asio/Icmp.antt =====
-- doc_searcher/data/input/html/boost_asio/example/icmp: the headers of ICMP messages and of IPv4
-- packets.
pub mod IcmpHeader
pub mod Ipv4Header
pub mod Checksum
pub mod Accepting
pub mod Accepted
pub mod Ping
