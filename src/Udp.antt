-- ===== src/Udp.antt =====
-- UDP forwarding of base_tunnel/udp_proxy.go and base_tunnel/udp_datagram.go.
pub mod Frame
pub mod Reassembler
pub mod Link
pub mod Proxy
pub mod Send
pub mod Flows
pub mod Receive
pub mod Channel
pub mod Session
pub mod Sample
