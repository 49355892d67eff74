-- ===== src/Transport.antt =====
-- What the service sends and calls over the network: the lines of a stream to the browser
-- (api/utils/sse.go) and the connections by ssh (api/utils/ssh_transport.go).
pub mod Sse
pub mod Pool
mod Tests
