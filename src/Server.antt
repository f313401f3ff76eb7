-- ===== src/Server.antt =====
-- crates/flowspec-server: the connector to the platform, and the errors of the MCP server. The HTTP
-- client and the reading of payloads by serde are parameters.
pub mod Pump
pub mod Poller
pub mod Failures
pub mod Devkitd
pub mod WireEvent
