-- ===== src/Json.antt =====
-- ops/lib/strict-json.ts: the JSON parser that bounds the depth and rejects duplicate keys.
pub mod Strings
pub mod Number
pub mod Parser
pub mod Shorter
pub mod Progress
pub mod Ensured
pub mod Accepted
pub mod Print
pub mod RoundTrip
pub mod Tests
