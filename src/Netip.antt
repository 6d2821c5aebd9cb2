-- ===== src/Netip.antt =====
-- The standard library's net/netip, as far as the operator uses it.
pub mod Addr
pub mod AddrPort
pub mod Parse
pub mod Print
pub mod RoundTrip
pub mod Laws
pub mod ParseLaws
