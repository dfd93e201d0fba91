-- ===== src/Address.antt =====
-- src/address.cc and include/address.h: socket addresses. Text and memory are lists of bytes. What the
-- resolver of the system answers is a parameter.
pub mod Lookup
pub mod Parts
pub mod Masks
pub mod Prefix
pub mod Networks
pub mod Compare
pub mod Order
pub mod Text
pub mod Compressed
pub mod Ipv4
pub mod Subnets
pub mod Dotted
pub mod Interfaces
pub mod Netmasks
pub mod Numeric
pub mod Unix
pub mod Paths
pub mod Tests
