-- ===== src/Dhcp.antt =====
-- The DHCP process: its table of networks, the addresses it gives out, and the options of its packets.
pub mod Nets
pub mod Repeats
pub mod Database
pub mod Leases
pub mod ModemCache
pub mod FindMac
pub mod FindIp
pub mod OptCache
pub mod QueryOpt
pub mod Server
pub mod LeaseQuery
pub mod NewIp
pub mod LoadNets
pub mod Options
