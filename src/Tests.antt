-- ===== src/Tests.antt =====
-- Runs of the model at concrete inputs, and each theorem with hypotheses at an input that meets them.
mod TftpCache
mod TftpSession
mod TftpServer
mod DhcpNets
mod Bytes
mod Dhcpd
mod ConfigFile
mod QueryOpt
mod ModemTable
