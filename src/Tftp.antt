-- ===== src/Tftp.antt =====
-- The TFTP server (src/tftpd-tftpd.c, src/tftpd-file_cache.c).
pub mod Blocks
pub mod Cache
pub mod Session
pub mod Download
pub mod DynamicDownload
pub mod Request
pub mod ModemTable
pub mod Server
