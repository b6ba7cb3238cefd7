-- ===== src/Lib.antt =====
-- docsis_server: a DHCP, TFTP, TOD and syslog server for DOCSIS cable networks, in C.
--
-- Each protocol is a process of its own. The TFTP process (src/tftpd-tftpd.c) answers read requests of
-- cable modems from a file cache (src/tftpd-file_cache.c) that holds static files of the TFTP directory
-- and config files generated per modem from the database. The DHCP process gives out addresses from the
-- networks of a table (src/mysql-config_nets.c, src/mysql-newip.c): src/dhcpd-dhcpd.c takes a message,
-- searches for its sender (src/mysql-findmac.c, src/mysql-findip.c) in tables in memory
-- (src/mysql-cache_dhcp_conf.c) and in the database, and replies. Statements that may wait go through
-- the buffer of src/mysql-utilities.c.
--
-- Files:
-- - Prelude and Prelude/: Boolean tests and lists over the native numbers, the result type Run, whose
--   value `fault` stands for undefined behaviour, and strings as lists of bytes.
-- - Tftp/Blocks: struct file_block, and the loops that cut a file into blocks.
-- - Tftp/Cache: struct file_cache, the globals thecache and file_number, and each operation of
--   src/tftpd-file_cache.c under its own name. The doubly linked list is a list of entries, oldest
--   first. The children hold the proofs: Sweep, Kept and Expiry about free_file_cache, Invariant and
--   Lookup about the order of the file numbers, StaticFile and Serving about read_static_file.
-- - Tftp/Session: struct client, struct stats, nak and my_sendfile of src/tftpd-tftpd.c, cut where the
--   function's own blocks are. The datagrams given to sendto are part of the result. A block pointer is
--   the pair of its file's number and its block's number; following it when the file has left the cache
--   is a fault. The children hold the proofs.
-- - Tftp/Download, Tftp/DynamicDownload: cache and session put together.
-- - Tftp/Request: tftp and validate_access of src/tftpd-tftpd.c, on the bytes of a packet.
-- - Tftp/Server: clientlist and clientlistcnt, newclient, findclient, freeclient, runclient, process and
--   runtimer. A pointer to a client is its place in the list: the clients before it and behind it.
-- - Tftp/ModemTable: src/mysql-cache_tftp_conf.c, the settings of the modems that the generated files are
--   made for. The loop over a list of numbers runs on one round for each byte of the list, of which each
--   round takes one unless it is stuck. A row is read by two copies of the same code, load_row and query_row.
--   Copies, Dynamic and Search hold the proofs.
-- - Dhcp/Nets: struct config_nets and the functions of src/mysql-config_nets.c on the table my_nets;
--   Dhcp/LoadNets: how my_Load_Nets fills it from the rows of the database. Addresses are in host order.
-- - Dhcp/NewIp: my_getNewIP_CM and my_getNewIP_CPE of src/mysql-newip.c, which search the table for a
--   free address. Whether one is free in the database is a parameter. The search of a range runs on the
--   number of its addresses.
-- - Dhcp/Options: addOpt, addBigOpt and the walk of DecodeOptions of src/dhcpd-options.c. The walk runs on
--   fuel one above the number of bytes, of which each round takes two.
-- - Dhcp/Repeats: ignore_repeated_customers of src/mysql-cache_dhcp_conf.c. Bounds and Burst hold the
--   proofs.
-- - Dhcp/Database: the process's state Dhcpd, with its tables and the list of its events (statements and
--   replies, the last first), and the record Site of its settings, clock and database. An answer of the
--   database, and whether it accepts a statement, may depend on all events so far.
-- - Dhcp/Leases: the statements of src/mysql-update_leases.c, src/mysql-update_modems.c and
--   src/mysql-newip.c. Dhcp/ModemCache: the rest of src/mysql-cache_dhcp_conf.c; Lookup holds the proofs.
-- - Dhcp/FindMac, Dhcp/FindIp: my_findMAC and my_findIP, with my_findAgent. Dhcp/OptCache: my_Get_Opt of
--   src/mysql-config_opts.c.
-- - Dhcp/QueryOpt: Query_Opt and Convert_Opt of src/mysql-config_opts.c. Sets stand within sets, so it runs
--   on their depth; only a set within itself has none. Whole holds the proofs. Strtoul: strtoul and strtol.
-- - Dhcp/Server, Dhcp/LeaseQuery: the handlers of src/dhcpd-dhcpd.c and the dispatch by message type. The
--   children of Server follow a message through the searches (Writes, NewAddress, Caches, Searches) to the
--   packet (Packet) and the reply (Replies), and one of a new computer to its address (Unsettled, NewComputer);
--   Closed follows the whole of my_getNewIP_CPE where it gives none; ByAddress follows a lease query.
-- - Index: the search by halves that three files write out; its fuel is the number of entries, of which
--   each round drops one at least.
-- - SqlBuffer: src/mysql-utilities.c. The linked list from buffer to end_buf is a list; Fifo holds the
--   proofs.
-- - ConfigFile: src/util_configfile.c. The loop over the lines runs on a round for each byte of the file and
--   one more, and each round takes a byte at least; Written holds the proofs.
-- - MacAddr: src/util_macaddr.c.
-- - Tests: witnesses at concrete inputs.
--
-- The clock, the disk, memory, errno and the database are the records World, Net and Env, arguments of the
-- operations. The loops that read blocks run on fuel one above the number of bytes, and the loops of
-- free_file_cache on n * n + n + 1 rounds for n entries: each round moves on or deletes an entry.
-- Unsigned counters wrap at 2 ^ 32.
--
-- Not modelled: sockets, select and signals, the log, SQL queries, the config generator, the DHCP
-- capability parsers, and the other protocol processes.
pub mod Prelude
pub mod MacAddr
pub mod Index
pub mod Strtoul
pub mod ConfigFile
pub mod SqlBuffer
pub mod Tftp
pub mod Dhcp
mod Tests
