-- ===== src/Tests/Dhcpd.antt =====
-- The DHCP process, its tables and its buffer of statements at concrete inputs.
use docsis_server.Prelude.{
  ℕ, ◌+◌, ◌-◌, ◌≤◌, ◌≡◌, ◌==◌, inl, refl, true, false, not, none, some, List, [], ◌∷◌, ◌++◌,
  get_elem?, length, if◌then◌else◌, arith, done, IfDone, bytes,
}
use docsis_server.Index.{find_index}
use docsis_server.Index.Position.{position, find_index-position}
use docsis_server.SqlBuffer.{Sql, enough, max_flush, flush_sql_updates, save_sql_update}
use docsis_server.SqlBuffer.Fifo.{
  WellFormed, taken, total, EndsWith, Leaves, flush_sql_updates-EndsWith, save_sql_update-EndsWith,
}
use docsis_server.Dhcp.Nets.{ConfigNets, Message, lease_not_found, lease_reject}
use docsis_server.Dhcp.Repeats.{ignore_repeated_customers, answers, first_seen}
use docsis_server.Dhcp.Repeats.Bounds.{
  Holds, ignore_repeated_customers-length, ignore_repeated_customers-stranger,
}
use docsis_server.Dhcp.Repeats.Burst.{answers_burst}
use docsis_server.Dhcp.Database.{Answers, CacheRow, OwnerRow, ModemCache, Site, Dhcpd}
use docsis_server.Dhcp.ModemCache.{load_rows, search_cache}
use docsis_server.Dhcp.ModemCache.Lookup.{InOrder, search_front, search_cache-load_rows}
use docsis_server.Dhcp.Server.{send_positive_message}
use docsis_server.Dhcp.Server.Writes.{replies}
use docsis_server.Dhcp.Server.Replies.{Answered, send_positive_message-Answered}
use docsis_server.Dhcp.NewIp.{
  my_get_new_ip_cpe, choose_lease, cpe_nets, cpe_found, skips_cpe, search_net, start_at, scan,
  grant_cpe, used,
}
use docsis_server.Dhcp.Leases.{new_ip_cpe, my_count_allowed_ips, my_count_used_ips, count_flags}
use docsis_server.Dhcp.Server.Closed.{ShutAt, closes_with_free}
use docsis_server.Dhcp.Server.Unsettled.{Unknown, Fresh}
use docsis_server.Dhcp.Server.NewComputer.{Gives, counted, send_positive_message-Gives}
use docsis_server.Dhcp.LeaseQuery.{lease_query}
use docsis_server.Dhcp.LeaseQuery.ByAddress.{NoAddress, lease_query-NoAddress}

-- The network of relay 7 for dynamic addresses of computers, 101 … 110.
abbrev net : ConfigNets
net = record {
  nettype = 2;
  cmts_ip = 7;
  cmts_vlan = 3;
  network = 96;
  mask = 4294967264;
  broadcast = 127;
  gateway = 100;
  grant_flag = 1;
  dynamic_flag = 1;
  full_flag = 0;
  lease_time = 600;
  range_min = 101;
  range_max = 110;
  last_used_ip = 105;
  opt1 = 0;
  opt2 = 0;
  opt3 = 0;
}

-- A message of a computer behind modem 60 and relay 7, with its hardware address type and `ciaddr`.
abbrev message : ℕ → ℕ → Message
message htype ciaddr = record {
  hops = 0;
  htype = htype;
  hlen = 6;
  flags = 0;
  xid = 99;
  ciaddr = ciaddr;
  giaddr = 7;
  macaddr = 0 ∷ 0 ∷ 0 ∷ 0 ∷ 0 ∷ 50 ∷ [];
  message_type = 1;
  docsis_modem = 0;
  request_addr = 0;
  agent_mac_len = 8;
  agentid = [];
  modem_mac = 0 ∷ 0 ∷ 0 ∷ 0 ∷ 0 ∷ 60 ∷ [];
  modem_macaddr = 0 ∷ 0 ∷ 0 ∷ 0 ∷ 0 ∷ 60 ∷ [];
  client_ident_len = 0;
  model = [];
  vendor = [];
  serial = 0;
  host_name = [];
  server_ip = 1;
  b_macaddr = 50;
  b_modem_macaddr = 60;
  ipaddr = 0;
  b_ipaddr = 0;
  mcache = 0;
  cfname = [];
  vlan = 0;
  subnum = 0;
  static_ip = 0;
  static_cur = 0;
  dynamic_ip = 0;
  dynamic_cur = 0;
  netptr = 0;
  opt = 0;
  lease_type = 0;
  cpe_type = 0;
  lockip = 0;
  lease_time = 0;
}

abbrev owner : OwnerRow
owner = record {
  macaddr = bytes "000000000032";
  subnum = 9;
  dynamic_flag = true;
  modem_macaddr = bytes "00000000003c";
  seconds_left = 300;
}

-- A database that knows modem 60, which may have one dynamic address, who has address 105, and no other
-- lease.
abbrev database : Answers
database = record {
  bad_mac = λ mac. false;
  cm_address = λ mac. none;
  modem = λ mac. none;
  model_listed = λ name. some false;
  vendor_file = λ name. some none;
  lease = λ mac. none;
  prelease = λ mac. none;
  cm_free = λ ip. true;
  cpe_free = λ ip. not (ip == 105);
  allowed = λ mac. if mac == 60 then some (9, 0, 1) else none;
  used_dynamic = λ mac subnum. [];
  modems = none;
  lease_owner = λ ip. if ip == 105 then some owner else none;
  modem_owner = λ ip. none;
  opt_value = λ opt_id mac. none;
  file_of_mac = λ mac. none;
  cm_agent = λ mac. none;
  cpe_agent = λ mac. none;
}

abbrev site : Site
site = record {
  now = 1000;
  high_load = false;
  server_id = 1;
  managed = true;
  use_subnum = false;
  assign_new = true;
  modem_default = false;
  default_file = [];
  answers = λ events. database;
  accepts = λ events w. true;
}

abbrev dhcpd : List ModemCache → Dhcpd
dhcpd cache = record {
  nets = net ∷ [];
  seen = [];
  cache = cache;
  cache_time = 900;
  opts = [];
  mac_opts = [];
  events = [];
}

send_positive_message-Answered_example :
    IfDone (Answered 2 []) (send_positive_message site (message 1 0) 2 (dhcpd []))
unfolding replies
send_positive_message-Answered_example =
    send_positive_message-Answered site (message 1 0) 2 (dhcpd []) refl

-- The message with the counts of modem 60, and with its address.
abbrev counts : Message
counts = record (message 1 0) { subnum = 9; static_ip = 0; dynamic_ip = 1 }

abbrev gets : Message
gets = grant_cpe (2, 1) counts net 106

gets_106 :
    my_get_new_ip_cpe 1 database.cpe_free true (counted site (message 1 0) (dhcpd [])) (net ∷ [])
    ≡ (some gets, used 106 net ∷ [])
unfolding my_get_new_ip_cpe choose_lease cpe_nets cpe_found skips_cpe search_net start_at scan
    my_count_used_ips my_count_allowed_ips count_flags
gets_106 = refl

no_rows : Unknown site (message 1 0) (dhcpd [])
no_rows = record { good = refl; no_modem = refl; no_lease = refl; no_prelease = refl }

from_computer : Fresh (message 1 0)
from_computer = record { computer = refl; relayed = omega arith; unsettled = refl }

send_positive_message-Gives_example :
    Gives 106 [] (send_positive_message site (message 1 0) 2 (dhcpd []))
    × (database.cpe_free 106 ≡ true)
unfolding replies
send_positive_message-Gives_example =
    send_positive_message-Gives site (message 1 0) gets 2 (dhcpd []) (used 106 net ∷ []) no_rows
      from_computer tt refl (omega arith) (λ es opt_id b_mac. refl) refl (omega arith) refl gets_106
      (omega arith) (omega arith)

lease_query-NoAddress_example : IfDone (NoAddress []) (lease_query site (message 0 105) (dhcpd []))
unfolding replies
lease_query-NoAddress_example =
    lease_query-NoAddress site (message 0 105) (dhcpd []) (inl refl) (ground arith) refl

find_index-position_example : find_index (3 ∷ 5 ∷ 8 ∷ []) 5 ≡ done (position 5 (3 ∷ 5 ∷ 8 ∷ []))
find_index-position_example = find_index-position (3 ∷ 5 ∷ 8 ∷ []) 5 (omega arith)

abbrev row : ℕ → CacheRow
row mac = record {
  modmac = some mac;
  ipaddr = some 105;
  vlan = some 3;
  subnum = none;
  config_file = some (bytes "boot");
  static_ip = none;
  dynamic_ip = none;
  config_opt = none;
}

rows-InOrder : InOrder (row 40 ∷ row 50 ∷ [])
rows-InOrder = ((λ mac e. ((λ mac' e'. ground (arith, e, e')), tt)), ((λ mac e. tt), tt))

search_cache-load_rows_example :
    search_cache (message 1 0) (dhcpd (load_rows (row 40 ∷ row 50 ∷ [])))
    ≡ search_front (message 1 0) (dhcpd (load_rows (row 40 ∷ row 50 ∷ [])))
search_cache-load_rows_example =
    search_cache-load_rows (message 1 0) (dhcpd (load_rows (row 40 ∷ row 50 ∷ [])))
      (row 40 ∷ row 50 ∷ []) rows-InOrder refl

ignore_repeated_customers-length_example :
    length (ignore_repeated_customers 1000 (message 1 0) []).1 ≤ 99
ignore_repeated_customers-length_example =
    ignore_repeated_customers-length 1000 (message 1 0) [] (omega arith)

ignore_repeated_customers-stranger_example :
    (ignore_repeated_customers 1000 (message 1 0) []).0 ≡ (lease_not_found, message 1 0)
    × Holds (first_seen 1000 (message 1 0)) (ignore_repeated_customers 1000 (message 1 0) []).1
ignore_repeated_customers-stranger_example =
    ignore_repeated_customers-stranger 1000 (message 1 0) [] tt

abbrev times : List ℕ
times = 1001 ∷ 1003 ∷ 1004 ∷ 1005 ∷ 1008 ∷ 1012 ∷ []

answers_burst_example : get_elem? (answers (message 1 0) (1000 ∷ times) []) 6 ≡ some lease_reject
answers_burst_example =
    answers_burst (message 1 0) 1000 times 6 refl (ground arith) (omega arith) (omega arith)
      (omega arith) (omega arith)

abbrev waiting : Sql
waiting = record { queue = bytes "a" ∷ []; stub = false; buf_cnt = 1; buf_bytes = 2; executed = [] }

waiting_lem : WellFormed waiting
unfolding total
waiting_lem = record { whole = refl; counted = refl; measured = refl }

flush_sql_updates-EndsWith_example :
    EndsWith (taken waiting) (flush_sql_updates waiting)
    × Leaves (length (bytes "a" ∷ []) - (max_flush waiting + 1)) (flush_sql_updates waiting)
flush_sql_updates-EndsWith_example = flush_sql_updates-EndsWith waiting waiting_lem

save_sql_update-EndsWith_example :
    EndsWith
      (taken waiting ++ (bytes "b" ∷ []))
      (save_sql_update false false enough (bytes "b") waiting)
save_sql_update-EndsWith_example =
    save_sql_update-EndsWith false false (bytes "b") waiting waiting_lem (omega arith)

-- Only 101, the lowest address of the network, is free; another relay has a network, too.
abbrev low_site : Site
low_site = record site { answers = λ events. record database { cpe_free = λ ip. ip == 101 } }

abbrev low_dhcpd : Dhcpd
low_dhcpd = record (dhcpd []) { nets = net ∷ record net { cmts_ip = 8 } ∷ [] }

none_found :
    (my_get_new_ip_cpe 1
      (λ ip. ip == 101)
      true
      (counted low_site (message 1 0) low_dhcpd)
      (net ∷ record net { cmts_ip = 8 } ∷ [])).0
    ≡ none
unfolding my_get_new_ip_cpe choose_lease cpe_nets cpe_found skips_cpe search_net start_at scan
    my_count_used_ips my_count_allowed_ips count_flags
none_found = refl

searched :
    skips_cpe
      (choose_lease true (counted low_site (message 1 0) low_dhcpd))
      (counted low_site (message 1 0) low_dhcpd)
      net
    ≡ false
unfolding choose_lease skips_cpe my_count_used_ips my_count_allowed_ips count_flags
searched = refl

closes_with_free_example :
    ((new_ip_cpe low_site (message 1 0) low_dhcpd).0 ≡ counted low_site (message 1 0) low_dhcpd)
    × ShutAt 101 0 (new_ip_cpe low_site (message 1 0) low_dhcpd).1.nets
closes_with_free_example =
    closes_with_free low_site (message 1 0) low_dhcpd 0 net (omega arith) none_found refl searched
      (omega arith)
