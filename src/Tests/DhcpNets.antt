-- ===== src/Tests/DhcpNets.antt =====
-- The network table and the search for addresses at concrete inputs.
use docsis_server.Prelude.{
  ℕ, ◌≤◌, ◌≡◌, ◌==◌, inl, refl, Bool, true, false, not, none, some, [], ◌∷◌, ◌++◌, map, arith,
}
use docsis_server.Dhcp.Nets.{ConfigNets, Message, Counts, Every, count_unused_ip}
use docsis_server.Dhcp.Nets.Unused.{IsOpen, count_unused_ip-IsOpen}
use docsis_server.Dhcp.NewIp.{
  scan, start_at, search_net, used, skips_cm, skips_cpe, grant_cm, grant_cpe, cm_nets, cpe_nets,
  cm_found, cpe_found, choose_lease, my_get_new_ip_cm, my_get_new_ip_cpe,
}
use docsis_server.Dhcp.NewIp.Given.{Serves, my_get_new_ip_cm-Serves, my_get_new_ip_cpe-Serves}
use docsis_server.Dhcp.NewIp.Exhausted.{Exhausted, my_get_new_ip_cpe-Exhausted}
use docsis_server.Dhcp.LoadNets.{
  Row, Leases, network_fits, ranges_fit, inside, broadcast_of, hosts, entry_of, my_load_nets,
}
use docsis_server.Dhcp.LoadNets.Ranges.{
  AllAccepted, InOrder, net_of, load-InOrder, load_keeps_refused,
}

-- A network of that type and dynamic flag for the addresses 101 … 110, last used at 105.
abbrev net : ℕ → ℕ → ConfigNets
net type dynamic = record {
  nettype = type;
  cmts_ip = 7;
  cmts_vlan = 3;
  network = 96;
  mask = 4294967264;
  broadcast = 127;
  gateway = 100;
  grant_flag = 1;
  dynamic_flag = dynamic;
  full_flag = 0;
  lease_time = 600;
  range_min = 101;
  range_max = 110;
  last_used_ip = 105;
  opt1 = 0;
  opt2 = 0;
  opt3 = 0;
}

-- A message from relay 7: a modem or not, allowed one dynamic address.
abbrev message : ℕ → Message
message modem = record {
  hops = 0;
  htype = 1;
  hlen = 6;
  flags = 0;
  xid = 99;
  ciaddr = 0;
  giaddr = 7;
  macaddr = [];
  message_type = 1;
  docsis_modem = modem;
  request_addr = 0;
  agent_mac_len = 8;
  agentid = [];
  modem_mac = [];
  modem_macaddr = [];
  client_ident_len = 0;
  model = [];
  vendor = [];
  serial = 0;
  host_name = [];
  server_ip = 1;
  b_macaddr = 50;
  b_modem_macaddr = 60;
  ipaddr = 0;
  b_ipaddr = 0;
  mcache = 0;
  cfname = [];
  vlan = 3;
  subnum = 0;
  static_ip = 0;
  static_cur = 0;
  dynamic_ip = 1;
  dynamic_cur = 0;
  netptr = 0;
  opt = 0;
  lease_type = 0;
  cpe_type = 0;
  lockip = 0;
  lease_time = 0;
}

-- All but 105 are free; none is free.
abbrev most : ℕ → Bool
most ip = not (ip == 105)

abbrev nothing : ℕ → Bool
nothing ip = false

cpe_gets_106 :
    my_get_new_ip_cpe 0 most true (message 0) (net 2 1 ∷ [])
    ≡ (some (grant_cpe (2, 1) (message 0) (net 2 1) 106), used 106 (net 2 1) ∷ [])
unfolding my_get_new_ip_cpe choose_lease cpe_nets cpe_found skips_cpe search_net start_at scan
cpe_gets_106 = refl

my_get_new_ip_cpe-Serves_example :
    Serves most (grant_cpe (2, 1) (message 0) (net 2 1) 106) (used 106 (net 2 1) ∷ [])
my_get_new_ip_cpe-Serves_example =
    my_get_new_ip_cpe-Serves 0 most true (message 0) (grant_cpe (2, 1) (message 0) (net 2 1) 106)
      (net 2 1 ∷ []) (used 106 (net 2 1) ∷ []) cpe_gets_106

cm_gets_106 :
    my_get_new_ip_cm 0 most (message 1) (net 1 0 ∷ [])
    ≡ (some (grant_cm (message 1) (net 1 0) 106), used 106 (net 1 0) ∷ [])
unfolding my_get_new_ip_cm cm_nets cm_found skips_cm search_net start_at scan
cm_gets_106 = refl

my_get_new_ip_cm-Serves_example :
    Serves most (grant_cm (message 1) (net 1 0) 106) (used 106 (net 1 0) ∷ [])
my_get_new_ip_cm-Serves_example =
    my_get_new_ip_cm-Serves 0 most (message 1) (grant_cm (message 1) (net 1 0) 106) (net 1 0 ∷ [])
      (used 106 (net 1 0) ∷ []) (inl refl) cm_gets_106

no_address : (my_get_new_ip_cpe 0 nothing true (message 0) (net 2 1 ∷ [])).0 ≡ none
unfolding my_get_new_ip_cpe choose_lease cpe_nets cpe_found skips_cpe search_net start_at scan
no_address = refl

my_get_new_ip_cpe-Exhausted_example :
    Every (Exhausted nothing (choose_lease true (message 0)) (message 0)) (net 2 1 ∷ [])
my_get_new_ip_cpe-Exhausted_example =
    my_get_new_ip_cpe-Exhausted 0 nothing true (message 0) (net 2 1 ∷ []) (omega arith) no_address

count_unused_ip-IsOpen_example :
    let c : Counts = count_unused_ip most 3 7 0 (net 2 0 ∷ []) in
    (c.unused ≤ c.total) × Every (IsOpen most 3 7) c.nets
count_unused_ip-IsOpen_example = count_unused_ip-IsOpen most 3 7 0 (net 2 0 ∷ [])

-- A row whose range starts and ends there, in the network 96 / 27 with the gateway 100.
abbrev row : ℕ → ℕ → Row
row lo hi = record {
  nettype = 2;
  cmts_ip = 7;
  cmts_vlan = 3;
  network = 96;
  nmask = 27;
  gateway = 100;
  grant_flag = 1;
  dynamic_flag = 0;
  full_flag = 0;
  range_min = lo;
  range_max = hi;
  lease_time = 600;
  opt1 = 0;
  opt2 = 0;
  opt3 = 0;
}

abbrev leases : Leases
leases = record { cm_free = most; cpe_free = most }

good_row : AllAccepted (row 101 110 ∷ [])
unfolding network_fits ranges_fit inside broadcast_of hosts
good_row = ((refl, refl), tt)

load-InOrder_example :
    (my_load_nets leases (row 101 110 ∷ []) ≡ map (net_of leases) (row 101 110 ∷ []))
    × Every InOrder (map (net_of leases) (row 101 110 ∷ []))
load-InOrder_example = load-InOrder leases (row 101 110 ∷ []) good_row

bad_network : network_fits (row 101 200) ≡ true
unfolding network_fits hosts
bad_network = refl

bad_range : ranges_fit (row 101 200) ≡ false
unfolding ranges_fit inside broadcast_of hosts
bad_range = refl

load_keeps_refused_example :
    my_load_nets leases ((row 101 110 ∷ []) ++ row 101 200 ∷ [])
    ≡ map (net_of leases) (row 101 110 ∷ [])
      ++ record (entry_of (row 101 200)) { broadcast = broadcast_of (row 101 200) } ∷ []
load_keeps_refused_example =
    load_keeps_refused leases (row 101 110 ∷ []) (row 101 200) good_row bad_network bad_range
