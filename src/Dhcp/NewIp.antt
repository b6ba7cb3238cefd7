-- ===== src/Dhcp/NewIp.antt =====
-- src/mysql-newip.c: an address for a modem or for a computer behind one.
pub mod Scan
pub mod Given
pub mod Exhausted
use docsis_server.Prelude.{
  ℕ, zero, suc, ◌+◌, ◌-◌, ◌*◌, ◌/◌, ◌%◌, Bool, true, false, ◌&&◌, ◌||◌, not, Option, none, some,
  List, [], ◌∷◌, ltb, leb, ◌==◌, if◌then◌else◌,
}
use docsis_server.Dhcp.Nets.{
  ConfigNets, Message, span, lease_cm, lease_cpe, lease_mta, lease_noauth, cpe_static, cpe_dynamic,
}

-- The search loop: the first of the `n` addresses from `ss` on that the database has no lease for.
unfoldable pub scan : (ℕ → Bool) → ℕ → ℕ → Option ℕ
scan free zero ss = none
scan free (suc n) ss = let rest = scan free n (ss + 1) in if free ss then some ss else rest

-- Where the search starts.
unfoldable pub start_at : ConfigNets → ℕ
start_at net =
    let last = if ltb net.last_used_ip net.range_min then net.range_min else net.last_used_ip in
    if leb net.range_max last then net.range_min else last

unfoldable pub search_net : (ℕ → Bool) → ConfigNets → Option ℕ
search_net free net = scan free (span (start_at net) net.range_max) (start_at net)

abbrev pub used : ℕ → ConfigNets → ConfigNets
used ip net = record net { last_used_ip = (ip + 1) % 4294967296 }

abbrev pub rewound : ConfigNets → ConfigNets
rewound net = record net { last_used_ip = 0 }

-- The networks that my_getNewIP_CM passes over.
unfoldable pub skips_cm : Message → ConfigNets → Bool
skips_cm m net =
    (not (net.nettype == lease_cm) && m.docsis_modem == 1)
    || (not (net.nettype == lease_mta) && m.docsis_modem == 2)
    || not (net.cmts_ip == m.giaddr)
    || not (net.cmts_vlan == m.vlan)
    || net.full_flag == 1

abbrev pub grant_cm : Message → ConfigNets → ℕ → Message
grant_cm m net ip = record m {
  lease_type = if m.docsis_modem == 1 then lease_cm else lease_mta;
  ipaddr = ip;
  b_ipaddr = ip;
  lease_time = net.lease_time;
}

-- The message with its new address, which is written to the database, if there is one; the networks.
abbrev pub Search : Type 0
Search = Option Message × List ConfigNets

abbrev pub past : ConfigNets → Search → Search
past net (given, nets) = (given, net ∷ nets)

unfoldable pub cm_found : Message → ConfigNets → List ConfigNets → Search → Option ℕ → Search
cm_found m net nets rest none = past (rewound net) rest
cm_found m net nets rest (some ip) = (some (grant_cm m net ip), used ip net ∷ nets)

-- The loop of my_getNewIP_CM, with the test of server_id before it.
unfoldable pub cm_nets : (ℕ → Bool) → Message → List ConfigNets → Search
cm_nets free m [] = (none, [])
cm_nets free m (net ∷ nets) =
    let rest = cm_nets free m nets in
    if skips_cm m net then past net rest else cm_found m net nets rest (search_net free net)

unfoldable pub my_get_new_ip_cm : ℕ → (ℕ → Bool) → Message → List ConfigNets → Search
my_get_new_ip_cm server_id free m nets =
    if ltb 1 server_id then (none, nets) else cm_nets free m nets

-- Which kind of address a computer is due: its lease type and its cpe type. `managed` is the setting
-- dhcp-ip-mgmt.
unfoldable pub choose_lease : Bool → Message → ℕ × ℕ
choose_lease managed m =
    if ltb m.static_cur m.static_ip
    then (lease_cpe, cpe_static)
    else if ltb m.dynamic_cur m.dynamic_ip
    then (lease_cpe, cpe_dynamic)
    else if managed
    then (lease_noauth, cpe_static)
    else if ltb 0 m.static_ip
    then (lease_cpe, cpe_static)
    else (lease_cpe, cpe_dynamic)

unfoldable pub skips_cpe : ℕ × ℕ → Message → ConfigNets → Bool
skips_cpe (lease_type, cpe_type) m net =
    not (net.cmts_ip == m.giaddr)
    || net.grant_flag == 0
    || net.full_flag == 1
    || not (net.nettype == lease_type)
    || not (net.dynamic_flag == cpe_type)

abbrev pub grant_cpe : ℕ × ℕ → Message → ConfigNets → ℕ → Message
grant_cpe (lease_type, cpe_type) m net ip = record m {
  lease_type = lease_type;
  cpe_type = cpe_type;
  ipaddr = ip;
  b_ipaddr = ip;
  vlan = net.cmts_vlan;
  lease_time = net.lease_time;
}

-- A network without a free address from its last one on is flagged full, here and in the database.
abbrev pub closed : ConfigNets → ConfigNets
closed net = record net { full_flag = 1; last_used_ip = 0 }

unfoldable pub cpe_found :
    ℕ × ℕ → Message → ConfigNets → List ConfigNets → Search → Option ℕ → Search
cpe_found kind m net nets rest none = past (closed net) rest
cpe_found kind m net nets rest (some ip) = (some (grant_cpe kind m net ip), used ip net ∷ nets)

-- The first loop of my_getNewIP_CPE.
unfoldable pub cpe_nets : (ℕ → Bool) → ℕ × ℕ → Message → List ConfigNets → Search
cpe_nets free kind m [] = (none, [])
cpe_nets free kind m (net ∷ nets) =
    let rest = cpe_nets free kind m nets in
    if skips_cpe kind m net
    then past net rest
    else cpe_found kind m net nets rest (search_net free net)

-- The first loop of my_getNewIP_CPE, up to the message that no address is left; the counts are already in
-- the message. new_ip_cpe of Dhcp/Leases is the whole function.
unfoldable pub my_get_new_ip_cpe : ℕ → (ℕ → Bool) → Bool → Message → List ConfigNets → Search
my_get_new_ip_cpe server_id free managed m nets =
    if ltb 1 server_id then (none, nets) else cpe_nets free (choose_lease managed m) m nets
