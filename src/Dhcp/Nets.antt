-- ===== src/Dhcp/Nets.antt =====
-- src/mysql-config_nets.c: the table of networks, the search for an address in it, and its counts.
-- Addresses are in host order; the code keeps them in network order and converts them with ntohl.
pub mod Unused
use docsis_server.Prelude.{
  ℕ, zero, suc, ◌+◌, ◌-◌, ◌*◌, ◌/◌, ◌%◌, ◌^◌, Bool, true, false, ◌&&◌, ◌||◌, not, Option, none,
  some, List, [], ◌∷◌, ltb, leb, ◌==◌, if◌then◌else◌, get_elem?, Run, done, fault,
}

-- LEASE_* and NET_TYPE_*, CPE_*.
abbrev pub lease_not_found : ℕ
lease_not_found = 0

abbrev pub lease_cm : ℕ
lease_cm = 1

abbrev pub lease_cpe : ℕ
lease_cpe = 2

abbrev pub lease_mta : ℕ
lease_mta = 3

abbrev pub lease_unknown : ℕ
lease_unknown = 4

abbrev pub lease_noauth : ℕ
lease_noauth = 8

abbrev pub lease_reject : ℕ
lease_reject = 9

abbrev pub cpe_static : ℕ
cpe_static = 0

abbrev pub cpe_dynamic : ℕ
cpe_dynamic = 1

-- struct config_nets, without the texts.
pub record ConfigNets : Type 0 where
  pub nettype : ℕ
  pub cmts_ip : ℕ
  pub cmts_vlan : ℕ
  pub network : ℕ
  pub mask : ℕ
  pub broadcast : ℕ
  pub gateway : ℕ
  pub grant_flag : ℕ
  pub dynamic_flag : ℕ
  pub full_flag : ℕ
  pub lease_time : ℕ
  pub range_min : ℕ
  pub range_max : ℕ
  pub last_used_ip : ℕ
  pub opt1 : ℕ
  pub opt2 : ℕ
  pub opt3 : ℕ

-- The fields of dhcp_message that the code reads or writes, with those of in_pack (hops to macaddr) and
-- of in_opts (message_type to vendor). Numbers are in host order. `lease_time` is a long in two's
-- complement. s_macaddr, s_modem_macaddr and s_ipaddr are the texts of the numbers here. `model` and
-- `vendor` are vsi_model and vsi_vendor, `serial` the number that
-- vsi_serialno starts with.
pub record Message : Type 0 where
  pub hops : ℕ
  pub htype : ℕ
  pub hlen : ℕ
  pub flags : ℕ
  pub xid : ℕ
  pub ciaddr : ℕ
  pub giaddr : ℕ
  pub macaddr : List ℕ
  pub message_type : ℕ
  pub docsis_modem : ℕ
  pub request_addr : ℕ
  pub agent_mac_len : ℕ
  pub agentid : List ℕ
  pub modem_mac : List ℕ
  pub modem_macaddr : List ℕ
  pub client_ident_len : ℕ
  pub model : List ℕ
  pub vendor : List ℕ
  pub serial : ℕ
  pub host_name : List ℕ
  pub server_ip : ℕ
  pub b_macaddr : ℕ
  pub b_modem_macaddr : ℕ
  pub ipaddr : ℕ
  pub b_ipaddr : ℕ
  pub mcache : ℕ
  pub cfname : List ℕ
  pub vlan : ℕ
  pub subnum : ℕ
  pub static_ip : ℕ
  pub static_cur : ℕ
  pub dynamic_ip : ℕ
  pub dynamic_cur : ℕ
  pub netptr : ℕ
  pub opt : ℕ
  pub lease_type : ℕ
  pub cpe_type : ℕ
  pub lockip : ℕ
  pub lease_time : ℕ

-- Get_Net_Opts. The table has one entry more than num_nets, all zero.
unfoldable pub get_net_opts : ConfigNets → ℕ → List ConfigNets → Option ConfigNets
get_net_opts blank netid [] = none
get_net_opts blank zero (net ∷ nets) = some net
get_net_opts blank (suc netid) (net ∷ nets) = elim nets [
  | [] ↦ if netid == 0 then some blank else none
  | _ ↦ get_net_opts blank netid nets
]

-- The tests of my_Get_Net at one network.
unfoldable pub in_net : Message → ConfigNets → Bool
in_net m net =
    net.nettype == m.lease_type
    && net.cmts_vlan == m.vlan
    && (m.giaddr == 0 || net.cmts_ip == m.giaddr)
    && leb net.range_min m.b_ipaddr
    && leb m.b_ipaddr net.range_max

-- The search loop of my_Get_Net from network `sn` on: the network's number and lease time.
unfoldable pub find_net : Message → ℕ → List ConfigNets → Option (ℕ × ℕ)
find_net m sn [] = none
find_net m sn (net ∷ nets) =
    let rest = find_net m (sn + 1) nets in if in_net m net then some (sn, net.lease_time) else rest

-- my_Get_Net: whether there is an error, and the message.
unfoldable pub my_get_net : List ConfigNets → Message → Bool × Message
my_get_net nets m = elim (find_net m 0 nets) [
  | none ↦ (true, m)
  | some (sn, time) ↦ (false, record m { lease_time = time; netptr = sn })
]

unfoldable pub in_vlan : Message → ConfigNets → Bool
in_vlan m net =
    net.nettype == m.lease_type
    && net.cmts_vlan == m.vlan
    && net.cmts_ip == m.giaddr
    && leb net.range_min m.b_ipaddr
    && leb m.b_ipaddr net.range_max

unfoldable pub any_vlan : Message → List ConfigNets → Bool
any_vlan m [] = false
any_vlan m (net ∷ nets) = in_vlan m net || any_vlan m nets

-- Verify_Vlan: whether the address must be given up. No table, or no relay, is no reason.
unfoldable pub verify_vlan : List ConfigNets → Message → Bool
verify_vlan [] m = false
verify_vlan (net ∷ nets) m = not (m.giaddr == 0) && not (any_vlan m (net ∷ nets))

-- How many of the `n` addresses from `ss` on are free.
unfoldable pub count_free : (ℕ → Bool) → ℕ → ℕ → ℕ
count_free free zero ss = 0
count_free free (suc n) ss = (if free ss then 1 else 0) + count_free free n (ss + 1)

-- The number of addresses that `for( ss=lo; ss <= hi; ss++ )` visits; `hi` is below 2 ^ 32 - 1.
abbrev pub span : ℕ → ℕ → ℕ
span lo hi = hi + 1 - lo

-- A change of full_flag in the database, at that network.
pub data FullFlag : Type 0 where
  set_on set_off : ℕ → FullFlag

-- What my_CountUnusedIP leaves.
pub record Counts : Type 0 where
  pub unused : ℕ
  pub total : ℕ
  pub nets : List ConfigNets
  pub updates : List FullFlag

abbrev pub is_counted : ℕ → ℕ → ConfigNets → Bool
is_counted vlan cmts_ip net =
    net.nettype == lease_cpe
    && net.grant_flag == 1
    && net.dynamic_flag == 0
    && net.cmts_ip == cmts_ip
    && net.cmts_vlan == vlan

-- full_flag is reset at the first free address.
abbrev pub reopen : ℕ → ConfigNets → ConfigNets
reopen k net = if ltb 0 k && net.full_flag == 1 then record net { full_flag = 0 } else net

abbrev pub reopen_update : ℕ → ℕ → ConfigNets → List FullFlag → List FullFlag
reopen_update sn k net rest =
    if k == 0 then set_on sn ∷ rest else if net.full_flag == 1 then set_off sn ∷ rest else rest

-- my_CountUnusedIP, from network `sn` on.
unfoldable pub count_unused_ip : (ℕ → Bool) → ℕ → ℕ → ℕ → List ConfigNets → Counts
count_unused_ip free vlan cmts_ip sn [] = record { unused = 0; total = 0; nets = []; updates = [] }
count_unused_ip free vlan cmts_ip sn (net ∷ nets) =
    let rest = count_unused_ip free vlan cmts_ip (sn + 1) nets in
    let n = span net.range_min net.range_max in
    let k = count_free free n net.range_min in
    if is_counted vlan cmts_ip net
    then record {
      unused = k + rest.unused;
      total = n + rest.total;
      nets = reopen k net ∷ rest.nets;
      updates = reopen_update sn k net rest.updates;
    }
    else record rest { nets = net ∷ rest.nets }

abbrev pub Every : (ConfigNets → Type 0) → List ConfigNets → Type 0
Every P [] = Unit {0}
Every P (net ∷ nets) = P net × Every P nets
