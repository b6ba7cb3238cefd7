-- ===== src/Dhcp/Leases.antt =====
-- src/mysql-update_leases.c, my_WriteNewCMLease and my_UpdateAgent of src/mysql-update_modems.c, and what
-- src/mysql-newip.c does around its searches. my_Update_PowerDNS has no body. The column sets of
-- my_UpdateAgent that only repeat capabilities of the modem are left out.
use docsis_server.Prelude.{
  ℕ, zero, suc, ◌+◌, Bool, true, false, ◌&&◌, ◌||◌, not, Option, none, some, List, [], ◌∷◌, length,
  ltb, ◌==◌, if◌then◌else◌, get_elem?, set,
}
use docsis_server.Dhcp.Nets.{ConfigNets, Message, FullFlag, set_on, count_unused_ip, cpe_dynamic}
use docsis_server.Dhcp.NewIp.{Search, rewound, my_get_new_ip_cm, my_get_new_ip_cpe}
use docsis_server.Dhcp.Database.{
  Write, new_cm_lease, new_cpe_lease, change_full_flag, save_old_lease, delete_lease, delete_marked,
  set_modem, set_pc_name, set_subnum, set_times, set_update_time, set_agent, Site, Dhcpd, ask, sql,
}

-- A function whose last step is a statement: it returns in either case.
abbrev pub finish : Dhcpd → Option Dhcpd → Dhcpd
finish d none = d
finish d (some d') = d'

unfoldable pub my_write_new_cm_lease : Site → Message → Dhcpd → Dhcpd
my_write_new_cm_lease site m d = finish d (sql site (new_cm_lease m.b_ipaddr m.b_macaddr) d)

unfoldable pub my_write_new_cpe_lease : Site → Message → Dhcpd → Dhcpd
my_write_new_cpe_lease site m d =
    finish d (
      sql site (new_cpe_lease m.b_ipaddr m.b_macaddr m.vlan (m.cpe_type == cpe_dynamic) m.subnum) d)

-- A list of statements, up to the first that fails.
unfoldable pub sql_all : Site → List Write → Dhcpd → Dhcpd
sql_all site [] d = d
sql_all site (w ∷ ws) d = elim (sql site w d) [ none ↦ d | some d' ↦ sql_all site ws d' ]

abbrev pub when : Bool → Write → List Write → List Write
when true w ws = w ∷ ws
when false w ws = ws

unfoldable pub my_update_lease : Site → Message → Dhcpd → Dhcpd
my_update_lease site m d =
    sql_all site
      (delete_marked m.b_macaddr
        ∷ when (ltb 0 m.agent_mac_len) (set_modem m.b_modem_macaddr m.b_ipaddr) (
            when (ltb 0 (length m.host_name)) (set_pc_name m.b_ipaddr m.host_name) (
              when (ltb 0 m.subnum) (set_subnum m.subnum m.b_ipaddr)
                (set_times m.lease_time m.vlan m.b_ipaddr ∷ []))))
      d

unfoldable pub my_update_time : Site → Message → Dhcpd → Dhcpd
my_update_time site m d = finish d (sql site (set_update_time m.b_ipaddr) d)

unfoldable pub my_update_agent : Site → Message → Dhcpd → Dhcpd
my_update_agent site m d =
    if m.agent_mac_len == 0
    then d
    else finish d (sql site (set_agent m.b_macaddr m.b_ipaddr m.giaddr m.agentid) d)

-- my_DeleteLease: where a statement fails, the message keeps its address.
unfoldable pub my_delete_lease : Site → Message → Dhcpd → Message × Dhcpd
my_delete_lease site m d = elim (sql site (save_old_lease m.b_ipaddr) d) [
  | none ↦ (m, d)
  | some d1 ↦ elim (sql site (delete_lease m.b_ipaddr) d1) [
    | none ↦ (m, d1)
    | some d2 ↦ (record m { b_ipaddr = 0; ipaddr = 0; vlan = 0 }, d2)
  ]
]

-- my_getNewIP_CM with its write.
unfoldable pub new_ip_cm : Site → Message → Dhcpd → Message × Dhcpd
new_ip_cm site m d =
    let (given, nets) = my_get_new_ip_cm site.server_id (ask site d).cm_free m d.nets in
    let d' = record d { nets = nets } in
    elim given [ none ↦ (m, d') | some m' ↦ (m', my_write_new_cm_lease site m' d') ]

-- my_Count_Allowed_IPs.
unfoldable pub my_count_allowed_ips : Site → Message → Dhcpd → Message
my_count_allowed_ips site m d = elim ((ask site d).allowed m.b_modem_macaddr) [
  | none ↦ m
  | some row ↦ record m { subnum = row.0; static_ip = row.1; dynamic_ip = row.2 }
]

unfoldable pub count_flags : List Bool → Message → Message
count_flags [] m = m
count_flags (true ∷ flags) m = count_flags flags (record m { dynamic_cur = m.dynamic_cur + 1 })
count_flags (false ∷ flags) m = count_flags flags (record m { static_cur = m.static_cur + 1 })

-- my_Count_Used_IPs: the leases behind the modem, or those of its subscriber there.
unfoldable pub my_count_used_ips : Site → Message → Dhcpd → Message
my_count_used_ips site m d =
    count_flags
      ((ask site d).used_dynamic m.b_modem_macaddr
        (if site.use_subnum then some m.subnum else none))
      m

-- Update_Network_Full_Flag for each network that the search closed, from number `sn` on.
unfoldable pub closings : ℕ → List ConfigNets → List ConfigNets → List Write
closings sn [] news = []
closings sn (old ∷ olds) [] = []
closings sn (old ∷ olds) (new ∷ news) =
    when (not (old.full_flag == 1) && new.full_flag == 1) (change_full_flag (set_on sn))
      (closings (sn + 1) olds news)

-- Each of these statements returns to the search in either case.
unfoldable pub try_all : Site → List Write → Dhcpd → Dhcpd
try_all site [] d = d
try_all site (w ∷ ws) d = try_all site ws (finish d (sql site w d))

unfoldable pub flag_writes : List FullFlag → List Write
flag_writes [] = []
flag_writes (f ∷ fs) = change_full_flag f ∷ flag_writes fs

-- The body of the second loop of my_getNewIP_CPE at a network: the counts open networks again.
unfoldable pub recounted : Site → Message → ℕ → ConfigNets → Dhcpd → Dhcpd
recounted site m sn net d =
    let counts =
      count_unused_ip (ask site d).cpe_free net.cmts_vlan m.giaddr 0
        (set d.nets sn (rewound net)) in
    if not (net.cmts_ip == m.giaddr) || net.grant_flag == 0
    then d
    else try_all site (flag_writes counts.updates) (record d { nets = counts.nets })

-- The loop, on the `n` networks from `sn` on.
unfoldable pub recount : Site → Message → ℕ → ℕ → Dhcpd → Dhcpd
recount site m zero sn d = d
recount site m (suc n) sn d = elim (get_elem? d.nets sn) [
  | none ↦ d
  | some net ↦ recount site m n (sn + 1) (recounted site m sn net d)
]

-- What my_getNewIP_CPE does with the outcome of its search.
unfoldable pub take_given : Site → Message → Dhcpd → Search → Message × Dhcpd
take_given site m d (given, nets) =
    let d' = try_all site (closings 0 d.nets nets) (record d { nets = nets }) in
    elim given [
      | none ↦ (m, recount site m (length nets) 0 d')
      | some m' ↦ (m', my_write_new_cpe_lease site m' d')
    ]

-- my_getNewIP_CPE with its writes, but for the reload of the table and the alert program.
unfoldable pub new_ip_cpe : Site → Message → Dhcpd → Message × Dhcpd
new_ip_cpe site m d =
    let counted = my_count_used_ips site (my_count_allowed_ips site m d) d in
    if ltb 1 site.server_id
    then (m, d)
    else take_given site counted d
        (my_get_new_ip_cpe site.server_id (ask site d).cpe_free site.managed counted d.nets)
