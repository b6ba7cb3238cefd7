-- ===== src/Dhcp/FindIp.antt =====
-- src/mysql-findip.c: who has the address that a lease query asks about; and my_findAgent of
-- src/mysql-update_modems.c, the relay agent of a modem.
use docsis_server.Prelude.{
  ℕ, ◌+◌, ◌/◌, Bool, true, false, ◌||◌, Option, none, some, List, take, length, ◌==◌, if◌then◌else◌,
  Run, done, ◌>>=◌,
}
use docsis_server.Dhcp.Nets.{Message, lease_cm, lease_cpe, lease_mta, lease_reject, cpe_dynamic}
use docsis_server.Dhcp.Repeats.{ignore_repeated_customers}
use docsis_server.Dhcp.Database.{OwnerRow, Site, Dhcpd, ask}
use docsis_server.Dhcp.ModemCache.{my_find_cm_mac_cache}
use docsis_server.Dhcp.FindMac.{with_modem}
use docsis_server.MacAddr.{cv_mac2num, cv_addrmac}

-- my_findIP_QUERY from the row on, with the owner's hardware address in the message. An owner whose hardware address is 0 is none.
unfoldable pub owned_by : Site → OwnerRow → Message → Dhcpd → Run (Bool × Message × Dhcpd)
owned_by site row m d = if m.b_macaddr == 0 then done (false, m, d) else (do
  named ← with_modem row.modem_macaddr (record m {
    subnum = row.subnum;
    cpe_type = if row.dynamic_flag then cpe_dynamic else m.cpe_type;
  })
  known ← my_find_cm_mac_cache site (record named { lease_time = row.seconds_left }) d
  done (true, known.0, known.1))

unfoldable pub take_owner : Site → OwnerRow → Message → Dhcpd → Run (Bool × Message × Dhcpd)
take_owner site row m d = do
  mac ← cv_addrmac row.macaddr 6
  owned_by site row (record m { macaddr = take 6 mac; b_macaddr = cv_mac2num mac }) d

unfoldable pub my_find_ip_query :
    Site → Option OwnerRow → Message → Dhcpd → Run (Bool × Message × Dhcpd)
my_find_ip_query site none m d = done (false, m, d)
my_find_ip_query site (some row) m d = take_owner site row m d

unfoldable pub find_modem_ip : Site → ℕ → Message → Dhcpd → Run (Message × Dhcpd)
find_modem_ip site ip m d = do
  found ← my_find_ip_query site ((ask site d).modem_owner ip) m d
  done (if found.0 then (record found.1 { lease_type = lease_cm }, found.2) else (found.1, found.2))

unfoldable pub find_owner : Site → ℕ → Message → Dhcpd → Run (Message × Dhcpd)
find_owner site ip m d = do
  found ← my_find_ip_query site ((ask site d).lease_owner ip) m d
  let modem = find_modem_ip site ip found.1 found.2
  if found.0 then done (record found.1 { lease_type = lease_cpe }, found.2) else modem

-- my_findIP with FIND_CIADDR. The address itself is not put into the message's ipaddr.
unfoldable pub my_find_ip : Site → Message → Dhcpd → Run (Message × Dhcpd)
my_find_ip site m d =
    let (told, seen) =
      ignore_repeated_customers site.now (record m { b_ipaddr = m.ciaddr }) d.seen in
    let d' = record d { seen = seen } in
    if told.1.lease_type == lease_reject
    then done (told.1, d')
    else find_owner site m.ciaddr told.1 d'

-- my_findAgent_QUERY.
unfoldable pub my_find_agent_query : Option (List ℕ) → Message → Run (Bool × Message)
my_find_agent_query none m = done (false, m)
my_find_agent_query (some text) m = do
  agentid ← cv_addrmac text (length text / 2)
  done (
    true,
    record m {
      agentid = take (length text / 2) agentid;
      agent_mac_len = length text / 2 + length m.modem_mac + 4;
    },
  )

-- my_findAgent.
unfoldable pub my_find_agent : Site → Message → Dhcpd → Run (Bool × Message)
my_find_agent site m d =
    if m.lease_type == lease_cm || m.lease_type == lease_mta
    then my_find_agent_query ((ask site d).cm_agent m.b_macaddr)
        (record m { modem_mac = take 6 m.macaddr })
    else if m.lease_type == lease_cpe
    then if m.b_modem_macaddr == 0
      then done (false, m)
      else my_find_agent_query ((ask site d).cpe_agent m.b_modem_macaddr)
          (record m { modem_mac = take 6 m.modem_macaddr })
    else done (false, m)
