-- ===== src/Dhcp/LeaseQuery.antt =====
-- src/dhcpd-dhcpd.c: the answers to a lease query, and the dispatch of a message by its type.
pub mod ByAddress
use docsis_server.Prelude.{
  ℕ, ◌+◌, ◌-◌, ◌*◌, ◌%◌, ◌^◌, Bool, true, false, ◌&&◌, ◌||◌, not, List, [], ◌∷◌, ◌++◌, length, ltb,
  ◌==◌, if◌then◌else◌, Run, done, fault, ◌>>=◌,
}
use docsis_server.Dhcp.Nets.{Message, lease_not_found, lease_reject, cpe_static, cpe_dynamic}
use docsis_server.Dhcp.Options.{add_opt, init_opt, max_options_length}
use docsis_server.Dhcp.Database.{Site, Dhcpd, send_packet}
use docsis_server.Dhcp.Leases.{my_update_time}
use docsis_server.Dhcp.FindMac.{my_find_mac}
use docsis_server.Dhcp.FindIp.{my_find_ip, my_find_agent}
use docsis_server.Dhcp.Server.{
  Handled, htonl, reply_to, send_nak, expire, send_positive_message, dhcp_discover, dhcp_offer,
  dhcp_request, dhcp_ack, dhcp_inform, dhcp_lease_query,
}

-- The lease time that the answer tells; for a kind of lease that has none the code reads a variable that
-- it never set.
unfoldable pub query_time : Message → Run ℕ
query_time m =
    if m.cpe_type == cpe_static
    then done 43200
    else if m.cpe_type == cpe_dynamic
    then done (m.lease_time % 2 ^ 32)
    else fault

-- One minute less, on a u_int32_t, and five seconds at least.
unfoldable pub renew_time : ℕ → ℕ
renew_time time = let less = (time + 2 ^ 32 - 60) % 2 ^ 32 in if ltb less 5 then 5 else less

-- addOpt with a length and no data.
unfoldable pub add_head : ℕ → ℕ → List ℕ → List ℕ
add_head code len written =
    if ltb (max_options_length - length written) (len + 2)
    then written
    else if len == 0
    then written ++ (code ∷ [])
    else written ++ (code ∷ len ∷ [])

unfoldable pub agent_options : Bool → Message → List ℕ → List ℕ
agent_options found m o =
    if found
    then add_opt 2 m.modem_mac (add_opt 1 m.agentid (add_head 82 (m.agent_mac_len % 256) o))
    else o

unfoldable pub query_options : ℕ → List ℕ
query_options time =
    add_opt 59 (htonl (renew_time time)) (
      add_opt 58 (htonl (renew_time time)) (add_opt 51 (htonl time) (add_opt 53 (5 ∷ []) init_opt)))

-- send_Query_ACK.
unfoldable pub send_query_ack : Site → Message → Dhcpd → Run Dhcpd
send_query_ack site m d = do
  time ← query_time m
  agent ← my_find_agent site m d
  let options = add_opt 255 [] (agent_options agent.0 agent.1 (query_options time))
  done (send_packet (reply_to m m.ipaddr options []) (my_update_time site m d))

unfoldable pub answer_query : Site → Message × Dhcpd → Handled
answer_query site (m, d) =
    let (m1, d1) = expire site 0 m d in
    if m.lease_type == lease_reject
    then done (false, d)
    else if m1.lease_type == lease_not_found
    then done (true, send_nak m1 d1)
    else (do d2 ← send_query_ack site m1 d1; done (true, d2))

-- leaseQuery: by the hardware address, by the address, or by the client's identifier. Where none is
-- given it ends without a result.
unfoldable pub lease_query : Site → Message → Dhcpd → Handled
lease_query site m d =
    if not (m.htype == 0) && not (m.hlen == 0)
    then (do found ← my_find_mac site m d; answer_query site (found.1, found.2))
    else if not (m.ciaddr == 0)
    then (do found ← my_find_ip site m d; answer_query site found)
    else if ltb 0 m.client_ident_len
    then done (false, d)
    else fault

-- The switch of dhcp_server on the message type; a message without a type is a request.
unfoldable pub handle : Site → Message → Dhcpd → Handled
handle site m d =
    let kind = if m.message_type == 0 then dhcp_request else m.message_type in
    if kind == dhcp_discover
    then send_positive_message site m dhcp_offer d
    else if kind == dhcp_request || kind == dhcp_inform
    then send_positive_message site m dhcp_ack d
    else if kind == dhcp_lease_query
    then lease_query site m d
    else done (false, d)
