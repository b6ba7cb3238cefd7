-- ===== src/Dhcp/Server.antt =====
-- src/dhcpd-dhcpd.c: what the DHCP process answers to each kind of message.
pub mod Writes
pub mod NewAddress
pub mod Caches
pub mod Searches
pub mod Packet
pub mod Replies
pub mod Closed
pub mod Unsettled
pub mod NewComputer
use docsis_server.Prelude.{
  ℕ, zero, suc, ◌+◌, ◌-◌, ◌*◌, ◌/◌, ◌%◌, ◌^◌, Bool, true, false, ◌&&◌, ◌||◌, not, Option, none,
  some, List, [], ◌∷◌, ◌++◌, take, length, ltb, leb, ◌==◌, if◌then◌else◌, Run, done, fault, ◌>>=◌,
}
use docsis_server.Dhcp.Nets.{
  ConfigNets, Message, lease_not_found, lease_cm, lease_cpe, lease_mta, lease_unknown, lease_noauth,
  lease_reject, cpe_static, cpe_dynamic, get_net_opts, my_get_net, verify_vlan,
}
use docsis_server.Dhcp.LoadNets.{blank_net}
use docsis_server.Dhcp.Options.{add_opt, add_big_opt, init_opt, max_options_length}
use docsis_server.Dhcp.Database.{Reply, Answers, Site, Dhcpd, ask, send_packet}
use docsis_server.Dhcp.Leases.{
  my_update_lease, my_update_time, my_update_agent, my_delete_lease, new_ip_cpe,
}
use docsis_server.Dhcp.FindMac.{my_find_mac, my_find_mac_cmunknown}
use docsis_server.Dhcp.FindIp.{my_find_ip, my_find_agent}
use docsis_server.Dhcp.OptCache.{my_get_opt}

-- DHCP_*, the message types.
abbrev pub dhcp_discover : ℕ
dhcp_discover = 1

abbrev pub dhcp_offer : ℕ
dhcp_offer = 2

abbrev pub dhcp_request : ℕ
dhcp_request = 3

abbrev pub dhcp_ack : ℕ
dhcp_ack = 5

abbrev pub dhcp_inform : ℕ
dhcp_inform = 8

abbrev pub dhcp_lease_query : ℕ
dhcp_lease_query = 13

-- The four bytes that htonl makes of a u_int32_t.
unfoldable pub htonl : ℕ → List ℕ
htonl n = n / 2 ^ 24 % 256 ∷ n / 2 ^ 16 % 256 ∷ n / 2 ^ 8 % 256 ∷ n % 256 ∷ []

-- A lease time below `bound`, as a long.
unfoldable pub time_below : ℕ → ℕ → Bool
time_below bound t = leb (2 ^ 63) t || ltb t bound

-- The head that send_positive_message, send_NAK and send_Query_ACK all write.
abbrev pub reply_to : Message → ℕ → List ℕ → List ℕ → Reply
reply_to m yiaddr options file = record {
  hops = m.hops;
  flags = m.flags;
  xid = m.xid;
  ciaddr = m.ciaddr;
  yiaddr = yiaddr;
  siaddr = m.server_ip;
  giaddr = m.giaddr;
  macaddr = take 6 m.macaddr;
  options = options;
  file = file;
}

unfoldable pub nak_options : Message → List ℕ
nak_options m = add_opt 255 [] (add_opt 54 (htonl m.server_ip) (add_opt 53 (6 ∷ []) init_opt))

-- send_NAK.
unfoldable pub send_nak : Message → Dhcpd → Dhcpd
send_nak m d = send_packet (reply_to m 0 (nak_options m) []) d

-- The options of an offer or an acknowledgement up to the lease times.
unfoldable pub net_options : ℕ → ConfigNets → List ℕ
net_options mess_type net = add_opt 59 (htonl (net.lease_time / 100 * 875 / 10)) (
    add_opt 58 (htonl (net.lease_time / 2)) (
      add_opt 51 (htonl net.lease_time) (
        add_opt 28 (htonl net.broadcast) (
          add_opt 3 (htonl net.gateway)
            (add_opt 1 (htonl net.mask) (add_opt 53 (mess_type ∷ []) init_opt))))))

-- addBigOpt( my_Get_Opt( id, mac ) ), unless the message's own options are these.
unfoldable pub add_stored : Site → Dhcpd → Bool → ℕ → ℕ → List ℕ → Run (List ℕ)
add_stored site d true opt_id b_mac written = done written
add_stored site d false opt_id b_mac written = do
  opt ← my_get_opt site d opt_id b_mac
  add_big_opt opt written

unfoldable pub stored_options : Site → Message → ConfigNets → Dhcpd → List ℕ → Run (List ℕ)
stored_options site m net d o = do
  o1 ← add_stored site d false 1 m.b_macaddr o
  o2 ← add_stored site d false m.opt 0 o1
  o3 ← add_stored site d (net.opt1 == m.opt) net.opt1 0 o2
  o4 ← add_stored site d (net.opt2 == m.opt) net.opt2 0 o3
  add_stored site d (net.opt3 == m.opt) net.opt3 0 o4

abbrev pub text_or_none : Option (List ℕ) → List ℕ
text_or_none none = []
text_or_none (some text) = take 127 text

-- The boot file's name and the options with it. Only a name from the message is also an option.
unfoldable pub name_file : Site → Message → Dhcpd → List ℕ → List ℕ × List ℕ
name_file site m d o = elim m.cfname [
  | [] ↦ (text_or_none ((ask site d).file_of_mac m.b_macaddr), o)
  | c ∷ text ↦ (take 127 (c ∷ text), add_opt 67 (take 127 (c ∷ text)) o)
]

-- The packet of send_positive_message.
unfoldable pub positive_reply : Site → Message → ℕ → ConfigNets → Dhcpd → Run Reply
positive_reply site m mess_type net d = do
  o ← stored_options site m net d (net_options mess_type net)
  let named = name_file site m d o
  done (reply_to m m.ipaddr (add_opt 255 [] named.1) named.0)

-- What send_positive_message writes behind the packet.
unfoldable pub follow_up : Site → Message → Dhcpd → Dhcpd
follow_up site m d =
    if m.lease_type == lease_cm || m.lease_type == lease_mta || m.lease_type == lease_unknown
    then my_update_agent site m d
    else if m.lease_type == lease_cpe || m.lease_type == lease_noauth
    then my_update_lease site m d
    else d

-- Whether the caller is told that a reply was sent, and the process.
abbrev pub Handled : Type 0
Handled = Run (Bool × Dhcpd)

unfoldable pub answer_in : Site → Message → ℕ → Dhcpd → ConfigNets → Handled
answer_in site m mess_type d net = do
  reply ← positive_reply site m mess_type net d
  done (true, follow_up site (record m { lease_time = net.lease_time }) (send_packet reply d))

unfoldable pub answer_got : Site → ℕ → Dhcpd → Bool × Message → Handled
answer_got site mess_type d (failed, m) =
    if failed then done (true, send_nak m d) else elim (get_net_opts blank_net m.netptr d.nets) [
      | none ↦ fault
      | some net ↦ answer_in site m mess_type d net
    ]

-- send_positive_message from my_Get_Net on.
unfoldable pub answer : Site → Message → ℕ → Dhcpd → Handled
answer site m mess_type d = answer_got site mess_type d (my_get_net d.nets m)

-- A computer without a lease.
unfoldable pub assign : Site → Message → ℕ → Dhcpd → Handled
assign site m mess_type d =
    let (m', d') = new_ip_cpe site m d in
    if not site.assign_new
    then done (false, d)
    else if m'.ipaddr == 0 || m'.lease_type == lease_noauth
    then done (true, send_nak m' d')
    else answer site m' mess_type d'

-- A lease that has run out, or runs out within `bound` seconds, is given up.
unfoldable pub expire : Site → ℕ → Message → Dhcpd → Message × Dhcpd
expire site bound m d =
    if m.lease_type == lease_cpe
      && m.cpe_type == cpe_dynamic
      && m.lockip == 0
      && time_below bound m.lease_time
    then (let (m', d') = my_delete_lease site m d in
        (record m' { lease_type = lease_not_found }, d'))
    else (m, d)

-- An address that the relay cannot route is given up.
unfoldable pub leave_vlan : Site → Message → Dhcpd → Message × Dhcpd
leave_vlan site m d =
    if not (verify_vlan d.nets m)
    then (m, d)
    else if m.lease_type == lease_cm || m.lease_type == lease_mta
    then (record m { ipaddr = 0; b_ipaddr = 0 }, d)
    else if m.lease_type == lease_cpe
    then (let (m', d') = my_delete_lease site m d in
        (
          record m' {
            lease_type = if m.cpe_type == cpe_static then lease_not_found else lease_noauth;
          },
          d',
        ))
    else (m, d)

-- send_positive_message behind the search for the sender.
unfoldable pub settle_lease : Site → ℕ → Message × Dhcpd → Handled
settle_lease site mess_type (m, d) =
    let (m1, d1) = expire site 60 m d in
    let (m2, d2) = leave_vlan site m1 d1 in
    if m.lease_type == lease_reject
    then done (false, d)
    else if m2.lease_type == lease_not_found && m2.agent_mac_len == 0
    then done (false, send_nak m2 d2)
    else if m2.lease_type == lease_not_found
    then assign site m2 mess_type d2
    else answer site m2 mess_type d2

-- The second search for a modem that is not known.
unfoldable pub find_again : Site → Message → Dhcpd → Run (Message × Dhcpd)
find_again site m d =
    if m.lease_type == lease_not_found && m.docsis_modem == 1
    then (do found ← my_find_mac_cmunknown site m d; done (found.1, found.2))
    else done (m, d)

unfoldable pub send_positive_message : Site → Message → ℕ → Dhcpd → Handled
send_positive_message site m mess_type d = do
  found ← my_find_mac site m d
  known ← find_again site found.1 found.2
  settle_lease site mess_type known
