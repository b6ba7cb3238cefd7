-- ===== src/Dhcp/Server/Replies.antt =====
-- What the DHCP process replies to a DISCOVER or a REQUEST.
use docsis_server.Prelude.{
  ℕ, ◌≤◌, ◌≡◌, ◌⊎◌, inl, inr, refl, sym, ◌∙◌, ap, subst, Bool, true, false, ◌||◌, ◌&&◌, not, Option,
  none, some, List, [], ◌∷◌, get_elem?, take, ◌==◌, if◌then◌else◌, arith, if_all, option_split,
  done, fault, IfDone, IfDone->>=,
}
use docsis_server.Dhcp.Nets.{
  ConfigNets, Message, my_get_net, get_net_opts, find_net, in_net, verify_vlan, lease_not_found,
  lease_noauth, lease_cm, lease_cpe, lease_mta, lease_reject, cpe_static,
}
use docsis_server.Dhcp.LoadNets.{blank_net}
use docsis_server.Dhcp.Options.{add_opt, option_bytes}
use docsis_server.Dhcp.Database.{Reply, Site, Dhcpd, send_packet}
use docsis_server.Dhcp.Leases.{my_update_agent, my_update_lease, my_delete_lease, new_ip_cpe}
use docsis_server.Dhcp.FindMac.{my_find_mac, my_find_mac_cmunknown}
use docsis_server.Dhcp.Server.{
  reply_to, nak_options, send_nak, htonl, positive_reply, follow_up, answer_in, answer_got, answer,
  assign, expire, leave_vlan, settle_lease, find_again, send_positive_message,
}
use docsis_server.Dhcp.Server.Writes.{
  replies, Fine, Still, my_update_agent-Still, my_update_lease-Still, my_delete_lease-Fine,
}
use docsis_server.Dhcp.Server.NewAddress.{new_ip_cpe-Fine}
use docsis_server.Dhcp.Server.Caches.{FoundFine}
use docsis_server.Dhcp.Server.Searches.{my_find_mac-Fine, my_find_mac_cmunknown-Fine}
use docsis_server.Dhcp.Server.Packet.{
  Tells, Says, positive_reply-Says, find_net-get_elem?, get_net_opts-get_elem?, in_net-range,
}

-- A refusal: no address, and the options begin with the message type 6.
abbrev pub IsNak : Reply → Type 0
IsNak r = (r.yiaddr ≡ 0) × (take 3 r.options ≡ 53 ∷ 1 ∷ 6 ∷ [])

-- An address of a network in the table, served by the relay that asks, with that network's options.
abbrev pub IsGrant : ℕ → List ConfigNets → Reply → Type 0
IsGrant mess_type nets r =
    (i : ℕ) × (net : ConfigNets) × (get_elem? nets i ≡ some net)
    × (net.range_min ≤ r.yiaddr)
    × (r.yiaddr ≤ net.range_max)
    × ((r.giaddr ≡ 0) ⊎ (net.cmts_ip ≡ r.giaddr))
    × Tells mess_type net r

-- Nothing more was sent than these replies, or one reply that is a refusal or a grant.
abbrev pub Answered : ℕ → List Reply → Bool × Dhcpd → Type 0
Answered mess_type rs (sent, d) =
    (replies d.events ≡ rs)
    ⊎ ((r : Reply) × (replies d.events ≡ r ∷ rs) × (IsNak r ⊎ IsGrant mess_type d.nets r))

send_nak-Answered :
    (mess_type : ℕ) (rs : List Reply) (sent : Bool) (m : Message) (d : Dhcpd)
    → Fine rs (m, d)
    → Answered mess_type rs (sent, send_nak m d)
unfolding send_nak send_packet replies nak_options add_opt htonl option_bytes
send_nak-Answered mess_type rs sent m d (a, q) = inr (
  reply_to m 0 (nak_options m) [],
  ap (λ (l : List Reply). reply_to m 0 (nak_options m) [] ∷ l) q,
  inl (refl, refl),
)

pub follow_up-Still : (site : Site) (m : Message) (d : Dhcpd) → Still d (follow_up site m d)
unfolding follow_up
follow_up-Still site m d =
    if_all (Still d) _ (my_update_agent site m d) _ (my_update_agent-Still site m d) (
      if_all (Still d) _ (my_update_lease site m d) d (my_update_lease-Still site m d) (refl, refl))

answer_in-Answered :
    (site : Site) (rs : List Reply) (m : Message) (mess_type i : ℕ) (d : Dhcpd) (net : ConfigNets)
    → Fine rs (m, d)
    → get_elem? d.nets i ≡ some net
    → in_net m net ≡ true
    → IfDone (Answered mess_type rs) (answer_in site m mess_type d net)
unfolding answer_in send_packet replies
answer_in-Answered site rs m mess_type i d net (a, q) there fits =
    IfDone->>= (Says m mess_type net) (Answered mess_type rs)
      (positive_reply site m mess_type net d) _ (positive_reply-Says site m mess_type net d)
      (λ r said. granted r said)
  where
    granted :
        (r : Reply)
        → Says m mess_type net r
        → Answered mess_type rs
            (true, follow_up site (record m { lease_time = net.lease_time }) (send_packet r d))
    granted r (yi, gi, told) =
        let (lo, hi, relay) = in_net-range m net fits in
        let (quiet, same) =
          follow_up-Still site (record m { lease_time = net.lease_time }) (send_packet r d) in
        let served : get_elem?
              (follow_up site (record m { lease_time = net.lease_time }) (send_packet r d)).nets i
            ≡ some net =
          ap (λ (ns : List ConfigNets). get_elem? ns i) same ∙ there in
        let address : r.yiaddr ≡ m.b_ipaddr = yi ∙ a in
        inr (
          r,
          quiet ∙ ap (λ (l : List Reply). r ∷ l) q,
          inr (
            i,
            net,
            served,
            subst (λ (ip : ℕ). net.range_min ≤ ip) (sym address) (lo),
            subst (λ (ip : ℕ). ip ≤ net.range_max) (sym address) (hi),
            subst (λ (ip : ℕ). (ip ≡ 0) ⊎ (net.cmts_ip ≡ ip)) (sym gi) (relay),
            told,
          ),
        )

answer_net-Answered :
    (site : Site) (rs : List Reply) (m : Message) (mess_type sn time : ℕ) (d : Dhcpd)
    → Fine rs (m, d)
    → find_net m 0 d.nets ≡ some (sn, time)
    → IfDone
        (Answered mess_type rs)
        (answer_got site mess_type d (false, record m { lease_time = time; netptr = sn }))
unfolding answer_got in_net
answer_net-Answered site rs m mess_type sn time d h e =
    let (i, net, place, there, fits) = find_net-get_elem? m 0 d.nets sn time e in
    let number : sn ≡ i = omega (arith, place) in
    let opts : get_net_opts blank_net sn d.nets ≡ some net =
      ap (λ (n : ℕ). get_net_opts blank_net n d.nets) number
      ∙ get_net_opts-get_elem? d.nets i net there in
    let m' = record m { lease_time = time; netptr = sn } in
    subst
      (λ (o : Option ConfigNets).
        IfDone (Answered mess_type rs)
          (elim o [ none ↦ fault | some n ↦ answer_in site m' mess_type d n ]))
      (sym opts) (answer_in-Answered site rs m' mess_type i d net h there fits)

answer-Answered :
    (site : Site) (rs : List Reply) (m : Message) (mess_type : ℕ) (d : Dhcpd)
    → Fine rs (m, d)
    → IfDone (Answered mess_type rs) (answer site m mess_type d)
unfolding answer my_get_net answer_got
answer-Answered site rs m mess_type d h =
    option_split
      (λ (got : Bool × Message). IfDone (Answered mess_type rs) (answer_got site mess_type d got))
      (find_net m 0 d.nets) (true, m)
      (λ found. (false, record m { lease_time = found.1; netptr = found.0 }))
      (λ e. send_nak-Answered mess_type rs true m d h)
      (λ found e. answer_net-Answered site rs m mess_type found.0 found.1 d h e)

assign-Answered :
    (site : Site) (rs : List Reply) (m : Message) (mess_type : ℕ) (d : Dhcpd)
    → Fine rs (m, d)
    → IfDone (Answered mess_type rs) (assign site m mess_type d)
unfolding assign
assign-Answered site rs m mess_type d h =
    let new = new_ip_cpe site m d in
    let h' = new_ip_cpe-Fine site rs m d h in
    if_all (IfDone (Answered mess_type rs)) (not site.assign_new) (done (false, d)) _ (inl h.1) (
      if_all (IfDone (Answered mess_type rs))
        (new.0.ipaddr == 0 || new.0.lease_type == lease_noauth) (done (true, send_nak new.0 new.1))
        (answer site new.0 mess_type new.1) (send_nak-Answered mess_type rs true new.0 new.1 h')
        (answer-Answered site rs new.0 mess_type new.1 h'))

expire-Fine :
    (site : Site) (rs : List Reply) (bound : ℕ) (m : Message) (d : Dhcpd)
    → Fine rs (m, d)
    → Fine rs (expire site bound m d)
unfolding expire
expire-Fine site rs bound m d h = if_all (Fine rs) _ _ (m, d) (my_delete_lease-Fine site rs m d h) h

leave_vlan-Fine :
    (site : Site) (rs : List Reply) (m : Message) (d : Dhcpd)
    → Fine rs (m, d)
    → Fine rs (leave_vlan site m d)
unfolding leave_vlan
leave_vlan-Fine site rs m d (a, q) =
    let moved = record m { ipaddr = 0; b_ipaddr = 0 } in
    let freed = my_delete_lease site m d in
    let left : Message = record freed.0 {
      lease_type = if m.cpe_type == cpe_static then lease_not_found else lease_noauth;
    } in
    let computer : Message × Dhcpd =
      if m.lease_type == lease_cpe then (left, freed.1) else (m, d) in
    let is_modem : Bool = m.lease_type == lease_cm || m.lease_type == lease_mta in
    let gives_up : Message × Dhcpd = if is_modem then (moved, d) else computer in
    if_all (Fine rs) (not (verify_vlan d.nets m)) (m, d) gives_up (a, q)
      (if_all (Fine rs) is_modem (moved, d) computer (refl, q)
        (if_all (Fine rs) (m.lease_type == lease_cpe) (left, freed.1) (m, d)
          (my_delete_lease-Fine site rs m d (a, q)) (a, q)))

settle_lease-Answered :
    (site : Site) (rs : List Reply) (mess_type : ℕ) (m : Message) (d : Dhcpd)
    → Fine rs (m, d)
    → IfDone (Answered mess_type rs) (settle_lease site mess_type (m, d))
unfolding settle_lease
settle_lease-Answered site rs mess_type m d h =
    let e1 = expire site 60 m d in
    let h1 = expire-Fine site rs 60 m d h in
    let e2 = leave_vlan site e1.0 e1.1 in
    let h2 = leave_vlan-Fine site rs e1.0 e1.1 h1 in
    let P = IfDone (Answered mess_type rs) in
    if_all P (m.lease_type == lease_reject) (done (false, d)) _ (inl h.1) (
      if_all P (e2.0.lease_type == lease_not_found && e2.0.agent_mac_len == 0)
        (done (false, send_nak e2.0 e2.1)) _ (send_nak-Answered mess_type rs false e2.0 e2.1 h2)
        (if_all P (e2.0.lease_type == lease_not_found) (assign site e2.0 mess_type e2.1)
          (answer site e2.0 mess_type e2.1) (assign-Answered site rs e2.0 mess_type e2.1 h2)
          (answer-Answered site rs e2.0 mess_type e2.1 h2)))

find_again-Fine :
    (site : Site) (rs : List Reply) (m : Message) (d : Dhcpd)
    → Fine rs (m, d)
    → IfDone (Fine rs) (find_again site m d)
unfolding find_again
find_again-Fine site rs m d h =
    if_all (IfDone (Fine rs)) (m.lease_type == lease_not_found && m.docsis_modem == 1) _
      (done (m, d))
      (IfDone->>= (FoundFine rs) (Fine rs) (my_find_mac_cmunknown site m d) _
        (my_find_mac_cmunknown-Fine site rs m d h) (λ found k. k))
      h

-- A DISCOVER or a REQUEST gets at most one reply: a refusal without an address, or an address of a
-- network in the table that the asking relay serves, with the options of that network. The message
-- comes with the same address in both of its fields, which are 0 at first; the database may answer
-- anything and refuse any statement. This is said of runs without undefined behaviour.
pub send_positive_message-Answered :
    (site : Site) (m : Message) (mess_type : ℕ) (d : Dhcpd)
    → m.ipaddr ≡ m.b_ipaddr
    → IfDone (Answered mess_type (replies d.events)) (send_positive_message site m mess_type d)
unfolding send_positive_message
send_positive_message-Answered site m mess_type d a =
    let rs = replies d.events in
    IfDone->>= (FoundFine rs) (Answered mess_type rs) (my_find_mac site m d) _
      (my_find_mac-Fine site rs m d (a, refl))
      (λ found h.
        IfDone->>= (Fine rs) (Answered mess_type rs) (find_again site found.1 found.2) _
          (find_again-Fine site rs found.1 found.2 h)
          (λ known k. settle_lease-Answered site rs mess_type known.0 known.1 k))
