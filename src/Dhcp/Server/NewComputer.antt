-- ===== src/Dhcp/Server/NewComputer.antt =====
-- A computer that the process has not seen and the database does not know gets an address.
use docsis_server.Prelude.{
  ℕ, ◌+◌, ◌≤◌, ◌<◌, ◌≡◌, ◌≢◌, refl, sym, ap, ◌∙◌, subst, Bool, true, false, ◌||◌, not, Option, none,
  some, List, ◌∷◌, ◌==◌, if◌then◌else◌, arith, if_else, option_split, IfDone-done, Run, done, fault,
  ◌>>=◌,
}
use docsis_server.Dhcp.Nets.{ConfigNets, Message, lease_noauth, my_get_net, get_net_opts, find_net}
use docsis_server.Dhcp.LoadNets.{blank_net}
use docsis_server.Dhcp.NewIp.{my_get_new_ip_cpe}
use docsis_server.Dhcp.NewIp.Given.{my_get_new_ip_cpe-Serves}
use docsis_server.Dhcp.Leases.{my_count_allowed_ips, my_count_used_ips, new_ip_cpe}
use docsis_server.Dhcp.Server.Writes.{replies}
use docsis_server.Dhcp.Server.NewAddress.{new_ip_cpe-Fine, new_ip_cpe_given}
use docsis_server.Dhcp.Server.Packet.{
  NoOptions, Says, positive_reply-done, positive_reply-Says, find_net-get_elem?,
  get_net_opts-get_elem?,
}
use docsis_server.Dhcp.Server.Replies.{follow_up-Still}
use docsis_server.Dhcp.Repeats.{ignore_repeated_customers}
use docsis_server.Dhcp.Repeats.Bounds.{AreStrangers}
use docsis_server.Dhcp.Database.{Reply, Site, Dhcpd, send_packet}
use docsis_server.Dhcp.Server.{
  assign, positive_reply, follow_up, answer_in, answer_got, answer, send_nak, send_positive_message,
}
use docsis_server.Dhcp.Server.Unsettled.{
  Unknown, Fresh, find_good-Unknown, find_again-computer, settle_lease-assign,
}

-- One more reply was sent, with this address.
abbrev pub Gives : ℕ → List Reply → Run (Bool × Dhcpd) → Type 0
Gives ip rs (done (sent, d)) =
    (sent ≡ true) × ((r : Reply) × (replies d.events ≡ r ∷ rs) × (r.yiaddr ≡ ip))
Gives ip rs fault = ⊥

answer_in-Gives :
    (site : Site) (m : Message) (mess_type : ℕ) (d : Dhcpd) (net : ConfigNets)
    → NoOptions site
    → site.high_load ≡ false
    → Gives m.ipaddr (replies d.events) (answer_in site m mess_type d net)
unfolding answer_in send_packet replies
answer_in-Gives site m mess_type d net h calm =
    let (r, e) = positive_reply-done site m mess_type net d h calm in
    let said =
      IfDone-done (Says m mess_type net) (positive_reply site m mess_type net d) r
        (positive_reply-Says site m mess_type net d) e in
    let quiet =
      (follow_up-Still site (record m { lease_time = net.lease_time }) (send_packet r d)).0 in
    subst
      (λ (made : Run Reply). Gives m.ipaddr (replies d.events) (
        made >>= λ reply.
        done
          (true, follow_up site (record m { lease_time = net.lease_time }) (send_packet reply d))))
      (sym e) (refl, (r, quiet, said.0))

answer_got-Gives :
    (site : Site) (m : Message) (mess_type sn time : ℕ) (d : Dhcpd)
    → NoOptions site
    → site.high_load ≡ false
    → find_net m 0 d.nets ≡ some (sn, time)
    → Gives m.ipaddr
        (replies d.events)
        (answer_got site mess_type d (false, record m { lease_time = time; netptr = sn }))
unfolding answer_got
answer_got-Gives site m mess_type sn time d h calm e =
    let (i, net, place, there, fits) = find_net-get_elem? m 0 d.nets sn time e in
    let number : sn ≡ i = omega (arith, place) in
    let opts : get_net_opts blank_net sn d.nets ≡ some net =
      ap (λ (n : ℕ). get_net_opts blank_net n d.nets) number
      ∙ get_net_opts-get_elem? d.nets i net there in
    let m' = record m { lease_time = time; netptr = sn } in
    subst
      (λ (o : Option ConfigNets).
        Gives m.ipaddr (replies d.events)
          (elim o [ none ↦ fault | some n ↦ answer_in site m' mess_type d n ]))
      (sym opts) (answer_in-Gives site m' mess_type d net h calm)

-- A message whose address my_Get_Net accepts is answered.
answer-Gives :
    (site : Site) (m : Message) (mess_type : ℕ) (d : Dhcpd)
    → NoOptions site
    → site.high_load ≡ false
    → (my_get_net d.nets m).0 ≡ false
    → Gives m.ipaddr (replies d.events) (answer site m mess_type d)
unfolding answer my_get_net
answer-Gives site m mess_type d h calm =
    option_split
      (λ (got : Bool × Message).
        got.0 ≡ false → Gives m.ipaddr (replies d.events) (answer_got site mess_type d got))
      (find_net m 0 d.nets) (true, m)
      (λ found. (false, record m { lease_time = found.1; netptr = found.0 })) (λ e bad. cc)
      (λ found e good. answer_got-Gives site m mess_type found.0 found.1 d h calm e)

-- The counts that my_getNewIP_CPE takes first.
abbrev pub counted : Site → Message → Dhcpd → Message
counted site m d = my_count_used_ips site (my_count_allowed_ips site m d) d

assign-Gives :
    (site : Site) (m m' : Message) (mess_type : ℕ) (d : Dhcpd) (nets' : List ConfigNets)
    → NoOptions site
    → site.high_load ≡ false
    → site.assign_new ≡ true
    → site.server_id ≤ 1
    → m.ipaddr ≡ m.b_ipaddr
    → my_get_new_ip_cpe site.server_id
        (site.answers d.events).cpe_free
        site.managed
        (counted site m d)
        d.nets
      ≡ (some m', nets')
    → m'.ipaddr ≢ 0
    → m'.lease_type ≢ lease_noauth
    → Gives m'.ipaddr (replies d.events) (assign site m mess_type d)
unfolding assign
assign-Gives site m m' mess_type d nets' h calm new first a e some_ip allowed =
    let (same, left) = new_ip_cpe_given site m m' d nets' first e in
    let d' = (new_ip_cpe site m d).1 in
    let quiet = (new_ip_cpe-Fine site (replies d.events) m d (a, refl)).1 in
    let served =
      my_get_new_ip_cpe-Serves site.server_id (site.answers d.events).cpe_free site.managed
        (counted site m d) m' d.nets nets' e in
    let accepted : (my_get_net d'.nets m').0 ≡ false =
      ap (λ (ns : List ConfigNets). (my_get_net ns m').0) left ∙ served.2 in
    let settled : (m'.ipaddr == 0 || m'.lease_type == lease_noauth) ≡ false =
      ground (arith, some_ip, allowed) in
    let told = answer-Gives site m' mess_type d' h calm accepted in
    let last : Message → Run (Bool × Dhcpd) = λ x.
      if x.ipaddr == 0 || x.lease_type == lease_noauth
      then done (true, send_nak x d')
      else answer site x mess_type d' in
    let passed : not site.assign_new ≡ false = ground (arith, new) in
    if_else (Gives m'.ipaddr (replies d.events)) (not site.assign_new) (done (false, d))
      (last (new_ip_cpe site m d).0) passed
      (subst (λ x. Gives m'.ipaddr (replies d.events) (last x)) (sym same)
        (if_else (Gives m'.ipaddr (replies d.events))
          (m'.ipaddr == 0 || m'.lease_type == lease_noauth) (done (true, send_nak m' d'))
          (answer site m' mess_type d') settled
          (subst (λ rs. Gives m'.ipaddr rs (answer site m' mess_type d')) quiet told)))

-- A computer that the process has not seen lately and that the database does not know is given an
-- address, if my_getNewIP_CPE finds one for which it is allowed: exactly one reply is sent, with that
-- address, which the database has no lease for. The load is low, no option sets are stored, and the
-- table of modems is not due for a new load.
pub send_positive_message-Gives :
    (site : Site) (m m' : Message) (mess_type : ℕ) (d : Dhcpd) (nets' : List ConfigNets)
    → Unknown site m d
    → Fresh m
    → AreStrangers m d.seen
    → site.high_load ≡ false
    → site.now < d.cache_time + 600
    → NoOptions site
    → site.assign_new ≡ true
    → site.server_id ≤ 1
    → m.ipaddr ≡ m.b_ipaddr
    → my_get_new_ip_cpe site.server_id
        (site.answers d.events).cpe_free
        site.managed
        (counted site m d)
        d.nets
      ≡ (some m', nets')
    → m'.ipaddr ≢ 0
    → m'.lease_type ≢ lease_noauth
    → Gives m'.ipaddr (replies d.events) (send_positive_message site m mess_type d)
      × ((site.answers d.events).cpe_free m'.ipaddr ≡ true)
unfolding send_positive_message my_count_used_ips my_count_allowed_ips
send_positive_message-Gives site m m' mess_type d nets' unknown fresh strange calm young none_stored
      assigns first a e some_ip allowed =
    let d1 : Dhcpd = record d { seen = (ignore_repeated_customers site.now m d.seen).1 } in
    let unknown1 : Unknown site m d1 = record {
      good = unknown.good;
      no_modem = unknown.no_modem;
      no_lease = unknown.no_lease;
      no_prelease = unknown.no_prelease;
    } in
    let served =
      my_get_new_ip_cpe-Serves site.server_id (site.answers d.events).cpe_free site.managed
        (counted site m d) m' d.nets nets' e in
    (
      rw
          (
            find_good-Unknown site m d unknown fresh calm young strange,
            find_again-computer site m d1 unknown1 fresh,
            settle_lease-assign site m d1 unknown1 fresh mess_type,
          )
          (assign-Gives site m m' mess_type d1 nets' none_stored calm assigns first a e some_ip
            allowed),
      ap (site.answers d.events).cpe_free served.1 ∙ served.0,
    )
