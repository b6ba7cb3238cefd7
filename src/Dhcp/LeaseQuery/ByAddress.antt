-- ===== src/Dhcp/LeaseQuery/ByAddress.antt =====
-- The answer to a query by address, which is to say who has the address, and does not say the address.
use docsis_server.Prelude.{
  ℕ, ◌≡◌, ◌≢◌, ◌⊎◌, inl, inr, refl, ◌∙◌, ap, Bool, true, false, ◌&&◌, not, Option, none, some, List,
  [], ◌∷◌, take, get_elem?, ◌==◌, if◌then◌else◌, arith, if_all, if_then, if_else, option_all, done,
  IfDone, IfDone->>=, IfDone-any,
}
use docsis_server.Dhcp.Nets.{
  Message, lease_not_found, lease_cm, lease_cpe, lease_reject, cpe_dynamic,
}
use docsis_server.Dhcp.Repeats.{Seen, ignore_repeated_customers, search_seen}
use docsis_server.Dhcp.Database.{Reply, OwnerRow, Site, Dhcpd, ask, send_packet, set_update_time}
use docsis_server.Dhcp.Leases.{my_update_time}
use docsis_server.Dhcp.ModemCache.{
  my_find_mac_index, my_mcache_load, my_find_cm_mac_cache, take_subnum,
}
use docsis_server.Dhcp.FindMac.{with_modem}
use docsis_server.Dhcp.FindIp.{
  owned_by, take_owner, my_find_ip_query, find_modem_ip, find_owner, my_find_ip, my_find_agent,
}
use docsis_server.Dhcp.Options.{add_opt}
use docsis_server.Dhcp.Server.{reply_to, nak_options, send_nak, expire}
use docsis_server.Dhcp.LeaseQuery.{
  query_time, agent_options, query_options, send_query_ack, answer_query, lease_query,
}
use docsis_server.Dhcp.Server.Writes.{replies, my_delete_lease_keeps, finish-sql-Still}
use docsis_server.Dhcp.Server.Caches.{my_mcache_load-Quiet}
use docsis_server.MacAddr.{cv_addrmac, cv_mac2num}

-- The message has no address to send, and the replies are those.
abbrev Blank : List Reply → Message × Dhcpd → Type 0
Blank rs (m, d) = (m.ipaddr ≡ 0) × (replies d.events ≡ rs)

abbrev OwnerBlank : List Reply → Bool × Message × Dhcpd → Type 0
OwnerBlank rs (b, m, d) = Blank rs (m, d)

my_find_cm_mac_cache-Blank :
    (site : Site) (rs : List Reply) (m : Message) (d : Dhcpd)
    → Blank rs (m, d)
    → IfDone (Blank rs) (my_find_cm_mac_cache site m d)
unfolding my_find_cm_mac_cache
my_find_cm_mac_cache-Blank site rs m d (a, q) =
    let loaded = my_mcache_load site d in
    let q' = my_mcache_load-Quiet site d ∙ q in
    IfDone-any (Blank rs) (my_find_mac_index m.b_modem_macaddr loaded.cache) _ (λ found.
      option_all (Blank rs) found (m, loaded) (λ i. (take_subnum i m loaded, loaded)) (a, q')
        (λ i. (
          option_all (λ (m' : Message). m'.ipaddr ≡ 0) (get_elem? loaded.cache i) m
              (λ e. record m { subnum = e.subnum }) a (λ e. a),
          q',
        )))

with_modem-Blank :
    (text : List ℕ) (m : Message)
    → m.ipaddr ≡ 0
    → IfDone (λ (m' : Message). m'.ipaddr ≡ 0) (with_modem text m)
unfolding with_modem
with_modem-Blank text m a =
    let P = λ (m' : Message). m'.ipaddr ≡ 0 in
    if_all (IfDone P) (m.b_modem_macaddr == 0) _ (done m)
      (IfDone-any P (cv_addrmac text 6) _ (λ mac. a)) a

owned_by-Blank :
    (site : Site) (rs : List Reply) (row : OwnerRow) (m : Message) (d : Dhcpd)
    → Blank rs (m, d)
    → IfDone (OwnerBlank rs) (owned_by site row m d)
unfolding owned_by
owned_by-Blank site rs row m d (a, q) =
    let flagged : Message = record m {
      subnum = row.subnum;
      cpe_type = if row.dynamic_flag then cpe_dynamic else m.cpe_type;
    } in
    if_all (IfDone (OwnerBlank rs)) (m.b_macaddr == 0) (done (false, m, d)) _ (a, q)
      (IfDone->>= (λ (m' : Message). m'.ipaddr ≡ 0) (OwnerBlank rs)
        (with_modem row.modem_macaddr flagged) _ (with_modem-Blank row.modem_macaddr flagged a)
        (λ named b.
          IfDone->>= (Blank rs) (OwnerBlank rs)
            (my_find_cm_mac_cache site (record named { lease_time = row.seconds_left }) d) _
            (my_find_cm_mac_cache-Blank site rs (record named { lease_time = row.seconds_left }) d
              (b, q))
            (λ known k. k)))

my_find_ip_query-Blank :
    (site : Site) (rs : List Reply) (o : Option OwnerRow) (m : Message) (d : Dhcpd)
    → Blank rs (m, d)
    → IfDone (OwnerBlank rs) (my_find_ip_query site o m d)
unfolding my_find_ip_query take_owner
my_find_ip_query-Blank site rs none m d h = h
my_find_ip_query-Blank site rs (some row) m d h =
    IfDone-any (OwnerBlank rs) (cv_addrmac row.macaddr 6) _ (λ mac.
      owned_by-Blank site rs row (record m { macaddr = take 6 mac; b_macaddr = cv_mac2num mac }) d
        h)

find_owner-Blank :
    (site : Site) (rs : List Reply) (ip : ℕ) (m : Message) (d : Dhcpd)
    → Blank rs (m, d)
    → IfDone (Blank rs) (find_owner site ip m d)
unfolding find_owner find_modem_ip
find_owner-Blank site rs ip m d h =
    IfDone->>= (OwnerBlank rs) (Blank rs) (my_find_ip_query site ((ask site d).lease_owner ip) m d)
      _ (my_find_ip_query-Blank site rs ((ask site d).lease_owner ip) m d h)
      (λ found k.
        if_all (IfDone (Blank rs)) found.0
          (done (record found.1 { lease_type = lease_cpe }, found.2)) _ k
          (IfDone->>= (OwnerBlank rs) (Blank rs)
            (my_find_ip_query site ((ask site found.2).modem_owner ip) found.1 found.2) _
            (my_find_ip_query-Blank site rs ((ask site found.2).modem_owner ip) found.1 found.2 k)
            (λ owner k'.
              if_all (Blank rs) owner.0 (record owner.1 { lease_type = lease_cm }, owner.2)
                (owner.1, owner.2) k' k')))

ignore_repeated_customers-ipaddr :
    (now : ℕ) (m : Message) (es : List Seen)
    → (ignore_repeated_customers now m es).0.1.ipaddr ≡ m.ipaddr
unfolding ignore_repeated_customers
ignore_repeated_customers-ipaddr now m es =
    option_all (λ (r : (ℕ × Message) × List Seen). r.0.1.ipaddr ≡ m.ipaddr) (search_seen now m es) _
      _ refl
      (λ found.
        if_all (λ (r : (ℕ × Message) × List Seen). r.0.1.ipaddr ≡ m.ipaddr) found.0 _ _ refl refl)

my_find_ip-Blank :
    (site : Site) (rs : List Reply) (m : Message) (d : Dhcpd)
    → Blank rs (m, d)
    → IfDone (Blank rs) (my_find_ip site m d)
unfolding my_find_ip
my_find_ip-Blank site rs m d (a, q) =
    let told = ignore_repeated_customers site.now (record m { b_ipaddr = m.ciaddr }) d.seen in
    let a' =
      ignore_repeated_customers-ipaddr site.now (record m { b_ipaddr = m.ciaddr }) d.seen ∙ a in
    let d' = record d { seen = told.1 } in
    if_all (IfDone (Blank rs)) (told.0.1.lease_type == lease_reject) (done (told.0.1, d'))
      (find_owner site m.ciaddr told.0.1 d') (a', q)
      (find_owner-Blank site rs m.ciaddr told.0.1 d' (a', q))

expire-Blank :
    (site : Site) (rs : List Reply) (m : Message) (d : Dhcpd)
    → Blank rs (m, d)
    → Blank rs (expire site 0 m d)
unfolding expire
expire-Blank site rs m d (a, q) =
    let kept = my_delete_lease_keeps (λ (m' : Message). m'.ipaddr ≡ 0) site m d a refl in
    if_all (Blank rs) _ _ (m, d) (kept.0, kept.1 ∙ q) (a, q)

-- Nothing more was sent than these replies, or one reply without an address.
abbrev pub NoAddress : List Reply → Bool × Dhcpd → Type 0
NoAddress rs (sent, d) =
    (replies d.events ≡ rs) ⊎ ((r : Reply) × (replies d.events ≡ r ∷ rs) × (r.yiaddr ≡ 0))

send_query_ack-NoAddress :
    (site : Site) (rs : List Reply) (m : Message) (d : Dhcpd)
    → Blank rs (m, d)
    → IfDone (λ (d' : Dhcpd). NoAddress rs (true, d')) (send_query_ack site m d)
unfolding send_query_ack my_update_time send_packet replies
send_query_ack-NoAddress site rs m d (a, q) =
    let P = λ (d' : Dhcpd). NoAddress rs (true, d') in
    IfDone-any P (query_time m) _ (λ time. IfDone-any P (my_find_agent site m d) _ (λ agent.
      let r =
        reply_to m m.ipaddr (add_opt 255 [] (agent_options agent.0 agent.1 (query_options time)))
          [] in
      inr (
        r,
        ap (λ (l : List Reply). r ∷ l)
            ((finish-sql-Still site (set_update_time m.b_ipaddr) d).0 ∙ q),
        a,
      )))

answer_query-NoAddress :
    (site : Site) (rs : List Reply) (m : Message) (d : Dhcpd)
    → Blank rs (m, d)
    → IfDone (NoAddress rs) (answer_query site (m, d))
unfolding answer_query send_nak send_packet replies
answer_query-NoAddress site rs m d h =
    let old = expire site 0 m d in
    let h' = expire-Blank site rs m d h in
    if_all (IfDone (NoAddress rs)) (m.lease_type == lease_reject) (done (false, d)) _ (inl h.1) (
      if_all (IfDone (NoAddress rs)) (old.0.lease_type == lease_not_found)
        (done (true, send_nak old.0 old.1)) _
        (inr (
          reply_to old.0 0 (nak_options old.0) [],
          ap (λ (l : List Reply). reply_to old.0 0 (nak_options old.0) [] ∷ l) h'.1,
          refl,
        ))
        (IfDone->>= (λ (d' : Dhcpd). NoAddress rs (true, d')) (NoAddress rs)
          (send_query_ack site old.0 old.1) _ (send_query_ack-NoAddress site rs old.0 old.1 h')
          (λ d' k. k)))

-- A lease query by address is answered, if at all, by one reply whose own address is 0, whatever the
-- database knows of the address: the message starts without one, and the search does not set it.
pub lease_query-NoAddress :
    (site : Site) (m : Message) (d : Dhcpd)
    → (m.htype ≡ 0) ⊎ (m.hlen ≡ 0)
    → m.ciaddr ≢ 0
    → m.ipaddr ≡ 0
    → IfDone (NoAddress (replies d.events)) (lease_query site m d)
unfolding lease_query
lease_query-NoAddress site m d by_ip has_ip a =
    let rs = replies d.events in
    let P = IfDone (NoAddress rs) in
    let by_address : (not (m.htype == 0) && not (m.hlen == 0)) ≡ false = ground (arith, by_ip) in
    let asked : not (m.ciaddr == 0) ≡ true = ground (arith, has_ip) in
    if_else P (not (m.htype == 0) && not (m.hlen == 0)) _ _ by_address (
      if_then P (not (m.ciaddr == 0)) _ _ asked (
        IfDone->>= (Blank rs) (NoAddress rs) (my_find_ip site m d) _
          (my_find_ip-Blank site rs m d (a, refl))
          (λ found k. answer_query-NoAddress site rs found.0 found.1 k)))
