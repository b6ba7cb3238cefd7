-- ===== src/Dhcp/Server/NewAddress.antt =====
-- A new address for a computer, with its statements, sends nothing and leaves the message one address.
use docsis_server.Prelude.{
  ℕ, false, zero, suc, ◌+◌, ◌≤◌, ◌≡◌, arith, refl, ◌∙◌, ◌||◌, not, none, some, List, get_elem?, set,
  length, ltb, ◌==◌, if_all, option_all,
}
use docsis_server.Dhcp.Nets.{ConfigNets, Message, count_unused_ip, cpe_dynamic}
use docsis_server.Dhcp.NewIp.{Search, rewound, my_get_new_ip_cpe}
use docsis_server.Dhcp.Database.{Write, Reply, Site, Dhcpd, ask, new_cpe_lease}
use docsis_server.Dhcp.Leases.{
  my_write_new_cpe_lease, my_count_allowed_ips, my_count_used_ips, closings, try_all, flag_writes,
  recounted, recount, take_given, new_ip_cpe,
}
use docsis_server.Dhcp.Server.Writes.{
  Quiet, Fine, GivenFine, finish-sql-Still, try_all-Still, my_get_new_ip_cpe-Fine,
  count_flags-ipaddr,
}

recounted-Quiet :
    (site : Site) (m : Message) (sn : ℕ) (net : ConfigNets) (d : Dhcpd)
    → Quiet d (recounted site m sn net d)
unfolding recounted
recounted-Quiet site m sn net d =
    let counts =
      count_unused_ip (ask site d).cpe_free net.cmts_vlan m.giaddr 0
        (set d.nets sn (rewound net)) in
    if_all (Quiet d) (not (net.cmts_ip == m.giaddr) || net.grant_flag == 0) d
      (try_all site (flag_writes counts.updates) (record d { nets = counts.nets })) refl
      ((try_all-Still site (flag_writes counts.updates) (record d { nets = counts.nets })).0)

recount-Quiet : (site : Site) (m : Message) (n sn : ℕ) (d : Dhcpd) → Quiet d (recount site m n sn d)
unfolding recount
recount-Quiet site m zero sn d = refl
recount-Quiet site m (suc n) sn d =
    option_all (Quiet d) (get_elem? d.nets sn) d
      (λ net. recount site m n (sn + 1) (recounted site m sn net d)) refl
      (λ net.
        recount-Quiet site m n (sn + 1) (recounted site m sn net d)
        ∙ recounted-Quiet site m sn net d)

count_used-ipaddr :
    (site : Site) (m : Message) (d : Dhcpd)
    → m.ipaddr ≡ m.b_ipaddr
    → (my_count_used_ips site (my_count_allowed_ips site m d) d).ipaddr
      ≡ (my_count_used_ips site (my_count_allowed_ips site m d) d).b_ipaddr
unfolding my_count_used_ips my_count_allowed_ips
count_used-ipaddr site m d h =
    option_all
      (λ (c : Message). (my_count_used_ips site c d).ipaddr ≡ (my_count_used_ips site c d).b_ipaddr)
      ((ask site d).allowed m.b_modem_macaddr) m
      (λ row. record m { subnum = row.0; static_ip = row.1; dynamic_ip = row.2 })
      (count_flags-ipaddr _ m h)
      (λ row.
        count_flags-ipaddr _ (record m { subnum = row.0; static_ip = row.1; dynamic_ip = row.2 }) h)

take_given-Fine :
    (site : Site) (rs : List Reply) (m : Message) (d : Dhcpd) (s : Search)
    → GivenFine s
    → Fine rs (m, d)
    → Fine rs (take_given site m d s)
unfolding take_given my_write_new_cpe_lease
take_given-Fine site rs m d (none, nets) g (a, q) =
    let d1 = record d { nets = nets } in
    let d2 = try_all site (closings 0 d.nets nets) d1 in
    (
      a,
      recount-Quiet site m (length nets) 0 d2
          ∙ (try_all-Still site (closings 0 d.nets nets) d1).0
          ∙ q,
    )
take_given-Fine site rs m d (some m', nets) g (a, q) =
    let d1 = record d { nets = nets } in
    let d2 = try_all site (closings 0 d.nets nets) d1 in
    (
      g,
      (finish-sql-Still site
            (new_cpe_lease m'.b_ipaddr m'.b_macaddr m'.vlan (m'.cpe_type == cpe_dynamic) m'.subnum)
            d2).0
          ∙ (try_all-Still site (closings 0 d.nets nets) d1).0
          ∙ q,
    )

pub new_ip_cpe-Fine :
    (site : Site) (rs : List Reply) (m : Message) (d : Dhcpd)
    → Fine rs (m, d)
    → Fine rs (new_ip_cpe site m d)
unfolding new_ip_cpe
new_ip_cpe-Fine site rs m d h =
    let counted = my_count_used_ips site (my_count_allowed_ips site m d) d in
    let found =
      my_get_new_ip_cpe site.server_id (ask site d).cpe_free site.managed counted d.nets in
    if_all (Fine rs) (ltb 1 site.server_id) (m, d) (take_given site counted d found) h
      (take_given-Fine site rs counted d found
        (my_get_new_ip_cpe-Fine site.server_id (ask site d).cpe_free site.managed counted d.nets)
        (count_used-ipaddr site m d h.0, h.1))

-- The search that gives an address leaves its networks behind, and its message.
pub new_ip_cpe_given :
    (site : Site) (m m' : Message) (d : Dhcpd) (nets' : List ConfigNets)
    → site.server_id ≤ 1
    → my_get_new_ip_cpe site.server_id
        (site.answers d.events).cpe_free
        site.managed
        (my_count_used_ips site (my_count_allowed_ips site m d) d)
        d.nets
      ≡ (some m', nets')
    → ((new_ip_cpe site m d).0 ≡ m') × ((new_ip_cpe site m d).1.nets ≡ nets')
unfolding new_ip_cpe take_given my_write_new_cpe_lease
new_ip_cpe_given site m m' d nets' first e =
    let mine : ltb 1 site.server_id ≡ false = ground (arith, first) in
    let d1 : Dhcpd = record d { nets = nets' } in
    let d2 : Dhcpd = try_all site (closings 0 d.nets nets') d1 in
    let lease : Write =
      new_cpe_lease m'.b_ipaddr m'.b_macaddr m'.vlan (m'.cpe_type == cpe_dynamic) m'.subnum in
    rw (mine, e)
      (
        refl,
        (finish-sql-Still site lease d2).1 ∙ (try_all-Still site (closings 0 d.nets nets') d1).1,
      )
