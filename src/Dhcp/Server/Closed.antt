-- ===== src/Dhcp/Server/Closed.antt =====
-- The whole of my_getNewIP_CPE: a network of dynamic addresses that its search closes stays closed.
use docsis_server.Prelude.{
  ℕ, zero, suc, ◌+◌, ◌≤◌, ◌≡◌, ◌≢◌, refl, sym, subst, Bool, true, false, ◌||◌, not, if_all,
  option_split, Option, none, some, List, [], ◌∷◌, get_elem?, set, length, ltb, ◌==◌, if◌then◌else◌,
  arith,
}
use docsis_server.Dhcp.Nets.{ConfigNets, Message, Counts, count_unused_ip, is_counted}
use docsis_server.Dhcp.NewIp.{
  Search, past, rewound, closed, search_net, skips_cpe, cpe_found, cpe_nets, choose_lease,
  my_get_new_ip_cpe,
}
use docsis_server.Dhcp.Database.{Site, Dhcpd, ask}
use docsis_server.Dhcp.Leases.{
  closings, try_all, flag_writes, recounted, recount, take_given, new_ip_cpe,
}
use docsis_server.Dhcp.Server.NewComputer.{counted}
use docsis_server.Dhcp.Server.Writes.{try_all-Still}

cpe_nets-closed :
    (free : ℕ → Bool) (kind : ℕ × ℕ) (m : Message) (nets : List ConfigNets) (i : ℕ)
    (net : ConfigNets)
    → get_elem? nets i ≡ some net
    → skips_cpe kind m net ≡ false
    → (cpe_nets free kind m nets).0 ≡ none
    → get_elem? (cpe_nets free kind m nets).1 i ≡ some (closed net)
unfolding cpe_nets cpe_found
cpe_nets-closed free kind m [] i net e open_net h = cc
cpe_nets-closed free kind m (n ∷ nets) i net e open_net h =
    go (skips_cpe kind m n) refl (search_net free n) i e h
      (λ j found none_given. cpe_nets-closed free kind m nets j net found open_net none_given)
  where
    rest : Search
    rest = cpe_nets free kind m nets

    go :
        (b : Bool)
        → skips_cpe kind m n ≡ b
        → (r : Option ℕ) (j : ℕ) → get_elem? (n ∷ nets) j ≡ some net
        → (if b then past n rest else cpe_found kind m n nets rest r).0 ≡ none
        → ((k : ℕ)
            → get_elem? nets k ≡ some net
            → rest.0 ≡ none
            → get_elem? rest.1 k ≡ some (closed net))
        → get_elem? (if b then past n rest else cpe_found kind m n nets rest r).1 j
          ≡ some (closed net)
    go true s r zero e' q later = cc
    go true s r (suc j) e' q later = later j e' q
    go false s none zero e' q later = cc
    go false s none (suc j) e' q later = later j e' q
    go false s (some ip) j e' q later = cc

-- The network is flagged full, has dynamic addresses, and its range starts there.
abbrev pub Shut : ℕ → ConfigNets → Type 0
Shut lo net = (net.full_flag ≡ 1) × (net.dynamic_flag ≢ 0) × (net.range_min ≡ lo)

abbrev pub ShutAt : ℕ → ℕ → List ConfigNets → Type 0
ShutAt lo i nets = (net : ConfigNets) × (get_elem? nets i ≡ some net) × Shut lo net

set-ShutAt :
    (lo i sn : ℕ) (net : ConfigNets) (nets : List ConfigNets)
    → get_elem? nets sn ≡ some net
    → ShutAt lo i nets
    → ShutAt lo i (set nets sn (rewound net))
set-ShutAt lo i sn net [] e h = h
set-ShutAt lo zero zero net (n ∷ nets) e (x, found, shut) =
    let same : x ≡ net = cc in (rewound net, refl, subst (Shut lo) same shut)
set-ShutAt lo zero (suc sn) net (n ∷ nets) e h = h
set-ShutAt lo (suc i) zero net (n ∷ nets) e h = h
set-ShutAt lo (suc i) (suc sn) net (n ∷ nets) e h = set-ShutAt lo i sn net nets e h

-- my_CountUnusedIP only counts, and opens, networks of static addresses.
count_unused_ip-ShutAt :
    (lo : ℕ) (free : ℕ → Bool) (vlan cmts_ip sn i : ℕ) (nets : List ConfigNets)
    → ShutAt lo i nets
    → ShutAt lo i (count_unused_ip free vlan cmts_ip sn nets).nets
unfolding count_unused_ip
count_unused_ip-ShutAt lo free vlan cmts_ip sn i [] h = h
count_unused_ip-ShutAt lo free vlan cmts_ip sn zero (n ∷ nets) (x, found, shut) =
    let same : x ≡ n = cc in
    let (full, leased, low) = subst (Shut lo) same shut in
    let passed : is_counted vlan cmts_ip n ≡ false = ground (arith, leased) in
    rw (passed) (n, refl, (full, leased, low))
count_unused_ip-ShutAt lo free vlan cmts_ip sn (suc i) (n ∷ nets) h =
    let later = count_unused_ip-ShutAt lo free vlan cmts_ip (sn + 1) i nets h in
    if_all (λ (c : Counts). ShutAt lo (suc i) c.nets) (is_counted vlan cmts_ip n) _ _ later later

recounted-ShutAt :
    (lo : ℕ) (site : Site) (m : Message) (sn i : ℕ) (net : ConfigNets) (d : Dhcpd)
    → get_elem? d.nets sn ≡ some net
    → ShutAt lo i d.nets
    → ShutAt lo i (recounted site m sn net d).nets
unfolding recounted
recounted-ShutAt lo site m sn i net d e h =
    let counts =
      count_unused_ip (ask site d).cpe_free net.cmts_vlan m.giaddr 0
        (set d.nets sn (rewound net)) in
    let counted : ShutAt lo i counts.nets =
      count_unused_ip-ShutAt lo (ask site d).cpe_free net.cmts_vlan m.giaddr 0 i
        (set d.nets sn (rewound net)) (set-ShutAt lo i sn net d.nets e h) in
    if_all (λ (d' : Dhcpd). ShutAt lo i d'.nets)
      (not (net.cmts_ip == m.giaddr) || net.grant_flag == 0) d
      (try_all site (flag_writes counts.updates) (record d { nets = counts.nets })) h
      (subst (ShutAt lo i)
        (sym
          ((try_all-Still site (flag_writes counts.updates) (record d { nets = counts.nets })).1))
        counted)

recount-ShutAt :
    (lo : ℕ) (site : Site) (m : Message) (n sn i : ℕ) (d : Dhcpd)
    → ShutAt lo i d.nets
    → ShutAt lo i (recount site m n sn d).nets
unfolding recount
recount-ShutAt lo site m zero sn i d h = h
recount-ShutAt lo site m (suc n) sn i d h =
    option_split (λ (d' : Dhcpd). ShutAt lo i d'.nets) (get_elem? d.nets sn) d
      (λ net. recount site m n (sn + 1) (recounted site m sn net d)) (λ e. h)
      (λ net e.
        recount-ShutAt lo site m n (sn + 1) i (recounted site m sn net d)
          (recounted-ShutAt lo site m sn i net d e h))

-- If server_id is at most 1 and the first loop of my_getNewIP_CPE finds no address in any network,
-- each network of dynamic addresses that it searched is flagged full when the call ends, whichever
-- of its addresses are free: the loop that counts free addresses afterwards passes the network
-- over. The message has no address from the call, whose new loads of the table are left out.
pub closes_with_free :
    (site : Site) (m : Message) (d : Dhcpd) (i : ℕ) (net : ConfigNets)
    → site.server_id ≤ 1
    → (my_get_new_ip_cpe site.server_id
        (site.answers d.events).cpe_free
        site.managed
        (counted site m d)
        d.nets).0
      ≡ none
    → get_elem? d.nets i ≡ some net
    → skips_cpe (choose_lease site.managed (counted site m d)) (counted site m d) net ≡ false
    → net.dynamic_flag ≢ 0
    → ((new_ip_cpe site m d).0 ≡ counted site m d)
      × ShutAt net.range_min i (new_ip_cpe site m d).1.nets
unfolding new_ip_cpe take_given my_get_new_ip_cpe
closes_with_free site m d i net first none_given found open_net leased =
    let m1 = counted site m d in
    let kind = choose_lease site.managed m1 in
    let mine : ltb 1 site.server_id ≡ false = ground (arith, first) in
    let free = (site.answers d.events).cpe_free in
    let given = cpe_nets free kind m1 d.nets in
    let nothing : given.0 ≡ none =
      subst (λ b. (if b then (none, d.nets) else given).0 ≡ none) mine none_given in
    let d1 : Dhcpd = record d { nets = given.1 } in
    let d2 = try_all site (closings 0 d.nets given.1) d1 in
    let shut : ShutAt net.range_min i given.1 = (
      closed net,
      cpe_nets-closed free kind m1 d.nets i net found open_net nothing,
      (refl, leased, refl),
    ) in
    let shut2 : ShutAt net.range_min i d2.nets =
      subst (ShutAt net.range_min i) (sym ((try_all-Still site (closings 0 d.nets given.1) d1).1))
        shut in
    rw (mine, nothing) (refl, recount-ShutAt net.range_min site m1 (length given.1) 0 i d2 shut2)
