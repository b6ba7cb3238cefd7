-- ===== src/Dhcp/NewIp/Given.antt =====
-- The address that is given out: it is free, and its network is found again.
use docsis_server.Prelude.{
  ℕ, ◌+◌, ◌≤◌, ◌≡◌, ◌⊎◌, refl, subst, Bool, true, false, ltb, if◌then◌else◌, Option, none, some,
  List, [], ◌∷◌, arith,
}
use docsis_server.Dhcp.Nets.{
  ConfigNets, Message, in_net, find_net, my_get_net, in_vlan, any_vlan, verify_vlan,
}
use docsis_server.Dhcp.NewIp.{
  search_net, used, rewound, closed, skips_cm, skips_cpe, grant_cm, grant_cpe, Search, past,
  cm_found, cpe_found, cm_nets, cpe_nets, choose_lease, my_get_new_ip_cm, my_get_new_ip_cpe,
}
use docsis_server.Dhcp.NewIp.Scan.{Searched, search_net-Searched}

abbrev pub Given : (ℕ → Bool) → Search → Type 0
Given free (none, nets) = Unit {0}
Given free (some m, nets) =
    (free m.b_ipaddr ≡ true) × (m.ipaddr ≡ m.b_ipaddr) × (any_vlan m nets ≡ true)

past-Given :
    (free : ℕ → Bool) (net : ConfigNets) (s : Search) → Given free s → Given free (past net s)
unfolding any_vlan
past-Given free net (none, nets) g = tt
past-Given free net (some m, nets) (f, e, v) = (f, e, ground arith)

cpe_in_vlan :
    (kind : ℕ × ℕ) (m : Message) (net : ConfigNets) (ip : ℕ)
    → skips_cpe kind m net ≡ false
    → net.range_min ≤ ip
    → ip ≤ net.range_max
    → in_vlan (grant_cpe kind m net ip) (used ip net) ≡ true
unfolding skips_cpe in_vlan
cpe_in_vlan (lt, ct) m net ip h lo hi = ground arith

cpe_nets-Given :
    (free : ℕ → Bool) (kind : ℕ × ℕ) (m : Message) (nets : List ConfigNets)
    → Given free (cpe_nets free kind m nets)
unfolding cpe_nets cpe_found any_vlan
cpe_nets-Given free kind m [] = tt
cpe_nets-Given free kind m (net ∷ nets) =
    go (skips_cpe kind m net) refl (search_net free net) (search_net-Searched free net)
      (cpe_nets free kind m nets) (cpe_nets-Given free kind m nets)
  where
    go :
        (b : Bool)
        → skips_cpe kind m net ≡ b
        → (r : Option ℕ) → Searched free net r
        → (rest : Search) → Given free rest
        → Given free (if b then past net rest else cpe_found kind m net nets rest r)
    go true h r s rest g = past-Given free net rest g
    go false h none s rest g = past-Given free (closed net) rest g
    go false h (some ip) (good, lo, hi) rest g =
        (good, refl, let v = cpe_in_vlan kind m net ip h lo hi in ground arith)

cm_in_vlan :
    (m : Message) (net : ConfigNets) (ip : ℕ)
    → (m.docsis_modem ≡ 1) ⊎ (m.docsis_modem ≡ 2)
    → skips_cm m net ≡ false
    → net.range_min ≤ ip
    → ip ≤ net.range_max
    → in_vlan (grant_cm m net ip) (used ip net) ≡ true
unfolding skips_cm in_vlan
cm_in_vlan m net ip d h lo hi = ground arith

cm_nets-Given :
    (free : ℕ → Bool) (m : Message) (nets : List ConfigNets)
    → (m.docsis_modem ≡ 1) ⊎ (m.docsis_modem ≡ 2)
    → Given free (cm_nets free m nets)
unfolding cm_nets cm_found any_vlan
cm_nets-Given free m [] d = tt
cm_nets-Given free m (net ∷ nets) d =
    go (skips_cm m net) refl (search_net free net) (search_net-Searched free net)
      (cm_nets free m nets) (cm_nets-Given free m nets d)
  where
    go :
        (b : Bool)
        → skips_cm m net ≡ b
        → (r : Option ℕ) → Searched free net r
        → (rest : Search) → Given free rest
        → Given free (if b then past net rest else cm_found m net nets rest r)
    go true h r s rest g = past-Given free net rest g
    go false h none s rest g = past-Given free (rewound net) rest g
    go false h (some ip) (good, lo, hi) rest g =
        (good, refl, let v = cm_in_vlan m net ip d h lo hi in ground arith)

in_vlan-in_net : (m : Message) (net : ConfigNets) → in_vlan m net ≡ true → in_net m net ≡ true
unfolding in_vlan in_net
in_vlan-in_net m net h = ground arith

find_net-any_vlan :
    (m : Message) (sn : ℕ) (nets : List ConfigNets)
    → any_vlan m nets ≡ true
    → (x : ℕ × ℕ) × (find_net m sn nets ≡ some x)
unfolding any_vlan find_net
find_net-any_vlan m sn [] h = cc
find_net-any_vlan m sn (net ∷ nets) h =
    go (in_net m net) refl (find_net m (sn + 1) nets) (λ v. find_net-any_vlan m (sn + 1) nets v)
  where
    tail_has : in_net m net ≡ false → any_vlan m nets ≡ true
    tail_has e = let v = in_vlan-in_net m net in ground arith

    go :
        (b : Bool)
        → in_net m net ≡ b
        → (r : Option (ℕ × ℕ)) → (any_vlan m nets ≡ true → (x : ℕ × ℕ) × (r ≡ some x))
        → (x : ℕ × ℕ) × ((if b then some (sn, net.lease_time) else r) ≡ some x)
    go true e r f = (_, refl)
    go false e r f = f (tail_has e)

my_get_net-any_vlan :
    (m : Message) (nets : List ConfigNets) → any_vlan m nets ≡ true → (my_get_net nets m).0 ≡ false
unfolding my_get_net
my_get_net-any_vlan m nets h = let (x, e) = find_net-any_vlan m 0 nets h in rw (e, my_get_net)

verify_vlan-any_vlan :
    (m : Message) (nets : List ConfigNets) → any_vlan m nets ≡ true → verify_vlan nets m ≡ false
unfolding verify_vlan
verify_vlan-any_vlan m [] h = refl
verify_vlan-any_vlan m (net ∷ nets) h = ground (arith, h)

-- What the caller of a search relies on: the new address is free in the database, and my_Get_Net and
-- Verify_Vlan accept the message in the table that the search leaves.
abbrev pub Serves : (ℕ → Bool) → Message → List ConfigNets → Type 0
Serves free m nets =
    (free m.b_ipaddr ≡ true)
    × (m.ipaddr ≡ m.b_ipaddr)
    × ((my_get_net nets m).0 ≡ false)
    × (verify_vlan nets m ≡ false)

Given-Serves :
    (free : ℕ → Bool) (s : Search) (m : Message) (nets : List ConfigNets)
    → Given free s
    → s ≡ (some m, nets)
    → Serves free m nets
Given-Serves free s m nets g e =
    let (f, same, v) : Given free (some m, nets) = subst (Given free) e g in
    (f, same, my_get_net-any_vlan m nets v, verify_vlan-any_vlan m nets v)

-- If my_getNewIP_CPE gives a computer an address, the database has no lease for it, and my_Get_Net
-- and Verify_Vlan accept it afterwards.
pub my_get_new_ip_cpe-Serves :
    (server_id : ℕ) (free : ℕ → Bool) (managed : Bool) (m m' : Message)
    (nets nets' : List ConfigNets)
    → my_get_new_ip_cpe server_id free managed m nets ≡ (some m', nets')
    → Serves free m' nets'
unfolding my_get_new_ip_cpe
my_get_new_ip_cpe-Serves server_id free managed m m' nets nets' e =
    Given-Serves free (my_get_new_ip_cpe server_id free managed m nets) m' nets'
      (go (ltb 1 server_id)) e
  where
    go :
        (b : Bool)
        → Given free (if b then (none, nets) else cpe_nets free (choose_lease managed m) m nets)
    go true = tt
    go false = cpe_nets-Given free (choose_lease managed m) m nets

-- If my_getNewIP_CM gives a modem or an MTA an address, no other one has it in the database, and
-- my_Get_Net and Verify_Vlan accept it afterwards.
pub my_get_new_ip_cm-Serves :
    (server_id : ℕ) (free : ℕ → Bool) (m m' : Message) (nets nets' : List ConfigNets)
    → (m.docsis_modem ≡ 1) ⊎ (m.docsis_modem ≡ 2)
    → my_get_new_ip_cm server_id free m nets ≡ (some m', nets')
    → Serves free m' nets'
unfolding my_get_new_ip_cm
my_get_new_ip_cm-Serves server_id free m m' nets nets' d e =
    Given-Serves free (my_get_new_ip_cm server_id free m nets) m' nets' (go (ltb 1 server_id)) e
  where
    go : (b : Bool) → Given free (if b then (none, nets) else cm_nets free m nets)
    go true = tt
    go false = cm_nets-Given free m nets d
