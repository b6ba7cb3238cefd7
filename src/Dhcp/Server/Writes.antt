-- ===== src/Dhcp/Server/Writes.antt =====
-- The statements for the database leave the networks and the replies alone, and a message keeps one
-- address, in both of its fields.
use docsis_server.Prelude.{
  ℕ, ◌+◌, ◌≡◌, refl, ◌∙◌, Bool, true, false, Option, none, some, List, [], ◌∷◌, ltb, ◌==◌, if_all,
}
use docsis_server.Dhcp.Nets.{ConfigNets, Message}
use docsis_server.Dhcp.NewIp.{
  Search, cm_nets, cm_found, cpe_nets, cpe_found, skips_cm, skips_cpe, search_net, choose_lease,
  my_get_new_ip_cm, my_get_new_ip_cpe, past,
}
use docsis_server.Dhcp.Database.{
  Write, save_old_lease, set_agent, delete_lease, new_cm_lease, Reply, Event, wrote, replied, Site,
  Dhcpd, ask, sql,
}
use docsis_server.Dhcp.Leases.{
  finish, my_write_new_cm_lease, sql_all, my_update_lease, my_update_agent, my_delete_lease,
  new_ip_cm, count_flags, try_all,
}

-- What was sent, the last reply first.
unfoldable pub replies : List Event → List Reply
replies [] = []
replies (wrote w ∷ es) = replies es
replies (replied r ∷ es) = r ∷ replies es

-- Nothing was sent from `d` to `d'`.
abbrev pub Quiet : Dhcpd → Dhcpd → Type 0
Quiet d d' = replies d'.events ≡ replies d.events

abbrev pub SameNets : Dhcpd → Dhcpd → Type 0
SameNets d d' = d'.nets ≡ d.nets

pub after_write : Write → Dhcpd → Dhcpd
after_write w d = record d { events = wrote w ∷ d.events }

-- What holds after a failed and after a successful statement.
pub after_sql :
    (P : Option Dhcpd → Type 0) (site : Site) (w : Write) (d : Dhcpd)
    → P none
    → P (some (after_write w d))
    → P (sql site w d)
unfolding sql after_write
after_sql P site w d p q = if_all P (site.accepts d.events w) (some (after_write w d)) none q p

-- Neither the networks nor the replies differ.
abbrev pub Still : Dhcpd → Dhcpd → Type 0
Still d d' = Quiet d d' × SameNets d d'

pub finish-sql-Still : (site : Site) (w : Write) (d : Dhcpd) → Still d (finish d (sql site w d))
unfolding after_write replies
finish-sql-Still site w d =
    after_sql (λ (o : Option Dhcpd). Still d (finish d o)) site w d (refl, refl) (refl, refl)

pub sql_all-Still : (site : Site) (ws : List Write) (d : Dhcpd) → Still d (sql_all site ws d)
unfolding sql_all after_write replies
sql_all-Still site [] d = (refl, refl)
sql_all-Still site (w ∷ ws) d =
    after_sql (λ (o : Option Dhcpd). Still d (elim o [ none ↦ d | some d' ↦ sql_all site ws d' ]))
      site w d (refl, refl) (sql_all-Still site ws (after_write w d))

pub try_all-Still : (site : Site) (ws : List Write) (d : Dhcpd) → Still d (try_all site ws d)
unfolding try_all
try_all-Still site [] d = (refl, refl)
try_all-Still site (w ∷ ws) d =
    let one = finish-sql-Still site w d in
    let more = try_all-Still site ws (finish d (sql site w d)) in (more.0 ∙ one.0, more.1 ∙ one.1)

-- The message says one address, and the replies are those.
abbrev pub Fine : List Reply → Message × Dhcpd → Type 0
Fine rs (m, d) = (m.ipaddr ≡ m.b_ipaddr) × (replies d.events ≡ rs)

-- What holds of the message, with and without its address, holds after my_DeleteLease.
pub my_delete_lease_keeps :
    (P : Message → Type 0) (site : Site) (m : Message) (d : Dhcpd)
    → P m
    → P (record m { b_ipaddr = 0; ipaddr = 0; vlan = 0 })
    → P (my_delete_lease site m d).0 × Quiet d (my_delete_lease site m d).1
unfolding my_delete_lease after_write replies
my_delete_lease_keeps P site m d p q =
    let Kept : Message × Dhcpd → Type 0 = λ (r : Message × Dhcpd). P r.0 × Quiet d r.1 in
    after_sql
      (λ (o : Option Dhcpd). Kept (elim o [
        | none ↦ (m, d)
        | some d1 ↦ elim (sql site (delete_lease m.b_ipaddr) d1) [
          | none ↦ (m, d1)
          | some d2 ↦ (record m { b_ipaddr = 0; ipaddr = 0; vlan = 0 }, d2)
        ]
      ]))
      site (save_old_lease m.b_ipaddr) d (p, refl)
      (after_sql
        (λ (o : Option Dhcpd). Kept (elim o [
          | none ↦ (m, after_write (save_old_lease m.b_ipaddr) d)
          | some d2 ↦ (record m { b_ipaddr = 0; ipaddr = 0; vlan = 0 }, d2)
        ]))
        site (delete_lease m.b_ipaddr) (after_write (save_old_lease m.b_ipaddr) d) (p, refl)
        (q, refl))

pub my_delete_lease-Fine :
    (site : Site) (rs : List Reply) (m : Message) (d : Dhcpd)
    → Fine rs (m, d)
    → Fine rs (my_delete_lease site m d)
my_delete_lease-Fine site rs m d (a, q) =
    let kept = my_delete_lease_keeps (λ (m' : Message). m'.ipaddr ≡ m'.b_ipaddr) site m d a refl in
    (kept.0, kept.1 ∙ q)

abbrev pub GivenFine : Search → Type 0
GivenFine (none, nets) = Unit {0}
GivenFine (some m, nets) = m.ipaddr ≡ m.b_ipaddr

cm_found-Fine :
    (m : Message) (net : ConfigNets) (nets : List ConfigNets) (rest : Search) (o : Option ℕ)
    → GivenFine rest
    → GivenFine (cm_found m net nets rest o)
unfolding cm_found
cm_found-Fine m net nets (none, r) none h = tt
cm_found-Fine m net nets (some m', r) none h = h
cm_found-Fine m net nets rest (some ip) h = refl

past-Fine : (net : ConfigNets) (rest : Search) → GivenFine rest → GivenFine (past net rest)
past-Fine net (none, r) h = tt
past-Fine net (some m', r) h = h

cm_nets-Fine :
    (free : ℕ → Bool) (m : Message) (nets : List ConfigNets) → GivenFine (cm_nets free m nets)
unfolding cm_nets
cm_nets-Fine free m [] = tt
cm_nets-Fine free m (net ∷ nets) =
    let ih = cm_nets-Fine free m nets in
    if_all GivenFine (skips_cm m net) (past net (cm_nets free m nets))
      (cm_found m net nets (cm_nets free m nets) (search_net free net))
      (past-Fine net (cm_nets free m nets) ih)
      (cm_found-Fine m net nets (cm_nets free m nets) (search_net free net) ih)

cpe_found-Fine :
    (kind : ℕ × ℕ) (m : Message) (net : ConfigNets) (nets : List ConfigNets) (rest : Search)
    (o : Option ℕ)
    → GivenFine rest
    → GivenFine (cpe_found kind m net nets rest o)
unfolding cpe_found
cpe_found-Fine kind m net nets (none, r) none h = tt
cpe_found-Fine kind m net nets (some m', r) none h = h
cpe_found-Fine kind m net nets rest (some ip) h = refl

cpe_nets-Fine :
    (free : ℕ → Bool) (kind : ℕ × ℕ) (m : Message) (nets : List ConfigNets)
    → GivenFine (cpe_nets free kind m nets)
unfolding cpe_nets
cpe_nets-Fine free kind m [] = tt
cpe_nets-Fine free kind m (net ∷ nets) =
    let ih = cpe_nets-Fine free kind m nets in
    if_all GivenFine (skips_cpe kind m net) (past net (cpe_nets free kind m nets))
      (cpe_found kind m net nets (cpe_nets free kind m nets) (search_net free net))
      (past-Fine net (cpe_nets free kind m nets) ih)
      (cpe_found-Fine kind m net nets (cpe_nets free kind m nets) (search_net free net) ih)

my_get_new_ip_cm-Fine :
    (id : ℕ) (free : ℕ → Bool) (m : Message) (nets : List ConfigNets)
    → GivenFine (my_get_new_ip_cm id free m nets)
unfolding my_get_new_ip_cm
my_get_new_ip_cm-Fine id free m nets =
    if_all GivenFine (ltb 1 id) (none, nets) (cm_nets free m nets) tt (cm_nets-Fine free m nets)

pub my_get_new_ip_cpe-Fine :
    (id : ℕ) (free : ℕ → Bool) (managed : Bool) (m : Message) (nets : List ConfigNets)
    → GivenFine (my_get_new_ip_cpe id free managed m nets)
unfolding my_get_new_ip_cpe
my_get_new_ip_cpe-Fine id free managed m nets =
    if_all GivenFine (ltb 1 id) (none, nets) (cpe_nets free (choose_lease managed m) m nets) tt
      (cpe_nets-Fine free (choose_lease managed m) m nets)

-- The search, with what it writes, as a function of its outcome.
given_cm-Fine :
    (site : Site) (rs : List Reply) (m : Message) (d : Dhcpd) (s : Search)
    → GivenFine s
    → Fine rs (m, d)
    → Fine rs (elim s.0 [
      | none ↦ (m, record d { nets = s.1 })
      | some m' ↦ (m', my_write_new_cm_lease site m' (record d { nets = s.1 }))
    ])
unfolding my_write_new_cm_lease
given_cm-Fine site rs m d (none, nets) g h = h
given_cm-Fine site rs m d (some m', nets) g (a, q) = (
  g,
  (finish-sql-Still site (new_cm_lease m'.b_ipaddr m'.b_macaddr) (record d { nets = nets })).0 ∙ q,
)

pub new_ip_cm-Fine :
    (site : Site) (rs : List Reply) (m : Message) (d : Dhcpd)
    → Fine rs (m, d)
    → Fine rs (new_ip_cm site m d)
unfolding new_ip_cm
new_ip_cm-Fine site rs m d h =
    given_cm-Fine site rs m d (my_get_new_ip_cm site.server_id (ask site d).cm_free m d.nets)
      (my_get_new_ip_cm-Fine site.server_id (ask site d).cm_free m d.nets) h

pub count_flags-ipaddr :
    (flags : List Bool) (m : Message)
    → m.ipaddr ≡ m.b_ipaddr
    → (count_flags flags m).ipaddr ≡ (count_flags flags m).b_ipaddr
unfolding count_flags
count_flags-ipaddr [] m h = h
count_flags-ipaddr (true ∷ flags) m h =
    count_flags-ipaddr flags (record m { dynamic_cur = m.dynamic_cur + 1 }) h
count_flags-ipaddr (false ∷ flags) m h =
    count_flags-ipaddr flags (record m { static_cur = m.static_cur + 1 }) h

pub my_update_agent-Still :
    (site : Site) (m : Message) (d : Dhcpd) → Still d (my_update_agent site m d)
unfolding my_update_agent
my_update_agent-Still site m d =
    let w = set_agent m.b_macaddr m.b_ipaddr m.giaddr m.agentid in
    if_all (Still d) (m.agent_mac_len == 0) d (finish d (sql site w d)) (refl, refl)
      (finish-sql-Still site w d)

pub my_update_lease-Still :
    (site : Site) (m : Message) (d : Dhcpd) → Still d (my_update_lease site m d)
unfolding my_update_lease
my_update_lease-Still site m d = sql_all-Still site _ d
