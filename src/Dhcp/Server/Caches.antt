-- ===== src/Dhcp/Server/Caches.antt =====
-- The searches of the tables in memory send nothing, and leave the message one address.
use docsis_server.Prelude.{
  ℕ, ◌+◌, ◌≡◌, refl, ◌∙◌, List, get_elem?, ltb, ◌==◌, if◌then◌else◌, if_all, option_all, done,
  fault, IfDone, IfDone->>=, IfDone-any,
}
use docsis_server.Dhcp.Nets.{Message, verify_vlan, lease_not_found, lease_cm, lease_reject}
use docsis_server.Dhcp.Repeats.{Seen, ignore_repeated_customers, search_seen}
use docsis_server.Dhcp.Database.{Reply, ModemCache, Site, Dhcpd}
use docsis_server.Dhcp.ModemCache.{
  FoundMac, forget_at, fill_cached, use_entry, search_cache, my_mcache_load, my_find_mac_index,
  my_clear_mcache_entry, my_find_mac_cache, take_subnum, my_find_cm_mac_cache,
}
use docsis_server.Dhcp.Server.Writes.{Quiet, Fine}

-- The address of a message, in both of its fields.
abbrev pub OneAddress : Message → Type 0
OneAddress m = m.ipaddr ≡ m.b_ipaddr

abbrev pub FoundFine : List Reply → FoundMac → Type 0
FoundFine rs (k, m, d) = Fine rs (m, d)

forget_at-Quiet : (i : ℕ) (d : Dhcpd) → Quiet d (forget_at i d)
forget_at-Quiet i d = option_all (Quiet d) (get_elem? d.cache i) d _ refl (λ e. refl)

pub my_mcache_load-Quiet : (site : Site) (d : Dhcpd) → Quiet d (my_mcache_load site d)
unfolding my_mcache_load
my_mcache_load-Quiet site d = if_all (Quiet d) (ltb site.now (d.cache_time + 600)) d _ refl refl

pub ignore_repeated_customers-OneAddress :
    (now : ℕ) (m : Message) (es : List Seen)
    → OneAddress m
    → OneAddress (ignore_repeated_customers now m es).0.1
unfolding ignore_repeated_customers
ignore_repeated_customers-OneAddress now m es h =
    option_all (λ (r : (ℕ × Message) × List Seen). OneAddress r.0.1) (search_seen now m es) _ _ h
      (λ found. if_all (λ (r : (ℕ × Message) × List Seen). OneAddress r.0.1) found.0 _ _ h h)

pub my_clear_mcache_entry-Quiet :
    (m : Message) (d : Dhcpd) → IfDone (Quiet d) (my_clear_mcache_entry m d)
unfolding my_clear_mcache_entry
my_clear_mcache_entry-Quiet m d =
    IfDone-any (Quiet d) (my_find_mac_index m.b_macaddr d.cache) _
      (λ found. option_all (Quiet d) found d (λ i. forget_at i d) refl (λ i. forget_at-Quiet i d))

fill_cached-OneAddress : (e : ModemCache) (m : Message) → IfDone OneAddress (fill_cached e m)
unfolding fill_cached
fill_cached-OneAddress e m = option_all (IfDone OneAddress) e.cfname fault _ tt (λ name. refl)

use_entry-Fine :
    (rs : List Reply) (i : ℕ) (e : ModemCache) (m : Message) (d : Dhcpd)
    → Fine rs (m, d)
    → IfDone (FoundFine rs) (use_entry i e m d)
unfolding use_entry
use_entry-Fine rs i e m d (a, q) =
    if_all (IfDone (FoundFine rs)) (e.ipaddr == 0) (done (lease_not_found, m, d)) _ (a, q)
      (IfDone->>= OneAddress (FoundFine rs) (fill_cached e m) _ (fill_cached-OneAddress e m)
        (λ m' a'.
          if_all (FoundFine rs) (verify_vlan d.nets m') (lease_not_found, m', forget_at i d)
            (lease_cm, m', d) (a', forget_at-Quiet i d ∙ q) (a', q)))

search_cache-Fine :
    (rs : List Reply) (m : Message) (d : Dhcpd)
    → Fine rs (m, d)
    → IfDone (FoundFine rs) (search_cache m d)
unfolding search_cache
search_cache-Fine rs m d h =
    IfDone-any (FoundFine rs) (my_find_mac_index m.b_macaddr d.cache) _ (λ found.
      option_all (IfDone (FoundFine rs)) found (done (lease_not_found, m, d)) _ h (λ i.
        option_all (IfDone (FoundFine rs)) (get_elem? d.cache i) fault _ tt
          (λ e. use_entry-Fine rs i e m d h)))

pub my_find_mac_cache-Fine :
    (site : Site) (rs : List Reply) (m : Message) (d : Dhcpd)
    → Fine rs (m, d)
    → IfDone (FoundFine rs) (my_find_mac_cache site m d)
unfolding my_find_mac_cache
my_find_mac_cache-Fine site rs m d (a, q) =
    let told = ignore_repeated_customers site.now m d.seen in
    let d1 = record d { seen = told.1 } in
    let d2 = my_mcache_load site d1 in
    let a' = ignore_repeated_customers-OneAddress site.now m d.seen a in
    let q' = my_mcache_load-Quiet site d1 ∙ q in
    if_all (IfDone (FoundFine rs)) (told.0.0 == lease_reject) (done (lease_reject, told.0.1, d1))
      (if site.high_load then search_cache told.0.1 d2 else done (lease_not_found, told.0.1, d2))
      (a', q)
      (if_all (IfDone (FoundFine rs)) site.high_load (search_cache told.0.1 d2)
        (done (lease_not_found, told.0.1, d2)) (search_cache-Fine rs told.0.1 d2 (a', q')) (a', q'))

pub my_find_cm_mac_cache-Fine :
    (site : Site) (rs : List Reply) (m : Message) (d : Dhcpd)
    → Fine rs (m, d)
    → IfDone (Fine rs) (my_find_cm_mac_cache site m d)
unfolding my_find_cm_mac_cache
my_find_cm_mac_cache-Fine site rs m d (a, q) =
    let loaded = my_mcache_load site d in
    let q' = my_mcache_load-Quiet site d ∙ q in
    IfDone-any (Fine rs) (my_find_mac_index m.b_modem_macaddr loaded.cache) _ (λ found.
      option_all (Fine rs) found (m, loaded) (λ i. (take_subnum i m loaded, loaded)) (a, q')
        (λ i. (
          option_all OneAddress (get_elem? loaded.cache i) m (λ e. record m { subnum = e.subnum }) a
              (λ e. a),
          q',
        )))
