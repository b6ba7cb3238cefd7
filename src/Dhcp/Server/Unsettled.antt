-- ===== src/Dhcp/Server/Unsettled.antt =====
-- A computer that the process has not seen and the database does not know passes all searches.
use docsis_server.Prelude.{
  ℕ, ◌+◌, ◌<◌, ◌≡◌, ◌≢◌, refl, true, false, ◌&&◌, ◌||◌, not, none, ltb, ◌==◌, arith, done,
}
use docsis_server.Dhcp.Nets.{Message, lease_not_found}
use docsis_server.Dhcp.Repeats.{ignore_repeated_customers}
use docsis_server.Dhcp.Repeats.Bounds.{AreStrangers, ignore_repeated_customers-stranger}
use docsis_server.Dhcp.Database.{Site, Dhcpd}
use docsis_server.Dhcp.ModemCache.{my_mcache_load, my_find_mac_cache}
use docsis_server.Dhcp.FindMac.{
  my_find_bad_mac, my_find_mac_cm, my_find_mac_cmunknown, my_find_mac_cpe, my_find_mac_precpe,
  find_aside, find_computer, find_unknown, find_stored, find_good, my_find_mac,
}
use docsis_server.Dhcp.Server.{expire, leave_vlan, settle_lease, find_again, assign}

-- What the database does not know.
pub record Unknown (site : Site) (m : Message) (d : Dhcpd) : Type 0 where
  pub good : (site.answers d.events).bad_mac m.b_macaddr ≡ false
  pub no_modem : (site.answers d.events).modem m.b_macaddr ≡ none
  pub no_lease : (site.answers d.events).lease m.b_macaddr ≡ none
  pub no_prelease : (site.answers d.events).prelease m.modem_mac ≡ none

-- A message of a computer, behind a modem, before any search.
pub record Fresh (m : Message) : Type 0 where
  pub computer : m.docsis_modem ≡ 0
  pub relayed : m.agent_mac_len ≢ 0
  pub unsettled : m.lease_type ≡ 0

my_find_mac_cache-stranger :
    (site : Site) (m : Message) (d : Dhcpd)
    → site.high_load ≡ false
    → site.now < d.cache_time + 600
    → AreStrangers m d.seen
    → my_find_mac_cache site m d
      ≡ done (0, m, record d { seen = (ignore_repeated_customers site.now m d.seen).1 })
unfolding my_find_mac_cache my_mcache_load ignore_repeated_customers
my_find_mac_cache-stranger site m d calm young h =
    let told = (ignore_repeated_customers-stranger site.now m d.seen h).0 in
    let due : ltb site.now (d.cache_time + 600) ≡ true = ground (arith, young) in
    rw (told, calm, due) refl

module _ (site : Site) (m : Message) (d : Dhcpd) (unknown : Unknown site m d)
    (fresh : Fresh m) where
  my_find_mac_cm-Unknown : my_find_mac_cm site m d ≡ done (0, m, d)
  unfolding my_find_mac_cm
  my_find_mac_cm-Unknown = rw (unknown.no_modem, my_find_mac_cm) refl

  my_find_mac_cmunknown-computer : my_find_mac_cmunknown site m d ≡ done (0, m, d)
  unfolding my_find_mac_cmunknown
  my_find_mac_cmunknown-computer =
      let passed : (not site.modem_default || not (m.docsis_modem == 1)) ≡ true =
        ground (arith, fresh.computer) in
      rw (passed) refl

  my_find_mac_cpe-Unknown : my_find_mac_cpe site m d ≡ done (0, m, d)
  unfolding my_find_mac_cpe
  my_find_mac_cpe-Unknown =
      let asked : not (m.docsis_modem == 0) ≡ false = ground (arith, fresh.computer) in
      rw (asked, unknown.no_lease) refl

  my_find_mac_precpe-Unknown : my_find_mac_precpe site m d ≡ done (0, m, d)
  unfolding my_find_mac_precpe
  my_find_mac_precpe-Unknown =
      let asked : not (m.docsis_modem == 0) ≡ false = ground (arith, fresh.computer) in
      rw (asked, unknown.no_prelease) refl

  find_stored-Unknown : find_stored site m d ≡ done (0, m, d)
  unfolding find_stored find_unknown find_computer find_aside
  find_stored-Unknown =
      rw
        (
          my_find_mac_cm-Unknown, my_find_mac_cmunknown-computer, my_find_mac_cpe-Unknown,
          my_find_mac_precpe-Unknown,
        )
        refl

  pub find_again-computer : find_again site m d ≡ done (m, d)
  unfolding find_again
  find_again-computer =
      let passed : (m.lease_type == lease_not_found && m.docsis_modem == 1) ≡ false =
        ground (arith, fresh.computer) in
      rw (passed) refl

  -- A message that no search has settled is not about a lease.
  expire-unsettled : expire site 60 m d ≡ (m, d)
  unfolding expire
  expire-unsettled = ground (arith, fresh.unsettled)

  leave_vlan-unsettled : leave_vlan site m d ≡ (m, d)
  unfolding leave_vlan
  leave_vlan-unsettled = ground (arith, fresh.unsettled)

  pub settle_lease-assign :
      (mess_type : ℕ) → settle_lease site mess_type (m, d) ≡ assign site m mess_type d
  unfolding settle_lease
  settle_lease-assign mess_type =
      rw (expire-unsettled, leave_vlan-unsettled) (ground (arith, fresh.unsettled, fresh.relayed))

pub find_good-Unknown :
    (site : Site) (m : Message) (d : Dhcpd)
    → Unknown site m d
    → Fresh m
    → site.high_load ≡ false
    → site.now < d.cache_time + 600
    → AreStrangers m d.seen
    → my_find_mac site m d
      ≡ done (0, m, record d { seen = (ignore_repeated_customers site.now m d.seen).1 })
unfolding my_find_mac my_find_bad_mac find_good
find_good-Unknown site m d unknown fresh calm young h =
    let d1 : Dhcpd = record d { seen = (ignore_repeated_customers site.now m d.seen).1 } in
    let unknown1 : Unknown site m d1 = record {
      good = unknown.good;
      no_modem = unknown.no_modem;
      no_lease = unknown.no_lease;
      no_prelease = unknown.no_prelease;
    } in
    rw
      (
        unknown.good,
        my_find_mac_cache-stranger site m d calm young h,
        find_stored-Unknown site m d1 unknown1 fresh,
      )
      refl
