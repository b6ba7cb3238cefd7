-- ===== src/Dhcp/Server/Searches.antt =====
-- The searches of my_findMAC send nothing, and leave the message one address.
use docsis_server.Prelude.{
  ℕ, refl, ◌∙◌, Bool, true, false, ◌||◌, not, Option, none, some, List, [], ◌∷◌, ◌==◌,
  if◌then◌else◌, if_all, option_all, Run, done, fault, ◌>>=◌, IfDone, IfDone->>=, IfDone-any,
}
use docsis_server.Dhcp.Nets.{
  Message, my_get_net, find_net, verify_vlan, lease_cm, lease_cpe, lease_unknown, lease_reject,
  cpe_dynamic,
}
use docsis_server.Dhcp.Database.{Reply, ModemRow, Site, Dhcpd, ask, new_cpe_lease}
use docsis_server.Dhcp.Leases.{new_ip_cm, my_write_new_cpe_lease}
use docsis_server.Dhcp.ModemCache.{
  FoundMac, my_clear_mcache_entry, my_find_mac_cache, my_find_cm_mac_cache,
}
use docsis_server.Dhcp.FindMac.{
  my_find_bad_mac, my_find_ip_cm, cm_address, cm_kind, fill_modem, known_modem, my_find_mac_cm,
  default_file, my_find_mac_cmunknown, with_modem, with_file, fill_lease, my_find_mac_cpe,
  fill_prelease, take_prelease, my_find_mac_precpe, or_else, not_found, find_aside, find_computer,
  find_unknown, find_stored, find_good, my_find_mac,
}
use docsis_server.MacAddr.{cv_addrmac}
use docsis_server.Dhcp.Server.Writes.{Quiet, Fine, finish-sql-Still, new_ip_cm-Fine}
use docsis_server.Dhcp.Server.Caches.{
  OneAddress, FoundFine, my_clear_mcache_entry-Quiet, my_find_mac_cache-Fine,
  my_find_cm_mac_cache-Fine,
}

-- The outcome of my_findIP_CM, acted upon.
abbrev pub AddressFine : List Reply → Site → Dhcpd → Bool × Message → Type 0
AddressFine rs site d (missing, m') = IfDone (Fine rs) (
    if missing
    then done (new_ip_cm site m' d)
    else if verify_vlan d.nets m'
    then (my_clear_mcache_entry m' d >>= λ d'. done (new_ip_cm site m' d'))
    else done (m', d))

with_address-Fine :
    (site : Site) (rs : List Reply) (missing : Bool) (m : Message) (d : Dhcpd)
    → Fine rs (m, d)
    → AddressFine rs site d (missing, m)
with_address-Fine site rs missing m d (a, q) =
    if_all (IfDone (Fine rs)) missing (done (new_ip_cm site m d)) _
      (new_ip_cm-Fine site rs m d (a, q))
      (if_all (IfDone (Fine rs)) (verify_vlan d.nets m) _ (done (m, d))
        (IfDone->>= (Quiet d) (Fine rs) (my_clear_mcache_entry m d) _
          (my_clear_mcache_entry-Quiet m d) (λ d' q'. new_ip_cm-Fine site rs m d' (a, q' ∙ q)))
        (a, q))

cm_address-Fine :
    (site : Site) (rs : List Reply) (m : Message) (d : Dhcpd)
    → Fine rs (m, d)
    → IfDone (Fine rs) (cm_address site m d)
unfolding cm_address my_find_ip_cm
cm_address-Fine site rs m d (a, q) =
    option_all (AddressFine rs site d) ((ask site d).cm_address m.b_macaddr) (true, m)
      (λ ip. (false, record m { ipaddr = ip; b_ipaddr = ip }))
      (with_address-Fine site rs true m d (a, q))
      (λ ip. with_address-Fine site rs false (record m { ipaddr = ip; b_ipaddr = ip }) d (refl, q))

known_modem-Fine :
    (site : Site) (rs : List Reply) (m : Message) (row : ModemRow) (d : Dhcpd)
    → Fine rs (m, d)
    → IfDone (FoundFine rs) (known_modem site m row d)
unfolding known_modem
known_modem-Fine site rs m row d h =
    option_all (IfDone (FoundFine rs)) row.config_file fault _ tt (λ file.
      IfDone->>= (Fine rs) (FoundFine rs) (cm_address site (fill_modem m row file) d) _
        (cm_address-Fine site rs (fill_modem m row file) d h)
        (λ addressed k. IfDone-any (FoundFine rs) (cm_kind m) _ (λ kind. k)))

my_find_mac_cm-Fine :
    (site : Site) (rs : List Reply) (m : Message) (d : Dhcpd)
    → Fine rs (m, d)
    → IfDone (FoundFine rs) (my_find_mac_cm site m d)
unfolding my_find_mac_cm
my_find_mac_cm-Fine site rs m d h =
    option_all (IfDone (FoundFine rs)) ((ask site d).modem m.b_macaddr) (done (0, m, d)) _ h
      (λ row. known_modem-Fine site rs m row d h)

pub my_find_mac_cmunknown-Fine :
    (site : Site) (rs : List Reply) (m : Message) (d : Dhcpd)
    → Fine rs (m, d)
    → IfDone (FoundFine rs) (my_find_mac_cmunknown site m d)
unfolding my_find_mac_cmunknown
my_find_mac_cmunknown-Fine site rs m d h =
    let named = record m { cfname = (default_file site m d).1 } in
    let filled = record named {
      lease_type = lease_cm;
      vlan = 1;
      subnum = m.serial;
      static_ip = 0;
      dynamic_ip = 0;
      opt = 0;
    } in
    if_all (IfDone (FoundFine rs)) (not site.modem_default || not (m.docsis_modem == 1))
      (done (0, m, d)) _ h
      (if_all (IfDone (FoundFine rs)) (not (default_file site m d).0) (done (0, named, d)) _ h (
        IfDone->>= (Fine rs) (FoundFine rs) (cm_address site filled d) _
          (cm_address-Fine site rs filled d h) (λ addressed k. k)))

pub with_modem-OneAddress :
    (text : List ℕ) (m : Message) → OneAddress m → IfDone OneAddress (with_modem text m)
unfolding with_modem
with_modem-OneAddress text m a =
    if_all (IfDone OneAddress) (m.b_modem_macaddr == 0) _ (done m)
      (IfDone-any OneAddress (cv_addrmac text 6) _ (λ mac. a)) a

with_file-OneAddress :
    (file : Option (List ℕ)) (m : Message) → OneAddress m → OneAddress (with_file file m)
with_file-OneAddress none m a = a
with_file-OneAddress (some []) m a = a
with_file-OneAddress (some (c ∷ text)) m a = a

my_find_mac_cpe-Fine :
    (site : Site) (rs : List Reply) (m : Message) (d : Dhcpd)
    → Fine rs (m, d)
    → IfDone (FoundFine rs) (my_find_mac_cpe site m d)
unfolding my_find_mac_cpe
my_find_mac_cpe-Fine site rs m d (a, q) =
    if_all (IfDone (FoundFine rs)) (not (m.docsis_modem == 0)) (done (0, m, d)) _ (a, q)
      (option_all (IfDone (FoundFine rs)) ((ask site d).lease m.b_macaddr) (done (0, m, d)) _ (a, q)
        (λ row.
          IfDone->>= OneAddress (FoundFine rs) (with_modem row.modem_macaddr (fill_lease row m)) _
            (with_modem-OneAddress row.modem_macaddr (fill_lease row m) refl)
            (λ named b.
              IfDone->>= (Fine rs) (FoundFine rs)
                (my_find_cm_mac_cache site (with_file row.config_file named) d) _
                (my_find_cm_mac_cache-Fine site rs (with_file row.config_file named) d
                  (with_file-OneAddress row.config_file named b, q))
                (λ known k. k))))

-- The outcome of my_Get_Net, acted upon.
take_net-Fine :
    (site : Site) (rs : List Reply) (found : Option (ℕ × ℕ)) (m : Message) (d : Dhcpd)
    → Fine rs (m, d)
    → FoundFine rs (
        let got : Bool × Message = elim found [
          | none ↦ (true, m)
          | some (sn, time) ↦ (false, record m { lease_time = time; netptr = sn })
        ] in
        if got.0 then (0, got.1, d) else (1, got.1, my_write_new_cpe_lease site got.1 d))
unfolding my_write_new_cpe_lease
take_net-Fine site rs none m d h = h
take_net-Fine site rs (some (sn, time)) m d (a, q) = (
  a,
  (finish-sql-Still site
        (new_cpe_lease m.b_ipaddr m.b_macaddr m.vlan (m.cpe_type == cpe_dynamic) m.subnum) d).0
      ∙ q,
)

take_prelease-Fine :
    (site : Site) (rs : List Reply) (m : Message) (d : Dhcpd)
    → Fine rs (m, d)
    → FoundFine rs (take_prelease site (m, d))
unfolding my_get_net
take_prelease-Fine site rs m d h = take_net-Fine site rs (find_net m 0 d.nets) m d h

my_find_mac_precpe-Fine :
    (site : Site) (rs : List Reply) (m : Message) (d : Dhcpd)
    → Fine rs (m, d)
    → IfDone (FoundFine rs) (my_find_mac_precpe site m d)
unfolding my_find_mac_precpe
my_find_mac_precpe-Fine site rs m d (a, q) =
    if_all (IfDone (FoundFine rs)) (not (m.docsis_modem == 0)) (done (0, m, d)) _ (a, q)
      (option_all (IfDone (FoundFine rs)) ((ask site d).prelease m.modem_mac) (done (0, m, d)) _
        (a, q)
        (λ row.
          IfDone->>= OneAddress (FoundFine rs) (with_modem row.modem_macaddr (fill_prelease row m))
            _ (with_modem-OneAddress row.modem_macaddr (fill_prelease row m) refl)
            (λ named b.
              IfDone->>= (Fine rs) (FoundFine rs)
                (my_find_cm_mac_cache site (with_file row.config_file named) d) _
                (my_find_cm_mac_cache-Fine site rs (with_file row.config_file named) d
                  (with_file-OneAddress row.config_file named b, q))
                (λ known k. take_prelease-Fine site rs known.0 known.1 k))))

-- One search and the next.
or_else-Fine :
    (rs : List Reply) (told : ℕ) (found : FoundMac) (next : Message → Dhcpd → Run FoundMac)
    → FoundFine rs found
    → ((m : Message) (d : Dhcpd) → Fine rs (m, d) → IfDone (FoundFine rs) (next m d))
    → IfDone (FoundFine rs) (or_else told found next)
or_else-Fine rs told (result, m, d) next h k =
    if_all (IfDone (FoundFine rs)) (result == 0) (next m d) (done (told, m, d)) (k m d h) h

module _ (site : Site) (rs : List Reply) where
  find_aside-Fine :
      (m : Message) (d : Dhcpd) → Fine rs (m, d) → IfDone (FoundFine rs) (find_aside site m d)
  unfolding find_aside
  find_aside-Fine m d h =
      IfDone->>= (FoundFine rs) (FoundFine rs) (my_find_mac_precpe site m d) _
        (my_find_mac_precpe-Fine site rs m d h)
        (λ aside p. or_else-Fine rs lease_cpe aside not_found p (λ m' d' h'. h'))

  find_computer-Fine :
      (m : Message) (d : Dhcpd) → Fine rs (m, d) → IfDone (FoundFine rs) (find_computer site m d)
  unfolding find_computer
  find_computer-Fine m d h =
      IfDone->>= (FoundFine rs) (FoundFine rs) (my_find_mac_cpe site m d) _
        (my_find_mac_cpe-Fine site rs m d h)
        (λ leased l. or_else-Fine rs lease_cpe leased (find_aside site) l find_aside-Fine)

  find_unknown-Fine :
      (m : Message) (d : Dhcpd) → Fine rs (m, d) → IfDone (FoundFine rs) (find_unknown site m d)
  unfolding find_unknown
  find_unknown-Fine m d h =
      IfDone->>= (FoundFine rs) (FoundFine rs) (my_find_mac_cmunknown site m d) _
        (my_find_mac_cmunknown-Fine site rs m d h)
        (λ unknown u.
          or_else-Fine rs lease_unknown unknown (find_computer site) u find_computer-Fine)

  find_stored-Fine :
      (m : Message) (d : Dhcpd) → Fine rs (m, d) → IfDone (FoundFine rs) (find_stored site m d)
  unfolding find_stored
  find_stored-Fine m d h =
      IfDone->>= (FoundFine rs) (FoundFine rs) (my_find_mac_cm site m d) _
        (my_find_mac_cm-Fine site rs m d h)
        (λ stored s. or_else-Fine rs _ stored (find_unknown site) s find_unknown-Fine)

  find_good-Fine :
      (m : Message) (d : Dhcpd) → Fine rs (m, d) → IfDone (FoundFine rs) (find_good site m d)
  unfolding find_good
  find_good-Fine m d h =
      IfDone->>= (FoundFine rs) (FoundFine rs) (my_find_mac_cache site m d) _
        (my_find_mac_cache-Fine site rs m d h)
        (λ cached c. or_else-Fine rs _ cached (find_stored site) c find_stored-Fine)

  pub my_find_mac-Fine :
      (m : Message) (d : Dhcpd) → Fine rs (m, d) → IfDone (FoundFine rs) (my_find_mac site m d)
  unfolding my_find_mac my_find_bad_mac
  my_find_mac-Fine m d h =
      if_all
        (λ (r : Bool × Message).
          IfDone (FoundFine rs) (if r.0 then done (1, r.1, d) else find_good site r.1 d))
        ((ask site d).bad_mac m.b_macaddr) (true, record m { lease_type = lease_reject }) (false, m)
        h (find_good-Fine m d h)
