-- ===== src/Dhcp/FindMac.antt =====
-- src/mysql-findmac.c and src/mysql-findip.c: what the database knows of the sender of a message, or of
-- the address that a message asks about.
use docsis_server.Prelude.{
  ℕ, ◌%◌, ◌^◌, Bool, true, false, ◌||◌, not, Option, none, some, List, [], ◌∷◌, take, length, ◌==◌,
  if◌then◌else◌, Run, done, fault, ◌>>=◌,
}
use docsis_server.Dhcp.Nets.{
  Message, lease_not_found, lease_cm, lease_cpe, lease_mta, lease_unknown, lease_reject,
  cpe_dynamic, my_get_net, verify_vlan,
}
use docsis_server.Dhcp.Database.{ModemRow, LeaseRow, PreRow, Site, Dhcpd, ask}
use docsis_server.Dhcp.Leases.{new_ip_cm, my_write_new_cpe_lease}
use docsis_server.Dhcp.ModemCache.{
  FoundMac, cut_name, my_clear_mcache_entry, my_find_mac_cache, my_find_cm_mac_cache,
}
use docsis_server.MacAddr.{cv_mac2num, cv_addrmac}

-- my_findBADMAC.
unfoldable pub my_find_bad_mac : Site → Message → Dhcpd → Bool × Message
my_find_bad_mac site m d =
    if (ask site d).bad_mac m.b_macaddr
    then (true, record m { lease_type = lease_reject })
    else (false, m)

-- my_findIP_CM: whether there is an error, and the message.
unfoldable pub my_find_ip_cm : Site → Message → Dhcpd → Bool × Message
my_find_ip_cm site m d = elim ((ask site d).cm_address m.b_macaddr) [
  | none ↦ (true, m)
  | some ip ↦ (false, record m { ipaddr = ip; b_ipaddr = ip })
]

-- The end of my_findMAC_CM and my_findMAC_CMUNKNOWN: the modem's address, or a new one.
unfoldable pub cm_address : Site → Message → Dhcpd → Run (Message × Dhcpd)
cm_address site m d =
    let (missing, m') = my_find_ip_cm site m d in
    if missing
    then done (new_ip_cm site m' d)
    else if verify_vlan d.nets m'
    then (do d' ← my_clear_mcache_entry m' d; done (new_ip_cm site m' d'))
    else done (m', d)

-- The result of my_findMAC_CM at a known modem: `retv` is not set for a sender that is neither a modem
-- nor an MTA, and its use faults.
abbrev pub cm_kind : Message → Run ℕ
cm_kind m = if m.docsis_modem == 1 then done 1 else if m.docsis_modem == 2 then done 2 else fault

abbrev pub fill_modem : Message → ModemRow → List ℕ → Message
fill_modem m row file = record m {
  lease_type =
      if m.docsis_modem == 1
      then lease_cm
      else if m.docsis_modem == 2
      then lease_mta
      else m.lease_type;
  vlan = row.vlan % 2 ^ 16;
  subnum = row.subnum;
  cfname = cut_name file;
  static_ip = row.static_ip;
  dynamic_ip = row.dynamic_ip;
  opt = row.config_opt % 2 ^ 16;
}

unfoldable pub known_modem : Site → Message → ModemRow → Dhcpd → Run FoundMac
known_modem site m row d = elim row.config_file [
  | none ↦ fault
  | some file ↦ (do
    addressed ← cm_address site (fill_modem m row file) d
    kind ← cm_kind m
    done (kind, addressed.0, addressed.1))
]

-- my_findMAC_CM.
unfoldable pub my_find_mac_cm : Site → Message → Dhcpd → Run FoundMac
my_find_mac_cm site m d = elim ((ask site d).modem m.b_macaddr) [
  | none ↦ done (0, m, d)
  | some row ↦ known_modem site m row d
]

-- The boot file of a vendor, or the one of the settings, of which a blank says that there is none.
unfoldable pub vendor_default : Site → Option (List ℕ) → Bool × List ℕ
vendor_default site none =
    (not (length (cut_name site.default_file) == 1), cut_name site.default_file)
vendor_default site (some file) = (true, cut_name file)

-- Whether an unknown modem has a boot file, and cfname: a model that the table lists leaves it as it is,
-- and so does a query that fails.
unfoldable pub default_file : Site → Message → Dhcpd → Bool × List ℕ
default_file site m d = elim ((ask site d).model_listed m.model) [
  | none ↦ (false, m.cfname)
  | some listed ↦ if listed then (true, m.cfname) else elim ((ask site d).vendor_file m.vendor) [
    | none ↦ (false, m.cfname)
    | some row ↦ vendor_default site row
  ]
]

-- my_findMAC_CMUNKNOWN.
unfoldable pub my_find_mac_cmunknown : Site → Message → Dhcpd → Run FoundMac
my_find_mac_cmunknown site m d =
    let (found, file) = default_file site m d in
    let named = record m { cfname = file } in
    let filled = record named {
      lease_type = lease_cm;
      vlan = 1;
      subnum = m.serial;
      static_ip = 0;
      dynamic_ip = 0;
      opt = 0;
    } in
    if not site.modem_default || not (m.docsis_modem == 1)
    then done (0, m, d)
    else if not found
    then done (0, named, d)
    else (do addressed ← cm_address site filled d; done (1, addressed.0, addressed.1))

-- The modem of a computer, where the packet did not name it.
unfoldable pub with_modem : List ℕ → Message → Run Message
with_modem text m =
    if m.b_modem_macaddr == 0
    then (do
      mac ← cv_addrmac text 6
      done (record m { modem_macaddr = take 6 mac; b_modem_macaddr = cv_mac2num mac }))
    else done m

abbrev pub with_file : Option (List ℕ) → Message → Message
with_file none m = m
with_file (some []) m = m
with_file (some (c ∷ text)) m = record m { cfname = cut_name (c ∷ text) }

abbrev pub fill_lease : LeaseRow → Message → Message
fill_lease row m = record m {
  lease_type = lease_cpe;
  ipaddr = row.ipaddr;
  b_ipaddr = row.ipaddr;
  cpe_type = if row.dynamic_flag then cpe_dynamic else m.cpe_type;
  lockip = if row.lockip_flag then 1 else m.lockip;
  vlan = row.vlan % 2 ^ 16;
  lease_time = row.seconds_left;
  opt = row.config_opt % 2 ^ 16;
}

-- my_findMAC_CPE.
unfoldable pub my_find_mac_cpe : Site → Message → Dhcpd → Run FoundMac
my_find_mac_cpe site m d =
    if not (m.docsis_modem == 0) then done (0, m, d) else elim ((ask site d).lease m.b_macaddr) [
      | none ↦ done (0, m, d)
      | some row ↦ (do
        named ← with_modem row.modem_macaddr (fill_lease row m)
        known ← my_find_cm_mac_cache site (with_file row.config_file named) d
        done (1, known.0, known.1))
    ]

abbrev pub fill_prelease : PreRow → Message → Message
fill_prelease row m = record m {
  lease_type = lease_cpe;
  ipaddr = row.ipaddr;
  b_ipaddr = row.ipaddr;
  vlan = row.vlan % 2 ^ 16;
  opt = row.config_opt % 2 ^ 16;
}

abbrev pub take_prelease : Site → Message × Dhcpd → FoundMac
take_prelease site (m, d) =
    let (failed, m') = my_get_net d.nets m in
    if failed then (0, m', d) else (1, m', my_write_new_cpe_lease site m' d)

-- my_findMAC_PRECPE: an address that was set aside for computers behind the modem.
unfoldable pub my_find_mac_precpe : Site → Message → Dhcpd → Run FoundMac
my_find_mac_precpe site m d =
    if not (m.docsis_modem == 0) then done (0, m, d) else elim ((ask site d).prelease m.modem_mac) [
      | none ↦ done (0, m, d)
      | some row ↦ (do
        named ← with_modem row.modem_macaddr (fill_prelease row m)
        known ← my_find_cm_mac_cache site (with_file row.config_file named) d
        done (take_prelease site known))
    ]

-- A result that is not 0 ends my_findMAC with `told`, else the search goes on.
abbrev pub or_else : ℕ → FoundMac → (Message → Dhcpd → Run FoundMac) → Run FoundMac
or_else told (result, m, d) next = if result == 0 then next m d else done (told, m, d)

abbrev pub not_found : Message → Dhcpd → Run FoundMac
not_found m d = done (lease_not_found, m, d)

unfoldable pub find_aside : Site → Message → Dhcpd → Run FoundMac
find_aside site m d = do
  set_aside ← my_find_mac_precpe site m d
  or_else lease_cpe set_aside not_found

unfoldable pub find_computer : Site → Message → Dhcpd → Run FoundMac
find_computer site m d = do
  leased ← my_find_mac_cpe site m d
  or_else lease_cpe leased (find_aside site)

unfoldable pub find_unknown : Site → Message → Dhcpd → Run FoundMac
find_unknown site m d = do
  unknown ← my_find_mac_cmunknown site m d
  or_else lease_unknown unknown (find_computer site)

unfoldable pub find_stored : Site → Message → Dhcpd → Run FoundMac
find_stored site m d = do
  stored ← my_find_mac_cm site m d
  or_else (if stored.0 == 1 then lease_cm else lease_mta) stored (find_unknown site)

unfoldable pub find_good : Site → Message → Dhcpd → Run FoundMac
find_good site m d = do
  cached ← my_find_mac_cache site m d
  or_else cached.0 cached (find_stored site)

-- my_findMAC.
unfoldable pub my_find_mac : Site → Message → Dhcpd → Run FoundMac
my_find_mac site m d =
    let (bad, m') = my_find_bad_mac site m d in if bad then done (1, m', d) else find_good site m' d
