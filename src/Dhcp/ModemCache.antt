-- ===== src/Dhcp/ModemCache.antt =====
-- src/mysql-cache_dhcp_conf.c: the table of modems that spares the database under high load.
pub mod Lookup
use docsis_server.Prelude.{
  ℕ, zero, suc, ◌+◌, ◌-◌, ◌%◌, ◌^◌, Bool, true, false, ◌&&◌, not, Option, none, some, List, [], ◌∷◌,
  map, take, set, get_elem?, ltb, ◌==◌, if◌then◌else◌, Run, done, fault, ◌>>=◌,
}
use docsis_server.Index.{find_index}
use docsis_server.Dhcp.Nets.{Message, lease_not_found, lease_cm, lease_reject, verify_vlan}
use docsis_server.Dhcp.Repeats.{ignore_repeated_customers}
use docsis_server.Dhcp.Database.{CacheRow, ModemCache, Answers, Site, Dhcpd, ask}

-- MAX_CONFIG_FILE_NAME.
abbrev pub max_config_file_name : ℕ
max_config_file_name = 50

-- strncpy( message->cfname, text, MAX_CONFIG_FILE_NAME - 1 ).
abbrev pub cut_name : List ℕ → List ℕ
cut_name text = take (max_config_file_name - 1) text

abbrev pub number : ℕ → Option ℕ → ℕ
number bound none = 0
number bound (some v) = v % bound

-- An entry of the table; `none` where the loop goes on to the next row.
unfoldable pub cached_entry : CacheRow → Option ModemCache
cached_entry row = elim row.modmac [
  | none ↦ none
  | some mac ↦ elim row.ipaddr [
    | none ↦ none
    | some ip ↦
        if mac == 0
        then none
        else some (record {
          b_macaddr = mac;
          ipaddr = ip;
          vlan = number (2 ^ 16) row.vlan;
          subnum = number (2 ^ 64) row.subnum;
          cfname = row.config_file;
          static_ip = number (2 ^ 8) row.static_ip;
          dynamic_ip = number (2 ^ 8) row.dynamic_ip;
          opt = number (2 ^ 8) row.config_opt;
        })
  ]
]

-- The loop of my_MCACHE_Load.
unfoldable pub load_rows : List CacheRow → List ModemCache
load_rows [] = []
load_rows (row ∷ rows) = elim (cached_entry row) [
  | none ↦ load_rows rows
  | some entry ↦ entry ∷ load_rows rows
]

-- my_MCACHE_Load: at most every ten minutes. A query without an answer leaves the table empty.
unfoldable pub my_mcache_load : Site → Dhcpd → Dhcpd
my_mcache_load site d = if ltb site.now (d.cache_time + 600) then d else record d {
  cache_time = site.now;
  cache = elim (ask site d).modems [ none ↦ [] | some rows ↦ load_rows rows ];
}

-- my_findMAC_INDEX.
unfoldable pub my_find_mac_index : ℕ → List ModemCache → Run (Option ℕ)
my_find_mac_index mac cache = find_index (map ModemCache.b_macaddr cache) mac

abbrev pub forget_at : ℕ → Dhcpd → Dhcpd
forget_at i d = elim (get_elem? d.cache i) [
  | none ↦ d
  | some entry ↦ record d { cache = set d.cache i (record entry { ipaddr = 0 }) }
]

-- my_Clear_MCACHE_Entry.
unfoldable pub my_clear_mcache_entry : Message → Dhcpd → Run Dhcpd
my_clear_mcache_entry m d = do
  found ← my_find_mac_index m.b_macaddr d.cache
  done (elim found [ none ↦ d | some i ↦ forget_at i d ])

-- The message with what the table knows of its modem. A copy from a name that is NULL faults.
unfoldable pub fill_cached : ModemCache → Message → Run Message
fill_cached e m = elim e.cfname [
  | none ↦ fault
  | some name ↦ done (record m {
    lease_type = lease_cm;
    ipaddr = e.ipaddr;
    b_ipaddr = e.ipaddr;
    cfname = cut_name name;
    vlan = e.vlan;
    subnum = e.subnum;
    static_ip = e.static_ip;
    dynamic_ip = e.dynamic_ip;
    opt = e.opt;
    mcache = 1;
  })
]

abbrev pub FoundMac : Type 0
FoundMac = ℕ × Message × Dhcpd

-- The rest of my_findMAC_CACHE at an entry: an address outside of its network is forgotten, but the
-- message keeps it.
unfoldable pub use_entry : ℕ → ModemCache → Message → Dhcpd → Run FoundMac
use_entry i e m d = if e.ipaddr == 0 then done (lease_not_found, m, d) else (do
  m' ← fill_cached e m
  done (if verify_vlan d.nets m' then (lease_not_found, m', forget_at i d) else (lease_cm, m', d)))

unfoldable pub search_cache : Message → Dhcpd → Run FoundMac
search_cache m d = do
  found ← my_find_mac_index m.b_macaddr d.cache
  elim found [
    | none ↦ done (lease_not_found, m, d)
    | some i ↦ elim (get_elem? d.cache i) [ none ↦ fault | some e ↦ use_entry i e m d ]
  ]

-- my_findMAC_CACHE.
unfoldable pub my_find_mac_cache : Site → Message → Dhcpd → Run FoundMac
my_find_mac_cache site m d =
    let (told, seen) = ignore_repeated_customers site.now m d.seen in
    let d1 = record d { seen = seen } in
    let d2 = my_mcache_load site d1 in
    if told.0 == lease_reject
    then done (lease_reject, told.1, d1)
    else if site.high_load
    then search_cache told.1 d2
    else done (lease_not_found, told.1, d2)

abbrev pub take_subnum : ℕ → Message → Dhcpd → Message
take_subnum i m d = elim (get_elem? d.cache i) [
  | none ↦ m
  | some e ↦ record m { subnum = e.subnum }
]

-- my_findCM_MAC_CACHE.
unfoldable pub my_find_cm_mac_cache : Site → Message → Dhcpd → Run (Message × Dhcpd)
my_find_cm_mac_cache site m d =
    let loaded = my_mcache_load site d in
    (do
      found ← my_find_mac_index m.b_modem_macaddr loaded.cache
      done (elim found [ none ↦ (m, loaded) | some i ↦ (take_subnum i m loaded, loaded) ]))
