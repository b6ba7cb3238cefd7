-- ===== src/Dhcp/Database.antt =====
-- What the DHCP process shares between its handlers: its tables, the database it asks and writes to,
-- and what it sends. The database is no part of the repository: its answers and its refusals are
-- parameters, and each answer may depend on all that was written before.
use docsis_server.Prelude.{ℕ, Bool, Option, none, some, List, ◌∷◌, ◌==◌, if◌then◌else◌}
use docsis_server.Dhcp.Nets.{ConfigNets, FullFlag}
use docsis_server.Dhcp.Repeats.{Seen}

-- The statements that change the database, with the values that stand in their text.
pub data Write : Type 0 where
  new_cm_lease : ℕ → ℕ → Write
  new_cpe_lease : ℕ → ℕ → ℕ → Bool → ℕ → Write
  change_full_flag : FullFlag → Write
  save_old_lease : ℕ → Write
  delete_lease : ℕ → Write
  delete_marked : ℕ → Write
  set_modem : ℕ → ℕ → Write
  set_pc_name : ℕ → List ℕ → Write
  set_subnum : ℕ → ℕ → Write
  set_times : ℕ → ℕ → ℕ → Write
  set_update_time : ℕ → Write
  set_agent : ℕ → ℕ → ℕ → List ℕ → Write

-- The fields of out_pack that differ from packet to packet.
pub record Reply : Type 0 where
  pub hops : ℕ
  pub flags : ℕ
  pub xid : ℕ
  pub ciaddr : ℕ
  pub yiaddr : ℕ
  pub siaddr : ℕ
  pub giaddr : ℕ
  pub macaddr : List ℕ
  pub options : List ℕ
  pub file : List ℕ

pub data Event : Type 0 where
  wrote : Write → Event
  replied : Reply → Event

-- Rows with their texts read as numbers, but for hardware addresses, which the code reads itself. A column that the code tests for NULL, or whose text it copies
-- without a test, is an Option.
pub record ModemRow : Type 0 where
  pub vlan : ℕ
  pub subnum : ℕ
  pub config_file : Option (List ℕ)
  pub static_ip : ℕ
  pub dynamic_ip : ℕ
  pub config_opt : ℕ

pub record LeaseRow : Type 0 where
  pub ipaddr : ℕ
  pub dynamic_flag : Bool
  pub lockip_flag : Bool
  pub modem_macaddr : List ℕ
  pub vlan : ℕ
  pub seconds_left : ℕ
  pub config_opt : ℕ
  pub config_file : Option (List ℕ)

pub record PreRow : Type 0 where
  pub ipaddr : ℕ
  pub modem_macaddr : List ℕ
  pub vlan : ℕ
  pub config_opt : ℕ
  pub config_file : Option (List ℕ)

-- A row of the two queries of my_findIP.
pub record OwnerRow : Type 0 where
  pub macaddr : List ℕ
  pub subnum : ℕ
  pub dynamic_flag : Bool
  pub modem_macaddr : List ℕ
  pub seconds_left : ℕ

-- A row of the query that my_MCACHE_Load makes.
pub record CacheRow : Type 0 where
  pub modmac : Option ℕ
  pub ipaddr : Option ℕ
  pub vlan : Option ℕ
  pub subnum : Option ℕ
  pub config_file : Option (List ℕ)
  pub static_ip : Option ℕ
  pub dynamic_ip : Option ℕ
  pub config_opt : Option ℕ

-- The answers, by what the query's text holds; a query that fails or has no row has the answer `none`,
-- but for the queries of config_default, where `none` is a failure.
pub record Answers : Type 0 where
  pub bad_mac : ℕ → Bool
  pub cm_address : ℕ → Option ℕ
  pub modem : ℕ → Option ModemRow
  pub model_listed : List ℕ → Option Bool
  pub vendor_file : List ℕ → Option (Option (List ℕ))
  pub lease : ℕ → Option LeaseRow
  pub prelease : List ℕ → Option PreRow
  pub cm_free : ℕ → Bool
  pub cpe_free : ℕ → Bool
  pub allowed : ℕ → Option (ℕ × ℕ × ℕ)
  pub used_dynamic : ℕ → Option ℕ → List Bool
  pub modems : Option (List CacheRow)
  pub lease_owner : ℕ → Option OwnerRow
  pub modem_owner : ℕ → Option OwnerRow
  pub opt_value : ℕ → ℕ → Option (List ℕ)
  pub file_of_mac : ℕ → Option (List ℕ)
  pub cm_agent : ℕ → Option (List ℕ)
  pub cpe_agent : ℕ → Option (List ℕ)

-- The settings, the clock, the load, and the database. `accepts` tells whether a statement succeeds.
pub record Site : Type 0 where
  pub now : ℕ
  pub high_load : Bool
  pub server_id : ℕ
  pub managed : Bool
  pub use_subnum : Bool
  pub assign_new : Bool
  pub modem_default : Bool
  pub default_file : List ℕ
  pub answers : List Event → Answers
  pub accepts : List Event → Write → Bool

-- struct modem_cache.
pub record ModemCache : Type 0 where
  pub b_macaddr : ℕ
  pub ipaddr : ℕ
  pub vlan : ℕ
  pub subnum : ℕ
  pub cfname : Option (List ℕ)
  pub static_ip : ℕ
  pub dynamic_ip : ℕ
  pub opt : ℕ

-- struct configopts.
pub record ConfigOpt : Type 0 where
  pub id : ℕ
  pub b_macaddr : ℕ
  pub val : List ℕ

-- The process: its tables, when the table of modems was loaded, and what it did, the last event first.
pub record Dhcpd : Type 0 where
  pub nets : List ConfigNets
  pub seen : List Seen
  pub cache : List ModemCache
  pub cache_time : ℕ
  pub opts : List ConfigOpt
  pub mac_opts : List ConfigOpt
  pub events : List Event

abbrev pub ask : Site → Dhcpd → Answers
ask site d = site.answers d.events

-- SQL_QUERY_RET with a statement: `none` where the function returns.
unfoldable pub sql : Site → Write → Dhcpd → Option Dhcpd
sql site w d =
    if site.accepts d.events w then some (record d { events = wrote w ∷ d.events }) else none

-- sendPacket: where a reply goes, the address and the port.
unfoldable pub destination : Reply → ℕ × ℕ
destination r = if r.giaddr == 0 then (r.ciaddr, 68) else (r.giaddr, 67)

unfoldable pub send_packet : Reply → Dhcpd → Dhcpd
send_packet r d = record d { events = replied r ∷ d.events }
