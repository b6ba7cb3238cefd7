-- ===== src/Dhcp/LoadNets.antt =====
-- src/mysql-config_nets.c: my_Load_Nets fills the table of networks from the rows of the database.
pub mod Ranges
use docsis_server.Prelude.{
  ℕ, zero, suc, ◌+◌, ◌-◌, ◌*◌, ◌/◌, ◌%◌, ◌^◌, Bool, true, false, ◌&&◌, ◌||◌, not, Option, none,
  some, List, [], ◌∷◌, length, replicate, set, ltb, leb, ◌==◌, if◌then◌else◌,
}
use docsis_server.Dhcp.Nets.{ConfigNets, lease_cm, lease_cpe, lease_mta}

-- A row of config_nets after its texts were read by inet_aton and strtoul. `nmask` is what stands
-- behind the slash of the network, 0 if there is none.
pub record Row : Type 0 where
  pub nettype : ℕ
  pub cmts_ip : ℕ
  pub cmts_vlan : ℕ
  pub network : ℕ
  pub nmask : ℕ
  pub gateway : ℕ
  pub grant_flag : ℕ
  pub dynamic_flag : ℕ
  pub full_flag : ℕ
  pub range_min : ℕ
  pub range_max : ℕ
  pub lease_time : ℕ
  pub opt1 : ℕ
  pub opt2 : ℕ
  pub opt3 : ℕ

abbrev pub mask_bits : ℕ → ℕ
mask_bits nmask = if nmask == 0 || ltb 30 nmask then 24 else nmask

-- The number of addresses under the mask: 0xFFFFFFFF << (32 - nmask) is 2 ^ 32 less that.
unfoldable pub hosts : Row → ℕ
hosts row = 2 ^ (32 - mask_bits row.nmask)

-- The entry as it stands when the checks begin: the broadcast address is still 0.
unfoldable pub entry_of : Row → ConfigNets
entry_of row = record {
  nettype = row.nettype;
  cmts_ip = row.cmts_ip;
  cmts_vlan = row.cmts_vlan;
  network = row.network;
  mask = 4294967296 - hosts row;
  broadcast = 0;
  gateway = row.gateway;
  grant_flag = row.grant_flag;
  dynamic_flag = row.dynamic_flag;
  full_flag = row.full_flag;
  lease_time = row.lease_time;
  range_min = row.range_min;
  range_max = row.range_max;
  last_used_ip = 0;
  opt1 = row.opt1;
  opt2 = row.opt2;
  opt3 = row.opt3;
}

-- `network & mask` is the network, when its host bits are 0.
unfoldable pub network_fits : Row → Bool
network_fits row = row.network % hosts row == 0

-- 0xFFFFFFFF - mask + network, on a u_int32_t.
unfoldable pub broadcast_of : Row → ℕ
broadcast_of row = (hosts row - 1 + row.network) % 4294967296

unfoldable pub inside : Row → ℕ → Bool
inside row ip = ltb row.network ip && ltb ip (broadcast_of row)

-- The checks that follow the one of the network address.
unfoldable pub ranges_fit : Row → Bool
ranges_fit row =
    inside row row.gateway
    && inside row row.range_min
    && inside row row.range_max
    && not (ltb row.range_min row.gateway && ltb row.gateway row.range_max)
    && leb row.range_min row.range_max

-- The first of the `n` addresses from `ip` on that is free, or 0, which last_used_ip was before.
unfoldable pub first_used : (ℕ → Bool) → ℕ → ℕ → ℕ
first_used free zero ip = 0
first_used free (suc n) ip = let rest = first_used free n (ip + 1) in if free ip then ip else rest

-- Which addresses are free: for modems and MTAs, and for computers.
pub record Leases : Type 0 where
  pub cm_free : ℕ → Bool
  pub cpe_free : ℕ → Bool

unfoldable pub last_used : Leases → Row → ℕ
last_used db row =
    let n = row.range_max - row.range_min in
    if row.nettype == lease_cm || row.nettype == lease_mta
    then first_used db.cm_free n row.range_min
    else if row.nettype == lease_cpe
    then first_used db.cpe_free n row.range_min
    else 0

-- What one row makes of its slot, and whether the next row has the next slot.
unfoldable pub take_row : Leases → Row → ConfigNets × Bool
take_row db row =
    if network_fits row
    then (if ranges_fit row
        then (
          record (entry_of row) { broadcast = broadcast_of row; last_used_ip = last_used db row },
          true,
        )
        else (record (entry_of row) { broadcast = broadcast_of row }, false))
    else (entry_of row, false)

-- The loop over the rows, with the table and the index `i`.
unfoldable pub fill : Leases → ℕ → List ConfigNets → List Row → List ConfigNets
fill db i nets [] = nets
fill db i nets (row ∷ rows) =
    let (net, ok) = take_row db row in fill db (if ok then i + 1 else i) (set nets i net) rows

abbrev pub blank_net : ConfigNets
blank_net = record {
  nettype = 0;
  cmts_ip = 0;
  cmts_vlan = 0;
  network = 0;
  mask = 0;
  broadcast = 0;
  gateway = 0;
  grant_flag = 0;
  dynamic_flag = 0;
  full_flag = 0;
  lease_time = 0;
  range_min = 0;
  range_max = 0;
  last_used_ip = 0;
  opt1 = 0;
  opt2 = 0;
  opt3 = 0;
}

-- my_Load_Nets: num_nets is the number of rows, whichever of them are refused.
unfoldable pub my_load_nets : Leases → List Row → List ConfigNets
my_load_nets db rows = fill db 0 (replicate (length rows) blank_net) rows
