-- ===== src/Dhcp/OptCache.antt =====
-- my_Get_Opt of src/mysql-config_opts.c: the options of a network, or of one device.
use docsis_server.Prelude.{
  ℕ, not, Option, none, some, List, [], ◌∷◌, map, get_elem?, ◌==◌, if◌then◌else◌, Run, done, ◌>>=◌,
}
use docsis_server.Index.{find_index}
use docsis_server.Dhcp.Database.{ConfigOpt, Site, Dhcpd, ask}

-- The search of my_opts from the front.
unfoldable pub find_opts_id : ℕ → List ConfigOpt → Option (List ℕ)
find_opts_id opt_id [] = none
find_opts_id opt_id (o ∷ os) =
    let rest = find_opts_id opt_id os in if o.id == opt_id then some o.val else rest

-- find_Opts_Mac.
unfoldable pub find_opts_mac : ℕ → List ConfigOpt → Run (Option ℕ)
find_opts_mac mac opts = find_index (map ConfigOpt.b_macaddr opts) mac

abbrev pub value_at : List ConfigOpt → Option ℕ → Option (List ℕ)
value_at opts none = none
value_at opts (some i) = elim (get_elem? opts i) [ none ↦ none | some o ↦ some o.val ]

abbrev pub or_query : Option (List ℕ) → Option (List ℕ) → Option (List ℕ)
or_query none asked = asked
or_query (some val) asked = some val

-- my_Get_Opt, once the tables are loaded. What the tables lack is asked of the database.
unfoldable pub my_get_opt : Site → Dhcpd → ℕ → ℕ → Run (Option (List ℕ))
my_get_opt site d opt_id b_mac =
    let asked = (ask site d).opt_value opt_id b_mac in
    if opt_id == 0
    then done none
    else if not site.high_load
    then done asked
    else if b_mac == 0
    then done (or_query (find_opts_id opt_id d.opts) asked)
    else (do i ← find_opts_mac b_mac d.mac_opts; done (or_query (value_at d.mac_opts i) asked))
