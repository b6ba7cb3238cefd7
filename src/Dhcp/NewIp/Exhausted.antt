-- ===== src/Dhcp/NewIp/Exhausted.antt =====
-- What it means that no address was given to a computer.
use docsis_server.Prelude.{
  ℕ, ◌≤◌, ◌≡◌, ◌⊎◌, inl, inr, refl, subst, le→ltb_false, Bool, true, false, if◌then◌else◌, Option,
  none, some, List, [], ◌∷◌,
}
use docsis_server.Dhcp.Nets.{Every, ConfigNets, Message}
use docsis_server.Dhcp.NewIp.{
  start_at, search_net, skips_cpe, Search, past, cpe_found, cpe_nets, choose_lease,
  my_get_new_ip_cpe,
}
use docsis_server.Dhcp.NewIp.Scan.{Searched, search_net-Searched}

-- A network is not searched, or no address is free from the start of its search to the end of its range.
abbrev pub Exhausted : (ℕ → Bool) → ℕ × ℕ → Message → ConfigNets → Type 0
Exhausted free kind m net =
    (skips_cpe kind m net ≡ true)
    ⊎ ((k : ℕ) → start_at net ≤ k → k ≤ net.range_max → free k ≡ false)

cpe_nets-Exhausted :
    (free : ℕ → Bool) (kind : ℕ × ℕ) (m : Message) (nets : List ConfigNets)
    → (cpe_nets free kind m nets).0 ≡ none
    → Every (Exhausted free kind m) nets
unfolding cpe_nets cpe_found
cpe_nets-Exhausted free kind m [] h = tt
cpe_nets-Exhausted free kind m (net ∷ nets) h =
    let (first, none_given) =
      go (skips_cpe kind m net) refl (search_net free net) (search_net-Searched free net) h in
    (first, cpe_nets-Exhausted free kind m nets none_given)
  where
    rest : Search
    rest = cpe_nets free kind m nets

    go :
        (b : Bool)
        → skips_cpe kind m net ≡ b
        → (r : Option ℕ) → Searched free net r
        → (if b then past net rest else cpe_found kind m net nets rest r).0 ≡ none
        → Exhausted free kind m net × (rest.0 ≡ none)
    go true e r s q = (inl e, q)
    go false e none s q = (inr s, q)
    go false e (some ip) s q = cc

-- If server_id is at most 1 and my_getNewIP_CPE gives no address, each network was passed over, or has
-- no free address from the start of its search on.
pub my_get_new_ip_cpe-Exhausted :
    (server_id : ℕ) (free : ℕ → Bool) (managed : Bool) (m : Message) (nets : List ConfigNets)
    → server_id ≤ 1
    → (my_get_new_ip_cpe server_id free managed m nets).0 ≡ none
    → Every (Exhausted free (choose_lease managed m) m) nets
unfolding my_get_new_ip_cpe
my_get_new_ip_cpe-Exhausted server_id free managed m nets le e =
    let kind : ℕ × ℕ = choose_lease managed m in
    cpe_nets-Exhausted free kind m nets (
      subst (λ b. (if b then (none, nets) else cpe_nets free kind m nets).0 ≡ none)
        (le→ltb_false 1 server_id le) e)
