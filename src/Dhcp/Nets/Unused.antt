-- ===== src/Dhcp/Nets/Unused.antt =====
-- my_CountUnusedIP: its counts, and the flags it leaves.
use docsis_server.Prelude.{
  ℕ, zero, suc, ◌+◌, ◌≤◌, ◌<◌, ◌≡◌, ◌∙◌, ap, inl, inr, le_cases, refl, Bool, true, false, ◌&&◌, ltb,
  ◌==◌, if◌then◌else◌, List, [], ◌∷◌, arith,
}
use docsis_server.Dhcp.Nets.{
  Every, ConfigNets, Counts, count_free, span, is_counted, reopen, reopen_update, count_unused_ip,
}

count_free_le : (free : ℕ → Bool) (n ss : ℕ) → count_free free n ss ≤ n
unfolding count_free
count_free_le free zero ss = omega arith
count_free_le free (suc n) ss = ground (arith, count_free_le free n (ss + 1))

-- An address that is free is counted.
count_free-pos :
    (free : ℕ → Bool) (n ss k : ℕ) → ss ≤ k → k < ss + n → free k ≡ true → 0 < count_free free n ss
unfolding count_free
count_free-pos free zero ss k lo hi h = absurd (omega arith)
count_free-pos free (suc n) ss k lo hi h = elim (le_cases ss k lo) [
  | inl q ↦ let here : free ss ≡ true = ap free q ∙ h in rw here (omega arith)
  | inr l ↦
      let more = count_free-pos free n (ss + 1) k (omega arith) (omega arith) h in
      omega (arith, more)
]

-- A counted network with a free address in its range is not flagged full.
abbrev pub IsOpen : (ℕ → Bool) → ℕ → ℕ → ConfigNets → Type 0
IsOpen free vlan cmts_ip net =
    (k : ℕ)
    → is_counted vlan cmts_ip net ≡ true
    → net.range_min ≤ k
    → k ≤ net.range_max
    → free k ≡ true
    → (net.full_flag == 1) ≡ false

reopen-IsOpen :
    (free : ℕ → Bool) (vlan cmts_ip : ℕ) (net : ConfigNets)
    → is_counted vlan cmts_ip net ≡ true
    → IsOpen free vlan cmts_ip
        (reopen (count_free free (span net.range_min net.range_max) net.range_min) net)
reopen-IsOpen free vlan cmts_ip net c =
    go (count_free free (span net.range_min net.range_max) net.range_min) (λ k lo hi h.
      count_free-pos free (span net.range_min net.range_max) net.range_min k lo (omega arith) h)
  where
    go :
        (n : ℕ)
        → ((k : ℕ) → net.range_min ≤ k → k ≤ net.range_max → free k ≡ true → 0 < n)
        → IsOpen free vlan cmts_ip (reopen n net)
    go n f = pick (ltb 0 n && net.full_flag == 1) refl
      where
        pick :
            (b : Bool)
            → (ltb 0 n && net.full_flag == 1) ≡ b
            → IsOpen free vlan cmts_ip (if b then record net { full_flag = 0 } else net)
        pick true e k c' lo hi h = refl
        pick false e k c' lo hi h = let pos = f k lo hi h in ground arith

-- my_CountUnusedIP counts no more free addresses than addresses, and afterwards no network that it
-- counts, and that has a free address in its range, is flagged full.
pub count_unused_ip-IsOpen :
    (free : ℕ → Bool) (vlan cmts_ip sn : ℕ) (nets : List ConfigNets)
    → let c : Counts = count_unused_ip free vlan cmts_ip sn nets in
      (c.unused ≤ c.total) × Every (IsOpen free vlan cmts_ip) c.nets
unfolding count_unused_ip
count_unused_ip-IsOpen free vlan cmts_ip sn [] = (omega arith, tt)
count_unused_ip-IsOpen free vlan cmts_ip sn (net ∷ nets) =
    go (is_counted vlan cmts_ip net) refl (count_unused_ip free vlan cmts_ip (sn + 1) nets)
      (count_unused_ip-IsOpen free vlan cmts_ip (sn + 1) nets)
  where
    n : ℕ
    n = span net.range_min net.range_max

    k : ℕ
    k = count_free free n net.range_min

    Good : Counts → Type 0
    Good c = (c.unused ≤ c.total) × Every (IsOpen free vlan cmts_ip) c.nets

    go :
        (b : Bool)
        → is_counted vlan cmts_ip net ≡ b
        → (rest : Counts) → Good rest
        → Good (
            if b
            then record {
              unused = k + rest.unused;
              total = n + rest.total;
              nets = reopen k net ∷ rest.nets;
              updates = reopen_update sn k net rest.updates;
            }
            else record rest { nets = net ∷ rest.nets })
    go true e rest (le, all) = (
      omega (arith, count_free_le free n net.range_min),
      (reopen-IsOpen free vlan cmts_ip net e, all),
    )
    go false e rest (le, all) = (le, ((λ k' c lo hi h. cc), all))
