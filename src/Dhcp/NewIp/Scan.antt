-- ===== src/Dhcp/NewIp/Scan.antt =====
-- The search for a free address in one network.
use docsis_server.Prelude.{
  ℕ, zero, suc, ◌+◌, ◌≤◌, ◌<◌, ◌≡◌, refl, subst, ap, sym, inl, inr, le_cases, ◌∙◌, Bool, true,
  false, Option, none, some, if◌then◌else◌, arith,
}
use docsis_server.Dhcp.Nets.{ConfigNets, span}
use docsis_server.Dhcp.NewIp.{scan, start_at, search_net}

-- What the search found, or did not find, among the `n` addresses from `ss` on: the first free one.
abbrev pub FirstFree : (ℕ → Bool) → ℕ → ℕ → Option ℕ → Type 0
FirstFree free n ss none = (k : ℕ) → ss ≤ k → k < ss + n → free k ≡ false
FirstFree free n ss (some ip) =
    (free ip ≡ true) × (ss ≤ ip) × (ip < ss + n) × ((k : ℕ) → ss ≤ k → k < ip → free k ≡ false)

step_none :
    (free : ℕ → Bool) (n ss : ℕ)
    → free ss ≡ false
    → FirstFree free n (ss + 1) none
    → FirstFree free (suc n) ss none
step_none free n ss h f k lo hi = elim (le_cases ss k lo) [
  | inl e ↦ ap free (sym e) ∙ h
  | inr l ↦ f k (omega arith) (omega arith)
]

step_some :
    (free : ℕ → Bool) (n ss ip : ℕ)
    → free ss ≡ false
    → FirstFree free n (ss + 1) (some ip)
    → FirstFree free (suc n) ss (some ip)
step_some free n ss ip h (good, lo, hi, f) = (
  good,
  omega arith,
  omega arith,
  λ k l u. elim (le_cases ss k l) [ inl e ↦ ap free (sym e) ∙ h | inr l' ↦ f k (omega arith) u ],
)

scan-FirstFree : (free : ℕ → Bool) (n ss : ℕ) → FirstFree free n ss (scan free n ss)
unfolding scan
scan-FirstFree free zero ss = λ k lo hi. absurd (omega arith)
scan-FirstFree free (suc n) ss =
    choose (free ss) refl (scan free n (ss + 1)) (scan-FirstFree free n (ss + 1))
  where
    choose :
        (b : Bool)
        → free ss ≡ b
        → (r : Option ℕ) → FirstFree free n (ss + 1) r
        → FirstFree free (suc n) ss (if b then some ss else r)
    choose true h r f = (h, omega arith, omega arith, λ k l u. absurd (omega arith))
    choose false h none f = step_none free n ss h f
    choose false h (some ip) f = step_some free n ss ip h f

pub start_at_le : (net : ConfigNets) → net.range_min ≤ start_at net
unfolding start_at
start_at_le net = ground arith

-- The address that is found is free and in the network's range; if none is found, none is free from the
-- start of the search to the end of the range.
abbrev pub Searched : (ℕ → Bool) → ConfigNets → Option ℕ → Type 0
Searched free net none = (k : ℕ) → start_at net ≤ k → k ≤ net.range_max → free k ≡ false
Searched free net (some ip) = (free ip ≡ true) × (net.range_min ≤ ip) × (ip ≤ net.range_max)

pub search_net-Searched :
    (free : ℕ → Bool) (net : ConfigNets) → Searched free net (search_net free net)
unfolding search_net
search_net-Searched free net =
    go (scan free (span (start_at net) net.range_max) (start_at net))
      (scan-FirstFree free (span (start_at net) net.range_max) (start_at net))
  where
    go :
        (r : Option ℕ)
        → FirstFree free (span (start_at net) net.range_max) (start_at net) r
        → Searched free net r
    go none f = λ k lo hi. f k lo (omega arith)
    go (some ip) (good, lo, hi, f) = (good, omega (arith, start_at_le net), omega arith)

pub start_at_last :
    (net : ConfigNets)
    → net.range_min ≤ net.last_used_ip
    → net.last_used_ip < net.range_max
    → start_at net ≡ net.last_used_ip
unfolding start_at
start_at_last net lo hi = ground arith

pub search_net_found :
    (free : ℕ → Bool) (net : ConfigNets) (ip : ℕ)
    → search_net free net ≡ some ip
    → (free ip ≡ true) × (start_at net ≤ ip) × (ip ≤ net.range_max)
unfolding search_net
search_net_found free net ip e =
    let (good, lo, hi, least) =
      subst (FirstFree free (span (start_at net) net.range_max) (start_at net)) e
        (scan-FirstFree free (span (start_at net) net.range_max) (start_at net)) in
    (good, lo, omega arith)
