-- ===== src/Dhcp/Repeats/Burst.antt =====
-- One customer that asks again and again.
use docsis_server.Prelude.{
  ℕ, zero, suc, ◌+◌, ◌^◌, ◌≤◌, ◌<◌, ◌≡◌, ◌≢◌, refl, ap, ◌∙◌, some, List, [], ◌∷◌, length, get_elem?,
  ltb, if◌then◌else◌, arith,
}
use docsis_server.Dhcp.Nets.{Message, lease_not_found, lease_reject}
use docsis_server.Dhcp.Repeats.{
  Seen, noticed, rejected, look_ip, look_mac, look, one_more, search_seen, first_seen, reuse,
  record_seen, ignore_repeated_customers, answers,
}

-- The requests follow each other within ten seconds, and the clock fits 32 bits.
abbrev pub Close : ℕ → List ℕ → Type 0
Close last [] = Unit {0}
Close last (now ∷ times) = (now < last + 10) × (now < 2 ^ 32) × Close now times

-- What a customer is told whose entry counts `n` requests with this one.
abbrev pub verdict : ℕ → ℕ
verdict n = if ltb 6 n then lease_reject else lease_not_found

module _ (m : Message) (no_ip : m.b_ipaddr ≡ 0) (has_mac : m.b_macaddr ≢ 0) where
  abbrev entry : ℕ → ℕ → Seen
  entry last count = record { mac = m.b_macaddr; ip = 0; last = last; count = count }

  look_again :
      (now last count : ℕ)
      → now < last + 10
      → now < 2 ^ 32
      → count < 65535
      → look now m (entry last count) ≡ (
          if ltb 6 (count + 1)
          then rejected (entry now (count + 1))
          else noticed (entry now (count + 1)))
  unfolding look look_ip look_mac one_more
  look_again now last count l b c = ground arith

  search_again :
      (now last count : ℕ)
      → now < last + 10
      → now < 2 ^ 32
      → count < 65535
      → search_seen now m (entry last count ∷ [])
        ≡ some (ltb 6 (count + 1), entry now (count + 1) ∷ [])
  unfolding search_seen
  search_again now last count l b c = ground (arith, look_again now last count l b c)

  again :
      (now last count : ℕ)
      → now < last + 10
      → now < 2 ^ 32
      → count < 65535
      → (ignore_repeated_customers now m (entry last count ∷ [])).0.0 ≡ verdict (count + 1)
        × (ignore_repeated_customers now m (entry last count ∷ [])).1 ≡ entry now (count + 1) ∷ []
  unfolding ignore_repeated_customers
  again now last count l b c =
      let found = search_again now last count l b c in
      (ground (arith, found), ground (arith, found))

  answers-entry :
      (times : List ℕ) (last count k : ℕ)
      → Close last times
      → count + length times ≤ 65535
      → k < length times
      → get_elem? (answers m times (entry last count ∷ [])) k ≡ some (verdict (count + 1 + k))
  unfolding answers
  answers-entry [] last count k c b l = absurd (omega arith)
  answers-entry (now ∷ times) last count zero (a, t, c) b l =
      ap some ((again now last count a t (omega (arith, b))).0 ∙ ap verdict (omega arith))
  answers-entry (now ∷ times) last count (suc k) (a, t, c) b l =
      let next = answers-entry times now (count + 1) k c (omega (arith, b)) (omega (arith, l)) in
      let same : count + 1 + 1 + k ≡ count + 1 + suc k = omega arith in
      rw ((again now last count a t (omega (arith, b))).1)
        (next ∙ ap (λ (i : ℕ). some (verdict i)) same)

-- If the table is empty at first and no one else asks, a customer with a hardware address and
-- without an IP address whose requests follow each other within ten seconds is let through six
-- times and is turned away from then on, up to the 65,535 requests that its counter holds, as long
-- as the clock fits 32 bits.
pub answers_burst :
    (m : Message) (now : ℕ) (times : List ℕ) (k : ℕ)
    → m.b_ipaddr ≡ 0
    → m.b_macaddr ≢ 0
    → now < 2 ^ 32
    → Close now times
    → length times ≤ 65534
    → k ≤ length times
    → get_elem? (answers m (now ∷ times) []) k
      ≡ some (if ltb k 6 then lease_not_found else lease_reject)
unfolding answers ignore_repeated_customers search_seen record_seen reuse first_seen
answers_burst m now times zero no_ip has_mac n c b l = refl
answers_burst m now times (suc k) no_ip has_mac n c b l =
    let first : first_seen now m ≡ entry m no_ip has_mac now 1 = ground arith in
    let rest = answers-entry m no_ip has_mac times now 1 k c (omega arith) (omega arith) in
    let turned : verdict (1 + 1 + k) ≡ (if ltb (suc k) 6 then lease_not_found else lease_reject) =
      ground arith in
    ap (λ (e : Seen). get_elem? (answers m times (e ∷ [])) k) first ∙ rest ∙ ap some turned
