-- ===== src/Dhcp/Repeats/Bounds.antt =====
-- The table of the customers stays in its arrays, and it turns no unknown customer away.
use docsis_server.Prelude.{
  ℕ, ◌≤◌, ◌≡◌, ◌≢◌, ◌⊎◌, inl, inr, refl, Bool, true, false, none, some, List, [], ◌∷◌, ◌++◌, length,
  ltb, arith, Bool-cases, Option-cases, length-append,
}
use docsis_server.Dhcp.Nets.{Message, lease_not_found}
use docsis_server.Dhcp.Repeats.{
  Seen, passed, look_ip, look_mac, look, search_seen, first_seen, reuse, replace_first, record_seen,
  ignore_repeated_customers,
}

search_seen-length :
    (now : ℕ) (m : Message) (es : List Seen) (bad : Bool) (es' : List Seen)
    → search_seen now m es ≡ some (bad, es')
    → length es' ≡ length es
unfolding search_seen
search_seen-length now m [] bad es' e = cc
search_seen-length now m (x ∷ es) bad es' e = grind (arith, search_seen-length now m es)

reuse-length :
    (now : ℕ) (new : Seen) (es es' : List Seen)
    → reuse now new es ≡ some es'
    → length es' ≡ length es
unfolding reuse
reuse-length now new [] es' e = cc
reuse-length now new (x ∷ es) es' e = grind (arith, reuse-length now new es)

record_seen-length :
    (now : ℕ) (new : Seen) (es : List Seen) → length es ≤ 99 → length (record_seen now new es) ≤ 99
unfolding record_seen replace_first
record_seen-length now new es h =
    grind (arith, reuse-length now new es, length-append es (new ∷ []))

-- The table never holds more than the 99 entries that `ipn` can count to.
pub ignore_repeated_customers-length :
    (now : ℕ) (m : Message) (es : List Seen)
    → length es ≤ 99
    → length (ignore_repeated_customers now m es).1 ≤ 99
unfolding ignore_repeated_customers
ignore_repeated_customers-length now m es h = elim (Option-cases (search_seen now m es)) [
  | inl e ↦ rw (e, length) (record_seen-length now (first_seen now m) es h)
  | inr ((true, es'), e) ↦ rw (e, length) (omega (arith, search_seen-length now m es true es' e))
  | inr ((false, es'), e) ↦ rw (e, length) (omega (arith, search_seen-length now m es false es' e))
]

-- The entry is not of this customer.
abbrev pub Stranger : Message → Seen → Type 0
Stranger m e = (m.b_ipaddr ≢ 0 → m.b_ipaddr ≢ e.ip) × (m.b_macaddr ≢ 0 → m.b_macaddr ≢ e.mac)

abbrev pub AreStrangers : Message → List Seen → Type 0
AreStrangers m [] = Unit {0}
AreStrangers m (e ∷ es) = Stranger m e × AreStrangers m es

pub look-passed : (now : ℕ) (m : Message) (e : Seen) → Stranger m e → look now m e ≡ passed
unfolding look look_ip look_mac
look-passed now m e h = ground (arith, h)

pub search_seen-none :
    (now : ℕ) (m : Message) (es : List Seen) → AreStrangers m es → search_seen now m es ≡ none
unfolding search_seen
search_seen-none now m [] h = refl
search_seen-none now m (e ∷ es) (h, hs) =
    ground (arith, look-passed now m e h, search_seen-none now m es hs)

-- The list holds the value.
abbrev pub Holds : Seen → List Seen → Type 0
Holds new [] = ⊥
Holds new (e ∷ es) = (e ≡ new) ⊎ Holds new es

Holds-append : (new : Seen) (es : List Seen) → Holds new (es ++ (new ∷ []))
Holds-append new [] = inl refl
Holds-append new (e ∷ es) = inr (Holds-append new es)

Holds-reuse :
    (now : ℕ) (new : Seen) (es es' : List Seen) → reuse now new es ≡ some es' → Holds new es'
unfolding reuse
Holds-reuse now new [] es' e = cc
Holds-reuse now new (x ∷ es) [] e = grind arith
Holds-reuse now new (x ∷ es) (y ∷ es') e = grind (arith, Holds-reuse now new es es')

Holds-replace_first : (new : Seen) (es : List Seen) → Holds new (replace_first new es)
unfolding replace_first
Holds-replace_first new [] = inl refl
Holds-replace_first new (e ∷ es) = inl refl

Holds-record_seen : (now : ℕ) (new : Seen) (es : List Seen) → Holds new (record_seen now new es)
unfolding record_seen
Holds-record_seen now new es = elim (Option-cases (reuse now new es)) [
  | inl e ↦
      rw (e, Holds)
        (elim (Bool-cases (ltb 98 (length es))) [
          | inl full ↦ rw (full, Holds) (Holds-replace_first new es)
          | inr room ↦ rw (room, Holds) (Holds-append new es)
        ])
  | inr (es', e) ↦ rw (e, Holds) (Holds-reuse now new es es' e)
]

-- A customer that the table does not know is let through, its message is left alone, and the table knows
-- it from then on.
pub ignore_repeated_customers-stranger :
    (now : ℕ) (m : Message) (es : List Seen)
    → AreStrangers m es
    → (ignore_repeated_customers now m es).0 ≡ (lease_not_found, m)
      × Holds (first_seen now m) (ignore_repeated_customers now m es).1
unfolding ignore_repeated_customers
ignore_repeated_customers-stranger now m es h =
    rw (search_seen-none now m es h, ignore_repeated_customers)
      (refl, Holds-record_seen now (first_seen now m) es)
