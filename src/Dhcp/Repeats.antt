-- ===== src/Dhcp/Repeats.antt =====
-- ignore_repeated_customers of src/mysql-cache_dhcp_conf.c: the table of the customers that asked
-- lately. The four arrays ipc1, ipip, ipc2 and ipc3 are one list of the `ipn` entries in use.
pub mod Bounds
pub mod Burst
use docsis_server.Prelude.{
  ℕ, zero, suc, ◌+◌, ◌*◌, ◌%◌, ◌^◌, Bool, true, false, ◌&&◌, not, Option, none, some, List, [], ◌∷◌,
  ◌++◌, length, ltb, ◌==◌, if◌then◌else◌,
}
use docsis_server.Dhcp.Nets.{Message, lease_not_found, lease_reject}

-- ipc1, ipip, ipc2 and ipc3 at one index.
pub record Seen : Type 0 where
  pub mac : ℕ
  pub ip : ℕ
  pub last : ℕ
  pub count : ℕ

-- What the search makes of an entry: it is not this customer, it is and the entry is now so, or the
-- customer is turned away.
pub data Look : Type 0 where
  passed : Look
  noticed : Seen → Look
  rejected : Seen → Look

abbrev pub cleared : Seen
cleared = record { mac = 0; ip = 0; last = 0; count = 0 }

unfoldable pub one_more : Seen → ℕ
one_more e = (e.count + 1) % 2 ^ 16

-- The first test of the loop's body, by the address.
unfoldable pub look_ip : ℕ → Message → Seen → Look
look_ip now m e =
    if not (m.b_ipaddr == 0) && m.b_ipaddr == e.ip
    then if ltb now (e.last + 10)
      then if ltb 2 (one_more e)
        then rejected (record e { count = one_more e })
        else noticed (record e { last = now % 2 ^ 32; count = one_more e })
      else noticed cleared
    else passed

-- The second, by the hardware address.
unfoldable pub look_mac : ℕ → Message → Seen → Look
look_mac now m e =
    if not (m.b_macaddr == 0) && m.b_macaddr == e.mac
    then if ltb now (e.last + 10)
      then if ltb 6 (one_more e)
        then rejected (record e { last = now % 2 ^ 32; count = one_more e })
        else noticed (record e { last = now % 2 ^ 32; count = one_more e })
      else noticed cleared
    else passed

-- The body: the second test sees what the first has left.
unfoldable pub look : ℕ → Message → Seen → Look
look now m e = elim (look_ip now m e) [
  | passed ↦ look_mac now m e
  | noticed e' ↦ elim (look_mac now m e') [
    | passed ↦ noticed e'
    | noticed e'' ↦ noticed e''
    | rejected e'' ↦ rejected e''
  ]
  | rejected e' ↦ rejected e'
]

-- The loop up to the first entry of this customer: whether it is turned away, and the table; `none` when
-- there is no such entry.
unfoldable pub search_seen : ℕ → Message → List Seen → Option (Bool × List Seen)
search_seen now m [] = none
search_seen now m (e ∷ es) = elim (look now m e) [
  | noticed e' ↦ some (false, e' ∷ es)
  | rejected e' ↦ some (true, e' ∷ es)
  | passed ↦ elim (search_seen now m es) [ none ↦ none | some (bad, es') ↦ some (bad, e ∷ es') ]
]

unfoldable pub first_seen : ℕ → Message → Seen
first_seen now m = record { mac = m.b_macaddr; ip = m.b_ipaddr; last = now % 2 ^ 32; count = 1 }

-- The loop that takes the first entry of more than ten seconds ago.
unfoldable pub reuse : ℕ → Seen → List Seen → Option (List Seen)
reuse now new [] = none
reuse now new (e ∷ es) =
    let rest : Option (List Seen) = elim (reuse now new es) [
      | none ↦ none
      | some es' ↦ some (e ∷ es')
    ] in
    if ltb (e.last + 10) now then some (new ∷ es) else rest

unfoldable pub replace_first : Seen → List Seen → List Seen
replace_first new [] = new ∷ []
replace_first new (e ∷ es) = new ∷ es

-- A customer that is not in the table.
unfoldable pub record_seen : ℕ → Seen → List Seen → List Seen
record_seen now new es = elim (reuse now new es) [
  | some es' ↦ es'
  | none ↦ if ltb 98 (length es) then replace_first new es else es ++ (new ∷ [])
]

-- The whole function: its result, the message and the table.
unfoldable pub ignore_repeated_customers : ℕ → Message → List Seen → (ℕ × Message) × List Seen
ignore_repeated_customers now m es = elim (search_seen now m es) [
  | none ↦ ((lease_not_found, m), record_seen now (first_seen now m) es)
  | some (bad, es') ↦
      if bad
      then ((lease_reject, record m { lease_type = lease_reject }), es')
      else ((lease_not_found, m), es')
]

-- The results of one customer's requests at the given times.
unfoldable pub answers : Message → List ℕ → List Seen → List ℕ
answers m [] es = []
answers m (now ∷ times) es =
    let (told, es') = ignore_repeated_customers now m es in told.0 ∷ answers m times es'
