-- ===== src/Dhcp/LoadNets/Ranges.antt =====
-- my_Load_Nets: the networks of good rows, and what a refused row leaves.
use docsis_server.Prelude.{
  ℕ, ◌+◌, ◌≤◌, ◌<◌, ◌≡◌, ◌⊎◌, refl, sym, ap, ◌∙◌, true, false, List, [], ◌∷◌, ◌++◌, map, length,
  length-append, replicate, set, arith,
}
use mathlib.Core.List.{append-nil}
use docsis_server.Dhcp.Nets.{ConfigNets, Every}
use docsis_server.Dhcp.LoadNets.{
  Row, Leases, network_fits, ranges_fit, inside, broadcast_of, entry_of, last_used, take_row, fill,
  blank_net, my_load_nets,
}

abbrev pub Accepted : Row → Type 0
Accepted row = (network_fits row ≡ true) × (ranges_fit row ≡ true)

abbrev pub AllAccepted : List Row → Type 0
AllAccepted [] = Unit {0}
AllAccepted (row ∷ rows) = Accepted row × AllAccepted rows

abbrev pub net_of : Leases → Row → ConfigNets
net_of db row = record (entry_of row) {
  broadcast = broadcast_of row;
  last_used_ip = last_used db row;
}

take_row-Accepted :
    (db : Leases) (row : Row) → Accepted row → take_row db row ≡ (net_of db row, true)
unfolding take_row
take_row-Accepted db row (a, b) = rw (a, b)

set-snoc :
    (seen rest : List ConfigNets) (old new : ConfigNets)
    → set (seen ++ old ∷ rest) (length seen) new ≡ seen ++ new ∷ rest
set-snoc [] rest old new = refl
set-snoc (x ∷ seen) rest old new = ap (◌∷◌ x) (set-snoc seen rest old new)

snoc-++ :
    (seen rest : List ConfigNets) (x : ConfigNets) → (seen ++ x ∷ []) ++ rest ≡ seen ++ x ∷ rest
snoc-++ [] rest x = refl
snoc-++ (y ∷ seen) rest x = ap (◌∷◌ y) (snoc-++ seen rest x)

set_at :
    (seen rest : List ConfigNets) (i : ℕ) (old new : ConfigNets)
    → i ≡ length seen
    → set (seen ++ old ∷ rest) i new ≡ seen ++ new ∷ rest
set_at seen rest i old new e = rw e (set-snoc seen rest old new)

replicate-append :
    (rows tail : List Row)
    → replicate (length (rows ++ tail)) blank_net
      ≡ replicate (length rows) blank_net ++ replicate (length tail) blank_net
replicate-append [] tail = refl
replicate-append (row ∷ rows) tail = ap (◌∷◌ blank_net) (replicate-append rows tail)

fill_step :
    (db : Leases) (i : ℕ) (nets : List ConfigNets) (row : Row) (rows : List Row)
    → Accepted row
    → fill db i nets (row ∷ rows) ≡ fill db (i + 1) (set nets i (net_of db row)) rows
unfolding fill
fill_step db i nets row rows a = rw (take_row-Accepted db row a)

-- What the last rows make of the last slots.
abbrev Ends : Leases → List ConfigNets → List Row → List ConfigNets → Type 0
Ends db slots tail out =
    (seen : List ConfigNets) (i : ℕ)
    → i ≡ length seen
    → fill db i (seen ++ slots) tail ≡ seen ++ out

-- Good rows in front of them fill the slots in their order.
fill-Ends :
    (db : Leases) (slots : List ConfigNets) (tail : List Row) (out : List ConfigNets)
    → Ends db slots tail out
    → (rows : List Row) → AllAccepted rows
    → Ends db
        (replicate (length rows) blank_net ++ slots)
        (rows ++ tail)
        (map (net_of db) rows ++ out)
unfolding fill
fill-Ends db slots tail out ends [] a seen i e = ends seen i e
fill-Ends db slots tail out ends (row ∷ rows) (a, all) seen i e =
    let net : ConfigNets = net_of db row in
    let left : List ConfigNets = replicate (length rows) blank_net ++ slots in
    fill_step db i (seen ++ blank_net ∷ left) row (rows ++ tail) a
    ∙ (ap (λ l. fill db (i + 1) l (rows ++ tail))
          (set_at seen left i blank_net net e ∙ sym (snoc-++ seen left net))
        ∙ fill-Ends db slots tail out ends rows all (seen ++ net ∷ []) (i + 1)
            (omega (arith, length-append seen (net ∷ [])))
        ∙ snoc-++ seen (map (net_of db) rows ++ out) net)

nil-Ends : (db : Leases) → Ends db [] [] []
unfolding fill
nil-Ends db seen i e = refl

bad-Ends :
    (db : Leases) (bad : Row) → Ends db (blank_net ∷ []) (bad ∷ []) ((take_row db bad).0 ∷ [])
unfolding fill
bad-Ends db bad seen i e = set_at seen [] i blank_net ((take_row db bad).0) e

load-Ends :
    (db : Leases) (tail : List Row) (out : List ConfigNets)
    → Ends db (replicate (length tail) blank_net) tail out
    → (rows : List Row) → AllAccepted rows
    → my_load_nets db (rows ++ tail) ≡ map (net_of db) rows ++ out
unfolding my_load_nets
load-Ends db tail out ends rows a =
    rw (replicate-append rows tail)
      (fill-Ends db (replicate (length tail) blank_net) tail out ends rows a [] 0 refl)

-- If the last row has a good network address but a bad gateway or range, and the rows before it are
-- good, the refused network is the last one of the table all the same.
pub load_keeps_refused :
    (db : Leases) (rows : List Row) (bad : Row)
    → AllAccepted rows
    → network_fits bad ≡ true
    → ranges_fit bad ≡ false
    → my_load_nets db (rows ++ bad ∷ [])
      ≡ map (net_of db) rows ++ record (entry_of bad) { broadcast = broadcast_of bad } ∷ []
unfolding take_row
load_keeps_refused db rows bad a fits refused =
    load-Ends db (bad ∷ []) ((take_row db bad).0 ∷ []) (bad-Ends db bad) rows a
    ∙ rw (fits, refused) refl

-- The network lies in order: its address, its range, its broadcast address, and the gateway not within
-- the range.
abbrev pub InOrder : ConfigNets → Type 0
InOrder net =
    (net.network < net.range_min)
    × (net.range_min ≤ net.range_max)
    × (net.range_max < net.broadcast)
    × ((net.gateway ≤ net.range_min) ⊎ (net.range_max ≤ net.gateway))

net_of-InOrder : (db : Leases) (row : Row) → ranges_fit row ≡ true → InOrder (net_of db row)
unfolding entry_of ranges_fit inside
net_of-InOrder db row h = ground arith

-- If every row passes the checks, the table holds a network for each row, in order, and each of
-- them has its range between its address and its broadcast address, and its gateway not strictly
-- between the ends of the range; the gateway may be one of these ends.
pub load-InOrder :
    (db : Leases) (rows : List Row)
    → AllAccepted rows
    → (my_load_nets db rows ≡ map (net_of db) rows) × Every InOrder (map (net_of db) rows)
load-InOrder db rows a = (
  ap (my_load_nets db) (sym (append-nil rows))
      ∙ load-Ends db [] [] (nil-Ends db) rows a
      ∙ append-nil (map (net_of db) rows),
  go rows a,
)
  where
    go : (rs : List Row) → AllAccepted rs → Every InOrder (map (net_of db) rs)
    go [] h = tt
    go (r ∷ rs) ((n, f), h) = (net_of-InOrder db r f, go rs h)
