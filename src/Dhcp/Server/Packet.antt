-- ===== src/Dhcp/Server/Packet.antt =====
-- The packet of an offer or an acknowledgement, and the network that it is made for.
use mathlib.Core.List.{append_assoc, append-nil}
use docsis_server.Prelude.{
  ℕ, zero, suc, ◌+◌, ◌≤◌, ◌≡◌, ◌⊎◌, inl, inr, refl, sym, ◌∙◌, ap, Bool, true, false, Option, none,
  some, List, [], ◌∷◌, ◌++◌, get_elem?, take, ◌==◌, arith, if_all, Bool-cases, done, fault, IfDone,
  IfDone->>=, IfDone-any,
}
use docsis_server.Dhcp.Nets.{ConfigNets, Message, get_net_opts, find_net, in_net}
use docsis_server.Dhcp.LoadNets.{blank_net}
use docsis_server.Dhcp.Options.{add_opt, add_big_opt, option_bytes}
use docsis_server.Dhcp.Database.{Event, Reply, Site, Dhcpd}
use docsis_server.Dhcp.OptCache.{my_get_opt}
use docsis_server.Dhcp.Server.{
  reply_to, net_options, add_stored, stored_options, name_file, positive_reply,
}

-- The options begin with these.
abbrev pub Starts : List ℕ → List ℕ → Type 0
Starts base o = (rest : List ℕ) × (o ≡ base ++ rest)

Starts-append : (base o more : List ℕ) → Starts base o → Starts base (o ++ more)
Starts-append base o more (rest, e) =
    (rest ++ more, ap (λ (l : List ℕ). l ++ more) e ∙ append_assoc base rest more)

pub add_opt-Starts :
    (base o : List ℕ) (code : ℕ) (val : List ℕ) → Starts base o → Starts base (add_opt code val o)
unfolding add_opt
add_opt-Starts base o code val h =
    if_all (Starts base) _ o (o ++ option_bytes code val) h
      (Starts-append base o (option_bytes code val) h)

add_big_opt-Starts :
    (base o : List ℕ) (opt : Option (List ℕ))
    → Starts base o
    → IfDone (Starts base) (add_big_opt opt o)
unfolding add_big_opt
add_big_opt-Starts base o none h = h
add_big_opt-Starts base o (some val) h =
    if_all (IfDone (Starts base)) _ fault (done (o ++ val)) tt (Starts-append base o val h)

-- The number and the network that my_Get_Net finds.
pub find_net-get_elem? :
    (m : Message) (k : ℕ) (nets : List ConfigNets) (sn time : ℕ)
    → find_net m k nets ≡ some (sn, time)
    → (i : ℕ) × (net : ConfigNets) × (sn ≡ k + i)
      × (get_elem? nets i ≡ some net)
      × (in_net m net ≡ true)
unfolding find_net
find_net-get_elem? m k [] sn time e = cc
find_net-get_elem? m k (net ∷ nets) sn time e = elim (Bool-cases (in_net m net)) [
  | inl here ↦ (0, net, ground (arith, here, e), refl, here)
  | inr passed ↦
      let later : find_net m (k + 1) nets ≡ some (sn, time) = ground (arith, passed, e) in
      let (i, found, place, there, fits) = find_net-get_elem? m (k + 1) nets sn time later in
      (suc i, found, omega (arith, place), there, fits)
]

pub get_net_opts-get_elem? :
    (nets : List ConfigNets) (i : ℕ) (net : ConfigNets)
    → get_elem? nets i ≡ some net
    → get_net_opts blank_net i nets ≡ some net
unfolding get_net_opts
get_net_opts-get_elem? [] i net e = cc
get_net_opts-get_elem? (x ∷ nets) zero net e = e
get_net_opts-get_elem? (x ∷ []) (suc i) net e = cc
get_net_opts-get_elem? (x ∷ y ∷ nets) (suc i) net e = get_net_opts-get_elem? (y ∷ nets) i net e

pub in_net-range :
    (m : Message) (net : ConfigNets)
    → in_net m net ≡ true
    → (net.range_min ≤ m.b_ipaddr)
      × (m.b_ipaddr ≤ net.range_max)
      × ((m.giaddr ≡ 0) ⊎ (net.cmts_ip ≡ m.giaddr))
unfolding in_net
in_net-range m net e = (ground arith, ground arith, ground arith)

add_stored-Starts :
    (site : Site) (d : Dhcpd) (same : Bool) (opt_id b_mac : ℕ) (base o : List ℕ)
    → Starts base o
    → IfDone (Starts base) (add_stored site d same opt_id b_mac o)
unfolding add_stored
add_stored-Starts site d true opt_id b_mac base o h = h
add_stored-Starts site d false opt_id b_mac base o h =
    IfDone-any (Starts base) (my_get_opt site d opt_id b_mac) _
      (λ opt. add_big_opt-Starts base o opt h)

stored_options-Starts :
    (site : Site) (m : Message) (net : ConfigNets) (d : Dhcpd) (base : List ℕ)
    → IfDone (Starts base) (stored_options site m net d base)
unfolding stored_options
stored_options-Starts site m net d base =
    let P = Starts base in
    let whole : base ≡ base ++ [] = sym (append-nil base) in
    IfDone->>= P P (add_stored site d false 1 m.b_macaddr base) _
      (add_stored-Starts site d false 1 m.b_macaddr base base ([], whole))
      (λ o1 h1.
        IfDone->>= P P (add_stored site d false m.opt 0 o1) _
          (add_stored-Starts site d false m.opt 0 base o1 h1)
          (λ o2 h2.
            IfDone->>= P P (add_stored site d (net.opt1 == m.opt) net.opt1 0 o2) _
              (add_stored-Starts site d (net.opt1 == m.opt) net.opt1 0 base o2 h2)
              (λ o3 h3.
                IfDone->>= P P (add_stored site d (net.opt2 == m.opt) net.opt2 0 o3) _
                  (add_stored-Starts site d (net.opt2 == m.opt) net.opt2 0 base o3 h3)
                  (λ o4 h4. add_stored-Starts site d (net.opt3 == m.opt) net.opt3 0 base o4 h4))))

-- The bytes with which an option field begins that tells a message type and a network.
abbrev pub Tells : ℕ → ConfigNets → Reply → Type 0
Tells mess_type net r = Starts (net_options mess_type net) r.options

name_file-Starts :
    (site : Site) (d : Dhcpd) (base o cfname : List ℕ) (m : Message)
    → Starts base o
    → Starts base (name_file site (record m { cfname = cfname }) d o).1
unfolding name_file
name_file-Starts site d base o [] m h = h
name_file-Starts site d base o (c ∷ text) m h = add_opt-Starts base o 67 (take 127 (c ∷ text)) h

-- What the packet says: the message's address, to its relay, and the network's options first.
abbrev pub Says : Message → ℕ → ConfigNets → Reply → Type 0
Says m mess_type net r = (r.yiaddr ≡ m.ipaddr) × (r.giaddr ≡ m.giaddr) × Tells mess_type net r

pub positive_reply-Says :
    (site : Site) (m : Message) (mess_type : ℕ) (net : ConfigNets) (d : Dhcpd)
    → IfDone (Says m mess_type net) (positive_reply site m mess_type net d)
unfolding positive_reply
positive_reply-Says site m mess_type net d =
    let base = net_options mess_type net in
    IfDone->>= (Starts base) (Says m mess_type net) (stored_options site m net d base) _
      (stored_options-Starts site m net d base)
      (λ o h. (
        refl,
        refl,
        add_opt-Starts base (name_file site m d o).1 255 []
            (name_file-Starts site d base o m.cfname m h),
      ))

-- Without options in the database the packet is made whatever the network.
abbrev pub NoOptions : Site → Type 0
NoOptions site =
    (es : List Event) (opt_id b_mac : ℕ) → (site.answers es).opt_value opt_id b_mac ≡ none

my_get_opt-none :
    (site : Site) (d : Dhcpd) (opt_id b_mac : ℕ)
    → NoOptions site
    → site.high_load ≡ false
    → my_get_opt site d opt_id b_mac ≡ done none
unfolding my_get_opt
my_get_opt-none site d opt_id b_mac h calm = ground (arith, calm, h d.events opt_id b_mac)

add_stored-none :
    (site : Site) (d : Dhcpd) (same : Bool) (opt_id b_mac : ℕ) (o : List ℕ)
    → NoOptions site
    → site.high_load ≡ false
    → add_stored site d same opt_id b_mac o ≡ done o
unfolding add_stored add_big_opt
add_stored-none site d true opt_id b_mac o h calm = refl
add_stored-none site d false opt_id b_mac o h calm =
    rw (my_get_opt-none site d opt_id b_mac h calm) refl

stored_options-none :
    (site : Site) (m : Message) (net : ConfigNets) (d : Dhcpd) (o : List ℕ)
    → NoOptions site
    → site.high_load ≡ false
    → stored_options site m net d o ≡ done o
unfolding stored_options
stored_options-none site m net d o h calm =
    rw
      (
        add_stored-none site d false 1 m.b_macaddr o h calm,
        add_stored-none site d false m.opt 0 o h calm,
        add_stored-none site d (net.opt1 == m.opt) net.opt1 0 o h calm,
        add_stored-none site d (net.opt2 == m.opt) net.opt2 0 o h calm,
      )
      (add_stored-none site d (net.opt3 == m.opt) net.opt3 0 o h calm)

pub positive_reply-done :
    (site : Site) (m : Message) (mess_type : ℕ) (net : ConfigNets) (d : Dhcpd)
    → NoOptions site
    → site.high_load ≡ false
    → (r : Reply) × (positive_reply site m mess_type net d ≡ done r)
unfolding positive_reply
positive_reply-done site m mess_type net d h calm =
    let named = name_file site m d (net_options mess_type net) in
    (
      reply_to m m.ipaddr (add_opt 255 [] named.1) named.0,
      rw (stored_options-none site m net d (net_options mess_type net) h calm) refl,
    )
