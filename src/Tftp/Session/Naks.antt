-- ===== src/Tftp/Session/Naks.antt =====
-- nak: which error codes its message table can answer.
use docsis_server.Prelude.{
  ℕ, zero, suc, ◌≤◌, ◌<◌, ◌≡◌, ◌≢◌, refl, List, [], ◌∷◌, arith, ne→==_false, done, fault,
}
use docsis_server.Tftp.Cache.{Cache}
use docsis_server.Tftp.Session.{Client, Stats, cp_done, errmsgs, find_msg, error_packet, nak}

abbrev Absent : ℕ → List (ℕ × List ℕ) → Type 0
Absent code [] = Unit {0}
Absent code ((c, msg) ∷ rest) = (c ≢ code) × Absent code rest

find_msg-Absent :
    (code : ℕ) (table : List (ℕ × List ℕ)) → Absent code table → find_msg code table ≡ fault
unfolding find_msg
find_msg-Absent code [] a = refl
find_msg-Absent code ((c, msg) ∷ rest) a =
    rw (ne→==_false c code a.0) (find_msg-Absent code rest a.1)

find_msg_known : (code : ℕ) → code < 8 → (msg : List ℕ) × (find_msg code errmsgs ≡ done msg)
unfolding find_msg
find_msg_known zero h = (_, refl)
find_msg_known (suc zero) h = (_, refl)
find_msg_known (suc (suc zero)) h = (_, refl)
find_msg_known (suc (suc (suc zero))) h = (_, refl)
find_msg_known (suc (suc (suc (suc zero)))) h = (_, refl)
find_msg_known (suc (suc (suc (suc (suc zero))))) h = (_, refl)
find_msg_known (suc (suc (suc (suc (suc (suc zero)))))) h = (_, refl)
find_msg_known (suc (suc (suc (suc (suc (suc (suc zero))))))) h = (_, refl)
find_msg_known (suc (suc (suc (suc (suc (suc (suc (suc n)))))))) h = absurd (omega arith)

-- Each error code below 8 is answered with one ERROR packet, and ends the session.
pub nak_answers :
    (cl : Client) (c : Cache) (st : Stats) (code : ℕ)
    → code < 8
    → (msg : List ℕ) × (nak cl c st code
        ≡ done (record {
          client = record cl { proc = cp_done };
          cache = c;
          stats = st;
          sends =
              record { to_addr = cl.addr; to_port = cl.port; content = error_packet code msg } ∷ [];
        }))
unfolding nak
nak_answers cl c st code h = let (msg, e) = find_msg_known code h in (msg, rw (e, nak))

-- A code from 8 on sends the search past the end of the table.
pub nak_runs_off :
    (cl : Client) (c : Cache) (st : Stats) (code : ℕ) → 8 ≤ code → nak cl c st code ≡ fault
unfolding nak
nak_runs_off cl c st code h = rw (find_msg-Absent code errmsgs (omega arith))
