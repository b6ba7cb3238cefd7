-- ===== src/Tftp/Session/FullBlocks.antt =====
-- The transfer of a file whose last block is full: there is no short block to end it.
use docsis_server.Prelude.{
  ℕ, suc, ◌+◌, ◌*◌, ◌≤◌, ◌<◌, ◌≡◌, refl, ap, subst, ◌∙◌, true, some, none, List, [], ◌∷◌, length,
  arith, fault, Option,
}
use docsis_server.Tftp.Blocks.{find_block}
use docsis_server.Tftp.Blocks.Contents.{chunk, find_block-layout-none, length-chunk}
use docsis_server.Tftp.Cache.{Entry, Cache, World, find_entry, read_block}
use docsis_server.Tftp.Session.{
  Client, Stats, Net, State, cp_sendfile, st_init, st_waitack, my_sendfile, fetch, fetched,
}
use docsis_server.Tftp.Session.Naks.{nak_runs_off}
use docsis_server.Tftp.Session.Sending.{ready}
use docsis_server.Tftp.Session.Steps.{
  hears, ack_packet, take_ack-next, continue-ready, my_sendfile-next, my_sendfile-init,
}
use docsis_server.Tftp.Session.Transfer.{
  Turn, converse, acks, step_on, AtPiece, full_state, Stores, Stores-Holds, sent-AtPiece, chunk_le,
}

fetch_missing :
    (net : Net) (w : World) (cl : Client) (c : Cache) (st : Stats) (e : Entry)
    → find_entry cl.fnum c.thecache ≡ some e
    → find_block cl.block e.thefile ≡ none
    → fetch net w cl c st ≡ fault
unfolding fetch read_block fetched
fetch_missing net w cl c st e found missing =
    rw (found, read_block, missing, nak_runs_off cl _ _ 100 (omega arith))

past_the_end_at :
    (net : Net) (w : World) (cl : Client) (c : Cache) (st : Stats) (k : ℕ) (e : Entry) (t : State)
    → t ≡ st_waitack
    → k ≤ cl.maxb
    → find_entry cl.fnum c.thecache ≡ some e
    → find_block (k + 1) e.thefile ≡ none
    → my_sendfile net w (record cl { tp = some (ack_packet k); state = t }) c st ≡ fault
unfolding my_sendfile
past_the_end_at net w cl c st k e t s le found missing =
    rw
      (
        s,
        take_ack-next net w cl st k le,
        continue-ready net w (hears (some (ack_packet k)) cl) c st (k + 1),
      )
      (fetch_missing net w (ready (k + 1) (hears (some (ack_packet k)) cl)) c st e found missing)

-- If the last of a file's `n` blocks is full, its acknowledgement makes the server ask for a block
-- that is not there and look up an error code that its table does not have.
pub full_last_block_faults :
    (net : Net) (w : World) (cl : Client) (c : Cache) (st : Stats) (n i : ℕ) (content : List ℕ)
    → AtPiece cl c n i content
    → suc i ≡ n
    → length (chunk content i) ≡ 512
    → my_sendfile net w (hears (some (ack_packet n)) cl) c st ≡ fault
full_last_block_faults net w cl c st n i content at last full =
    let (e, found, blocks) = at.stored in
    past_the_end_at net w cl c st n e cl.state
      (at.state ∙ full_state (length (chunk content i)) full) (omega (arith, at.blocks)) found
      (ap (find_block (n + 1)) blocks ∙ find_block-layout-none n 0 (n + 1) content (omega arith))

step_faults :
    (net : Net) (cl : Client) (c : Cache) (st : Stats) (w : World) (packet : Option (List ℕ))
    (turns : List Turn)
    → cl.proc ≡ cp_sendfile
    → my_sendfile net w (hears packet cl) c st ≡ fault
    → converse net cl c st ((w, packet) ∷ turns) ≡ fault
unfolding converse
step_faults net cl c st w packet turns p e = rw (p, converse, e)

module _ (net : Net) (up : net.sendto_ok ≡ true) (content : List ℕ) (n : ℕ)
    (whole : length content ≡ 512 * n) where
  rest_faults :
      (ws : List World) (w : World) (i : ℕ) (cl : Client) (c : Cache) (st : Stats)
      → i + suc (length ws) ≡ n
      → AtPiece cl c n i content
      → converse net cl c st (acks (suc i) (w ∷ ws)) ≡ fault
  rest_faults [] w i cl c st e at =
      step_faults net cl c st w (some (ack_packet (suc i))) [] at.serving (
        subst (λ k. my_sendfile net w (hears (some (ack_packet k)) cl) c st ≡ fault) (omega arith)
          (full_last_block_faults net w cl c st n i content at (omega arith)
            (omega (arith, length-chunk i content))))
  rest_faults (w' ∷ ws) w i cl c st e at =
      let full : length (chunk content i) ≡ 512 = omega (arith, length-chunk i content) in
      let state = at.state ∙ full_state (length (chunk content i)) full in
      let packet = some (ack_packet (suc i)) in
      let turns = acks (suc (suc i)) (w' ∷ ws) in
      let sent =
        my_sendfile-next net w cl c st (suc i) (suc (suc i)) (chunk content (suc i)) up state
          (omega (arith, at.blocks)) (omega arith) (chunk_le content (suc i))
          (Stores-Holds c cl.fnum n (suc i) (suc (suc i)) content (omega arith) refl at.stored) in
      rw (
        step_on net cl c st w packet _ turns at.serving sent,
        rest_faults ws w' (suc i) _ _ _ (omega arith) (
            sent-AtPiece w (hears packet cl) c st n (suc i) content at.serving at.blocks at.stored),
      )

  -- A client that asks for a cached file all of whose blocks are full, and acknowledges each block as
  -- it comes, brings the server to undefined behaviour with its last acknowledgement.
  pub full_blocks_fault :
      (ws : List World) (w : World) (cl : Client) (c : Cache) (st : Stats)
      → cl.proc ≡ cp_sendfile
      → cl.state ≡ st_init
      → cl.maxb ≡ n
      → Stores c cl.fnum n content
      → 0 < n
      → length ws ≡ n
      → converse net cl c st ((w, none) ∷ acks 1 ws) ≡ fault
  full_blocks_fault [] w cl c st p s b held pos e = absurd (omega arith)
  full_blocks_fault (w' ∷ ws) w cl c st p s b held pos e =
      let first : Client = record (hears none cl) { dp = none } in
      let sent =
        my_sendfile-init net w cl c st (chunk content 0) up s (chunk_le content 0)
          (Stores-Holds c cl.fnum n 0 1 content (omega arith) refl held) in
      rw (
        step_on net cl c st w none _ (acks 1 (w' ∷ ws)) p sent,
        rest_faults ws w' 0 _ _ _ (omega arith) (sent-AtPiece w first c st n 0 content p b held),
      )
