-- ===== src/Tftp/Blocks.antt =====
-- src/tftpd-file_cache.c: a file is cut into the DATA packets that will carry it.
pub mod Contents
use docsis_server.Prelude.{
  ℕ, zero, suc, ◌+◌, ◌-◌, ◌/◌, ◌%◌, Bool, Option, none, some, List, [], ◌∷◌, ◌++◌, length, take,
  drop, replicate, ltb, if◌then◌else◌, ◌==◌,
}

-- SEGSIZE of <arpa/tftp.h>.
abbrev pub segsize : ℕ
segsize = 512

-- struct file_block. `n_op` and `n_bnum` are the packet's first two words, before htons.
pub record Block : Type 0 where
  pub blknum : ℕ
  pub blksize : ℕ
  pub n_op : ℕ
  pub n_bnum : ℕ
  pub blk : List ℕ

-- One block as the reading loops fill it: the packet header, then `blk` zeroed, then the bytes read.
unfoldable pub make_block : ℕ → List ℕ → Block
make_block num part = record {
  blknum = num;
  blksize = length part + 4;
  n_op = 3;
  n_bnum = num % 65536;
  blk = part ++ replicate (segsize + 1 - length part) 0;
}

abbrev pub push_front : Block → Option (List Block) → Option (List Block)
push_front b none = none
push_front b (some bs) = some (b ∷ bs)

-- The `while (reading)` loop of get_new_file. `room n` tells whether the calloc of block `n` succeeds;
-- when it fails the blocks read so far are freed and the function gives up.
unfoldable pub static_blocks : (ℕ → Bool) → ℕ → ℕ → List ℕ → Option (List Block)
static_blocks room zero blknum rest = none
static_blocks room (suc fuel) blknum rest =
    let num = blknum + 1 in
    let part = take segsize rest in
    let more = push_front (make_block num part) (static_blocks room fuel num (drop segsize rest)) in
    if room num
    then (if ltb (length part) segsize then some (make_block num part ∷ []) else more)
    else none

-- The loop of get_new_dynamic_file, over the bytes of `tmp_buf` not yet copied.
unfoldable pub dynamic_blocks : (ℕ → Bool) → ℕ → ℕ → List ℕ → Option (List Block)
dynamic_blocks room zero blknum rest = none
dynamic_blocks room (suc fuel) blknum rest =
    let num = blknum + 1 in
    let part = take segsize rest in
    let more =
      push_front (make_block num part) (dynamic_blocks room fuel num (drop segsize rest)) in
    if room num
    then (if ltb segsize (length rest) then more else some (make_block num rest ∷ []))
    else none

-- The block loop of read_block.
unfoldable pub find_block : ℕ → List Block → Option Block
find_block num [] = none
find_block num (b ∷ bs) = if b.blknum == num then some b else find_block num bs

-- The first `n` bytes of the packet that starts at `n_op`: two big-endian words, then `blk`.
unfoldable pub wire : Block → ℕ → List ℕ
wire b n = take n (b.n_op / 256 ∷ b.n_op % 256 ∷ b.n_bnum / 256 ∷ b.n_bnum % 256 ∷ b.blk)
