-- ===== src/Tftp/Blocks/Contents.antt =====
-- What the blocks of a file hold: block number i carries the i-th 512 bytes.
use docsis_server.Prelude.{
  ℕ, zero, suc, ◌+◌, ◌-◌, ◌*◌, ◌/◌, ◌%◌, ◌≤◌, ◌<◌, ◌≡◌, min, refl, ap, Bool, true, none, some, List,
  [], ◌∷◌, ◌++◌, length, take, drop, replicate, arith, length-take, length-drop, take-append-drop,
  lt→ltb, le→ltb_false, ne→==_false, ==_refl,
}
use docsis_server.Tftp.Blocks.{
  segsize, Block, make_block, static_blocks, dynamic_blocks, find_block, wire,
}

-- The i-th 512 bytes of a file.
abbrev pub chunk : List ℕ → ℕ → List ℕ
chunk content zero = take segsize content
chunk content (suc i) = chunk (drop segsize content) i

-- Every calloc succeeds.
abbrev pub Roomy : (ℕ → Bool) → Type 0
Roomy room = (n : ℕ) → room n ≡ true

-- The blocks that carry the first `n` pieces, numbered from `k + 1`.
unfoldable pub layout : ℕ → ℕ → List ℕ → List Block
layout zero k rest = []
layout (suc n) k rest =
    make_block (k + 1) (take segsize rest) ∷ layout n (k + 1) (drop segsize rest)

take-all {ℓ} : {A : Type ℓ} (n : ℕ) (xs : List A) → length xs ≤ n → take n xs ≡ xs
take-all zero [] h = refl
take-all zero (x ∷ xs) h = absurd (omega arith)
take-all (suc n) [] h = refl
take-all (suc n) (x ∷ xs) h = ap (◌∷◌ x) (take-all n xs (omega arith))

pub static_blocks-layout :
    (room : ℕ → Bool) (fuel k n : ℕ) (rest : List ℕ)
    → Roomy room
    → length rest < segsize * fuel
    → n ≡ length rest / segsize + 1
    → static_blocks room fuel k rest ≡ some (layout n k rest)
unfolding static_blocks layout
static_blocks-layout room zero k n rest r h e = absurd (omega arith)
static_blocks-layout room (suc fuel) k zero rest r h e = absurd (omega arith)
static_blocks-layout room (suc fuel) k (suc zero) rest r h e =
    ground (arith, r (k + 1), length-take segsize rest)
static_blocks-layout room (suc fuel) k (suc (suc n)) rest r h e =
    let ih =
      static_blocks-layout room fuel (k + 1) (suc n) (drop segsize rest) r
        (omega (arith, length-drop segsize rest)) (omega (arith, length-drop segsize rest)) in
    ground (arith, r (k + 1), length-take segsize rest, ih)

pub dynamic_blocks-layout :
    (room : ℕ → Bool) (fuel k n : ℕ) (rest : List ℕ)
    → Roomy room
    → 0 < length rest
    → length rest < segsize * fuel
    → n ≡ (length rest + 511) / segsize
    → dynamic_blocks room fuel k rest ≡ some (layout n k rest)
unfolding dynamic_blocks layout
dynamic_blocks-layout room zero k n rest r p h e = absurd (omega arith)
dynamic_blocks-layout room (suc fuel) k zero rest r p h e = absurd (omega arith)
dynamic_blocks-layout room (suc fuel) k (suc zero) rest r p h e =
    let small : length rest ≤ segsize = omega arith in
    rw (r (k + 1), le→ltb_false segsize (length rest) small, take-all segsize rest small)
dynamic_blocks-layout room (suc fuel) k (suc (suc n)) rest r p h e =
    let ih =
      dynamic_blocks-layout room fuel (k + 1) (suc n) (drop segsize rest) r
        (omega (arith, length-drop segsize rest)) (omega (arith, length-drop segsize rest))
        (omega (arith, length-drop segsize rest)) in
    rw (r (k + 1), lt→ltb segsize (length rest) (omega arith), ih)

pub length-layout : (n k : ℕ) (rest : List ℕ) → length (layout n k rest) ≡ n
unfolding layout
length-layout zero k rest = refl
length-layout (suc n) k rest = ap suc (length-layout n (k + 1) (drop segsize rest))

pub find_block-layout :
    (n k i m : ℕ) (rest : List ℕ)
    → m ≡ k + 1 + i
    → i < n
    → find_block m (layout n k rest) ≡ some (make_block m (chunk rest i))
unfolding find_block layout make_block
find_block-layout zero k i m rest e h = absurd (omega arith)
find_block-layout (suc n) k zero m rest e h =
    let same : k + 1 ≡ m = omega arith in rw (==_refl (k + 1) m same, same)
find_block-layout (suc n) k (suc i) m rest e h =
    rw (ne→==_false (k + 1) m (omega arith))
      (find_block-layout n (k + 1) i m (drop segsize rest) (omega arith) (omega arith))

pub find_block-layout-none :
    (n k m : ℕ) (rest : List ℕ) → k + n < m → find_block m (layout n k rest) ≡ none
unfolding find_block layout make_block
find_block-layout-none zero k m rest h = refl
find_block-layout-none (suc n) k m rest h =
    ground (arith, find_block-layout-none n (k + 1) m (drop segsize rest))

-- The data bytes that a block carries.
abbrev pub payload : Block → List ℕ
payload b = drop 4 (wire b b.blksize)

abbrev pub payloads : List Block → List ℕ
payloads [] = []
payloads (b ∷ bs) = payload b ++ payloads bs

take-append_length {ℓ} : {A : Type ℓ} (xs ys : List A) → take (length xs) (xs ++ ys) ≡ xs
take-append_length [] ys = refl
take-append_length (x ∷ xs) ys = ap (◌∷◌ x) (take-append_length xs ys)

-- What is sent of a block is its header and its bytes.
pub wire-make_block :
    (num : ℕ) (part : List ℕ)
    → wire (make_block num part) (length part + 4)
      ≡ 0 ∷ 3 ∷ num % 65536 / 256 ∷ num % 65536 % 256 ∷ part
unfolding wire make_block
wire-make_block num part =
    let e : length part + 4 ≡ suc (suc (suc (suc (length part)))) = omega arith in
    rw (e, take-append_length part (replicate (segsize + 1 - length part) 0))

payload-make_block : (num : ℕ) (part : List ℕ) → payload (make_block num part) ≡ part
unfolding make_block
payload-make_block num part = ap (drop 4) (wire-make_block num part)

-- Enough blocks carry the whole file.
pub payloads-layout :
    (n k : ℕ) (rest : List ℕ) → length rest ≤ segsize * n → payloads (layout n k rest) ≡ rest
unfolding layout
payloads-layout zero k [] h = refl
payloads-layout zero k (x ∷ rest) h = absurd (omega arith)
payloads-layout (suc n) k rest h =
    rw
      (
        payload-make_block (k + 1) (take segsize rest),
        payloads-layout n (k + 1) (drop segsize rest) (omega (arith, length-drop segsize rest)),
      )
      (take-append-drop segsize rest)

-- Every piece but the last is full.
pub length-chunk :
    (i : ℕ) (content : List ℕ)
    → length (chunk content i) ≡ min segsize (length content - segsize * i)
length-chunk zero content = omega (arith, length-take segsize content)
length-chunk (suc i) content =
    omega (arith, length-chunk i (drop segsize content), length-drop segsize content)
