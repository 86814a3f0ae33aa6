-- ===== src/Log/Header.antt =====
-- The log header as it stands in its block: word 0 is `n`, the words after it are `block[]`.
use cs330_operating_systems.Base.{
  ℕ, zero, suc, ◌+◌, ◌<◌, ◌≡◌, refl, List, [], ◌∷◌, arith, length, update,
}

-- the data of a buffer, as 32-bit words
abbrev pub Block : Type 0
Block = ℕ → ℕ

unfoldable pub encode_from : ℕ → List ℕ → Block → Block
encode_from i [] blk = blk
encode_from i (b ∷ bs) blk = encode_from (i + 1) bs (update blk i b)

-- `write_head`: the words past the list keep what they held.
unfoldable pub encode : List ℕ → Block → Block
unfolding encode_from
encode bs blk = encode_from 1 bs (update blk 0 (length bs))

unfoldable pub decode_from : ℕ → ℕ → Block → List ℕ
decode_from i zero blk = []
decode_from i (suc n) blk = blk i ∷ decode_from (i + 1) n blk

-- `read_head`
unfoldable pub decode : Block → List ℕ
unfolding decode_from
decode blk = decode_from 1 (blk 0) blk

encode_from-below :
    (i : ℕ) (bs : List ℕ) (blk : Block) (j : ℕ) → j < i → encode_from i bs blk j ≡ blk j
unfolding encode_from
encode_from-below i [] blk j h = refl
encode_from-below i (b ∷ bs) blk j h =
    ground (arith, encode_from-below (i + 1) bs (update blk i b) j)

decode_from-encode_from :
    (i : ℕ) (bs : List ℕ) (blk : Block) → decode_from i (length bs) (encode_from i bs blk) ≡ bs
unfolding encode_from decode_from
decode_from-encode_from i [] blk = refl
decode_from-encode_from i (b ∷ bs) blk = ground (
  arith,
  encode_from-below (i + 1) bs (update blk i b) i,
  decode_from-encode_from (i + 1) bs (update blk i b),
)

pub decode-encode : (bs : List ℕ) (blk : Block) → decode (encode bs blk) ≡ bs
unfolding encode decode
decode-encode bs blk = ground (
  arith,
  encode_from-below 1 bs (update blk 0 (length bs)) 0,
  decode_from-encode_from 1 bs (update blk 0 (length bs)),
)
