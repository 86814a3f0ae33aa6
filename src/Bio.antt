-- ===== src/Bio.antt =====
-- bio.c: the buffer cache. The circular list is the list of the buffers from `bcache.head.next` on;
-- the sleep-lock of a buffer and its contents are not modelled.
pub mod Unique
use cs330_operating_systems.Base.{
  ℕ, zero, suc, ◌+◌, ◌-◌, Bool, true, false, not, ◌&&◌, ◌==◌, if◌then◌else◌, Option, none, some,
  List, [], ◌∷◌, ◌++◌, get_elem?, take, drop, modify, replicate, find_index, Outcome, ok, panic,
  ◌>>=◌,
}
use cs330_operating_systems.Kalloc.{add_uint, sub_uint}

-- `number` is the place in `bcache.buf`.
pub record Buf : Type 0 where
  pub number : ℕ
  pub dev : ℕ
  pub blockno : ℕ
  pub valid : Bool
  pub dirty : Bool
  pub refcnt : ℕ

-- the loop of `binit`: each buffer goes to the front
unfoldable pub link_from : ℕ → ℕ → List Buf → List Buf
link_from k zero bufs = bufs
link_from k (suc n) bufs =
    link_from (k + 1) n
      (record { number = k; dev = 0; blockno = 0; valid = false; dirty = false; refcnt = 0 } ∷ bufs)

abbrev pub nbuf : ℕ
nbuf = 30

unfoldable pub binit : List Buf
unfolding link_from
binit = link_from 0 nbuf []

abbrev pub is_block : ℕ → ℕ → Buf → Bool
is_block dev blockno b = (b.dev == dev) && (b.blockno == blockno)

abbrev pub is_free : Buf → Bool
is_free b = (b.refcnt == 0) && not b.dirty

-- a scan along `prev`, from the least recently used buffer on
unfoldable pub find_last : (Buf → Bool) → List Buf → Option ℕ
find_last test [] = none
find_last test (b ∷ bufs) = elim (find_last test bufs) [
  | some i ↦ some (suc i)
  | none ↦ if test b then some 0 else none
]

abbrev pub hold : Buf → Buf
hold b = record b { refcnt = add_uint b.refcnt 1 }

abbrev pub recycle : ℕ → ℕ → Buf → Buf
recycle dev blockno b = record b {
  dev = dev;
  blockno = blockno;
  valid = false;
  dirty = false;
  refcnt = 1;
}

-- The result is the position of the buffer in the list.
unfoldable pub bget : ℕ → ℕ → List Buf → Outcome (ℕ × List Buf)
unfolding find_last
bget dev blockno bufs = elim (find_index (is_block dev blockno) bufs) [
  | some i ↦ ok (i, modify i hold bufs)
  | none ↦ elim (find_last is_free bufs) [
    | some i ↦ ok (i, modify i (recycle dev blockno) bufs)
    | none ↦ panic
  ]
]

-- the end of `brelse`: the buffer with one user less, at the front when it has none
abbrev pub put_back : ℕ → List Buf → Buf → List Buf
put_back i bufs b =
    if b.refcnt == 0 then b ∷ (take i bufs ++ drop (suc i) bufs) else modify i (λ c. b) bufs

-- `brelse` of the buffer at position `i`, from `releasesleep` on
unfoldable pub brelse : ℕ → List Buf → List Buf
brelse i bufs = elim (get_elem? bufs i) [
  | none ↦ bufs
  | some b ↦ put_back i bufs (record b { refcnt = sub_uint b.refcnt 1 })
]
