-- ===== src/Vm/Pte.antt =====
-- Page-table entries: the flags and fields of mmu.h. A flag is a power of two.
use cs330_operating_systems.Base.{
  ℕ, ◌+◌, ◌-◌, ◌*◌, ◌/◌, ◌%◌, ◌<◌, ◌≡◌, ◌^◌, Bool, true, false, not, arith, ◌==◌, if◌then◌else◌,
}
use cs330_operating_systems.Kalloc.{pgsize}

abbrev pub pte_p : ℕ
pte_p = 0x001

abbrev pub pte_w : ℕ
pte_w = 0x002

abbrev pub pte_u : ℕ
pte_u = 0x004

abbrev pub pte_cow : ℕ
pte_cow = 0x200

-- `w & k` as a condition, `w | k` and `w & ~k`
abbrev pub has_flag : ℕ → ℕ → Bool
has_flag w k = not ((w / k) % 2 == 0)

abbrev pub set_flag : ℕ → ℕ → ℕ
set_flag w k = if has_flag w k then w else w + k

abbrev pub clear_flag : ℕ → ℕ → ℕ
clear_flag w k = if has_flag w k then w - k else w

-- PTE_ADDR and PTE_FLAGS
abbrev pub pte_addr : ℕ → ℕ
pte_addr w = w - w % pgsize

abbrev pub pte_flags : ℕ → ℕ
pte_flags w = w % pgsize

-- `pa | flags`, of a page-aligned address and flags below a page's size
abbrev pub with_flags : ℕ → ℕ → ℕ
with_flags pa flags = pa + flags

-- PDX and PTX
abbrev pub pdx : ℕ → ℕ
pdx va = va / 2 ^ 22 % 1024

abbrev pub ptx : ℕ → ℕ
ptx va = va / 2 ^ 12 % 1024

-- the entry of a page that is to be written after a copy: PTE_W on, PTE_COW off
unfoldable pub private_flags : ℕ → ℕ
private_flags flags = clear_flag (set_flag flags pte_w) pte_cow

-- the entry of a page that is shared: PTE_W off, PTE_COW on
unfoldable pub shared_flags : ℕ → ℕ
shared_flags flags = set_flag (clear_flag flags pte_w) pte_cow

pub private_flags_lem :
    (w : ℕ)
    → (has_flag (private_flags w) pte_w ≡ true)
      × (has_flag (private_flags w) pte_cow ≡ false)
      × (has_flag (private_flags w) pte_p ≡ has_flag w pte_p)
      × (has_flag (private_flags w) pte_u ≡ has_flag w pte_u)
unfolding private_flags
private_flags_lem w = ground arith

pub shared_flags_lem :
    (w : ℕ)
    → (has_flag (shared_flags w) pte_w ≡ false)
      × (has_flag (shared_flags w) pte_cow ≡ true)
      × (has_flag (shared_flags w) pte_p ≡ has_flag w pte_p)
      × (has_flag (shared_flags w) pte_u ≡ has_flag w pte_u)
unfolding shared_flags
shared_flags_lem w = ground arith

pub private_flags-lt : (w : ℕ) → w < pgsize → private_flags w < pgsize
unfolding private_flags
private_flags-lt w h = ground arith

-- Flags joined to an aligned address stay what they are.
pub with_flags_lem :
    (f fl : ℕ)
    → fl < pgsize
    → (pte_addr (with_flags (f * pgsize) fl) ≡ f * pgsize)
      × (pte_flags (with_flags (f * pgsize) fl) ≡ fl)
      × (has_flag (with_flags (f * pgsize) fl) pte_p ≡ has_flag fl pte_p)
      × (has_flag (with_flags (f * pgsize) fl) pte_w ≡ has_flag fl pte_w)
      × (has_flag (with_flags (f * pgsize) fl) pte_u ≡ has_flag fl pte_u)
      × (has_flag (with_flags (f * pgsize) fl) pte_cow ≡ has_flag fl pte_cow)
with_flags_lem f fl h =
    (omega arith, omega arith, ground arith, ground arith, ground arith, ground arith)

-- What a change of flags W and COW leaves alone.
pub record SameEntry (w w' : ℕ) : Type 0 where
  pub present : has_flag w' pte_p ≡ has_flag w pte_p
  pub user : has_flag w' pte_u ≡ has_flag w pte_u
  pub address : pte_addr w' ≡ pte_addr w

pub shared_flags-SameEntry : (w : ℕ) → SameEntry w (shared_flags w)
unfolding shared_flags
shared_flags-SameEntry w = record {
  present = ground arith;
  user = ground arith;
  address = ground arith;
}

pub set_w-SameEntry : (w : ℕ) → SameEntry w (set_flag w pte_w)
set_w-SameEntry w = record { present = ground arith; user = ground arith; address = ground arith }

pub clear_w-SameEntry : (w : ℕ) → SameEntry w (clear_flag w pte_w)
clear_w-SameEntry w = record { present = ground arith; user = ground arith; address = ground arith }

pub shared_flags_twice : (w : ℕ) → shared_flags (shared_flags w) ≡ shared_flags w
unfolding shared_flags
shared_flags_twice w = ground arith

pub set_w_lem :
    (w : ℕ)
    → (has_flag (set_flag w pte_w) pte_w ≡ true)
      × (has_flag (set_flag w pte_w) pte_cow ≡ has_flag w pte_cow)
set_w_lem w = (ground arith, ground arith)

pub clear_w_lem : (w : ℕ) → has_flag (clear_flag w pte_w) pte_w ≡ false
clear_w_lem w = ground arith

pub set_w_twice : (w : ℕ) → set_flag (set_flag w pte_w) pte_w ≡ set_flag w pte_w
set_w_twice w = ground arith

pub clear_w_twice : (w : ℕ) → clear_flag (clear_flag w pte_w) pte_w ≡ clear_flag w pte_w
clear_w_twice w = ground arith
