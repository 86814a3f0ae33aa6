-- ===== src/Syscall.antt =====
-- syscall.c: the arguments of a system call, fetched from the process's memory, and the dispatch on
-- its number. `mem` gives the byte that the process's memory holds at an address; what a read does
-- where no page is present is the part of the page-fault handler. `none` is the return value -1.
pub mod Fetch
pub mod Names
use cs330_operating_systems.Base.{
  ℕ, zero, suc, ◌+◌, ◌-◌, ◌*◌, ◌^◌, Bool, true, false, ◌&&◌, ◌||◌, ltb, leb, ◌==◌, if◌then◌else◌,
  Option, none, some, List, [], ◌∷◌,
}
use cs330_operating_systems.Kalloc.{add_uint}
use cs330_operating_systems.Proc.{Proc}
use Names.{SysCall, syscalls}

abbrev pub Bytes : Type 0
Bytes = ℕ → ℕ

-- `*(int*)(addr)`, least significant byte first
abbrev pub word_at : Bytes → ℕ → ℕ
word_at mem addr =
    mem addr + 2 ^ 8 * mem (addr + 1) + 2 ^ 16 * mem (addr + 2) + 2 ^ 24 * mem (addr + 3)

unfoldable pub fetchint : Proc → Bytes → ℕ → Option ℕ
fetchint p mem addr =
    if leb p.sz addr || ltb p.sz (add_uint addr 4) then none else some (word_at mem addr)

-- The loop of `fetchstr` at `addr`, `k` bytes being left: how many bytes precede a NUL.
unfoldable pub string_from : Bytes → ℕ → ℕ → Option ℕ
string_from mem zero addr = none
string_from mem (suc k) addr =
    if mem addr == 0
    then some 0
    else elim (string_from mem k (addr + 1)) [ none ↦ none | some n ↦ some (suc n) ]

-- the length; the pointer is `addr`
unfoldable pub fetchstr : Proc → Bytes → ℕ → Option ℕ
unfolding string_from
fetchstr p mem addr = if leb p.sz addr then none else string_from mem (p.sz - addr) addr

-- `tf->esp` is `esp`.
unfoldable pub argint : Proc → Bytes → ℕ → ℕ → Option ℕ
unfolding fetchint
argint p mem esp n = fetchint p mem (add_uint (add_uint esp 4) (4 * n))

-- `argptr` from the word `i` that `argint` fetched on; `size` is the pattern of an `int`
unfoldable pub pointer_to : Proc → ℕ → Option ℕ → Option ℕ
pointer_to p size none = none
pointer_to p size (some i) =
    if leb (2 ^ 31) size || leb p.sz i || ltb p.sz (add_uint i size) then none else some i

unfoldable pub argptr : Proc → Bytes → ℕ → ℕ → ℕ → Option ℕ
unfolding argint pointer_to
argptr p mem esp n size = pointer_to p size (argint p mem esp n)

abbrev pub with_length : ℕ → Option ℕ → Option (ℕ × ℕ)
with_length addr none = none
with_length addr (some n) = some (addr, n)

-- the pointer and the length of the string
unfoldable pub argstr : Proc → Bytes → ℕ → ℕ → Option (ℕ × ℕ)
unfolding argint fetchstr
argstr p mem esp n = elim (argint p mem esp n) [
  | none ↦ none
  | some addr ↦ with_length addr (fetchstr p mem addr)
]

-- a line that `syscall` prints
pub data Line : Type 0 where
  traced : ℕ → SysCall → ℕ → Line
  unknown : ℕ → ℕ → Line

-- The kernel's state `S` and the functions that the calls run are parameters: `current` is the
-- process, `get_eax` and `set_eax` are its saved register.
module _ {ℓ} {S : Type ℓ} (current : S → Proc) (get_eax : S → ℕ) (set_eax : ℕ → S → S)
    (run : SysCall → S → ℕ × S) where
  -- `syscall` for a call that is known
  unfoldable pub handle : SysCall → S → S × List Line
  handle c s =
      let (result, s₁) = run c s in
      let s₂ = set_eax result s₁ in
      (s₂, if (current s₂).trace_enabled then traced (current s₂).pid c (get_eax s₂) ∷ [] else [])

  unfoldable pub syscall : S → S × List Line
  unfolding handle
  syscall s = elim (syscalls (get_eax s)) [
    | none ↦ (set_eax (2 ^ 32 - 1) s, unknown (current s).pid (get_eax s) ∷ [])
    | some c ↦ handle c s
  ]
