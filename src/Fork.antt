-- ===== src/Fork.antt =====
-- `fork` and `wait` of proc.c, and `copyuvm` of vm.c, by which `fork` gives the child the parent's
-- pages copy-on-write.
pub mod Share
pub mod Fails
use cs330_operating_systems.Base.{
  ℕ, zero, suc, ◌+◌, ◌-◌, ◌*◌, ◌%◌, Bool, true, false, not, ◌&&◌, ◌||◌, ltb, ◌==◌, if◌then◌else◌,
  Outcome, ok, out_of_fuel, ◌>>=◌, Option, none, some, List, [], ◌∷◌, get_elem?, find_index,
}
use cs330_operating_systems.Kalloc.{
  Kmem, pgsize, kernbase, phystop, add_uint, sub_uint, v2p, fill_page, kalloc, kfree, kref_inc,
}
use cs330_operating_systems.Vm.{Slot, load, store, walkpgdir, mappages, max_pages}
use cs330_operating_systems.Vm.Pte.{
  pte_p, pte_w, pte_cow, has_flag, pte_addr, pte_flags, with_flags, shared_flags,
}
use cs330_operating_systems.Vm.Space.{freevm}
use cs330_operating_systems.Proc.{ProcState, unused, runnable, Chan, proc_chan, Vma, Proc}
use cs330_operating_systems.Proc.Table.{Ptable, allocproc, change, is_child, is_zombie, sleep}
use cs330_operating_systems.File.{File, filedup}
use cs330_operating_systems.Fs.Inode.{Inode, idup}

-- `(flags & PTE_W) || (flags & PTE_COW)`
abbrev pub becomes_cow : ℕ → Bool
becomes_cow w = has_flag (pte_flags w) pte_w || has_flag (pte_flags w) pte_cow

-- `flags` where the page is mapped into the child
abbrev pub child_flags : ℕ → ℕ
child_flags w = if becomes_cow w then shared_flags (pte_flags w) else pte_flags w

-- the parent's entry after the page was shared
abbrev pub parent_word : ℕ → ℕ
parent_word w = if becomes_cow w then with_flags (pte_addr w) (child_flags w) else w

-- the loop's body at address `i` with the parent's present entry `s`: `false` jumps to `bad`
unfoldable pub share_entry : ℕ → ℕ → Slot → Kmem → Outcome (Bool × Kmem)
share_entry d i s m =
    let w = load s m in
    mappages d i pgsize (pte_addr w) (child_flags w) (store s (parent_word w) m) >>= λ (done, m₁).
    if done then (kref_inc (pte_addr w) m₁ >>= λ m₂. ok (true, m₂)) else ok (false, m₁)

unfoldable pub share_page : ℕ → ℕ → Option Slot → Kmem → Outcome (Bool × Kmem)
unfolding share_entry
share_page d i none m = ok (true, m)
share_page d i (some s) m = if has_flag (load s m) pte_p then share_entry d i s m else ok (true, m)

unfoldable pub copyuvm_from : ℕ → ℕ → ℕ → ℕ → ℕ → Kmem → Outcome (Bool × Kmem)
unfolding share_page
copyuvm_from zero pgdir d i sz m = out_of_fuel
copyuvm_from (suc fuel) pgdir d i sz m =
    if ltb i sz
    then (walkpgdir pgdir i false m >>= λ (pte, m₁). share_page d i pte m₁ >>= λ (done, m₂).
        if done then copyuvm_from fuel pgdir d (add_uint i pgsize) sz m₂ else ok (false, m₂))
    else ok (true, m)

-- the loop over the address space below `sz`
unfoldable pub share_pages : ℕ → ℕ → ℕ → Kmem → Outcome (Bool × Kmem)
share_pages pgdir d sz m = copyuvm_from max_pages pgdir d 0 sz m

-- a row of `kmap`
pub record Kmap : Type 0 where
  pub virt : ℕ
  pub phys_start : ℕ
  pub phys_end : ℕ
  pub perm : ℕ

abbrev pub row : ℕ → ℕ → ℕ → ℕ → Kmap
row virt from end perm = record { virt = virt; phys_start = from; phys_end = end; perm = perm }

abbrev pub extmem : ℕ
extmem = 0x100000

abbrev pub devspace : ℕ
devspace = 0xFE000000

-- `data` is where the linker puts the kernel's data.
abbrev pub kmap : ℕ → List Kmap
kmap data_at =
    row kernbase 0 extmem pte_w
    ∷ row (kernbase + extmem) extmem (v2p data_at) 0
    ∷ row data_at (v2p data_at) phystop pte_w
    ∷ row devspace devspace 0 pte_w
    ∷ []

unfoldable pub map_kernel : List Kmap → ℕ → Kmem → Outcome (Bool × Kmem)
map_kernel [] pgdir m = ok (true, m)
map_kernel (k ∷ ks) pgdir m =
    mappages pgdir k.virt (sub_uint k.phys_end k.phys_start) k.phys_start k.perm m >>= λ (done, m₁).
    if done then map_kernel ks pgdir m₁ else ok (false, m₁)

-- a failure on the way frees the page directory
abbrev pub or_free : ℕ → Bool × Kmem → Outcome (ℕ × Kmem)
or_free d (true, m) = ok (d, m)
or_free d (false, m) = freevm d m >>= λ m₁. ok (0, m₁)

-- The result 0 is the null pointer. PHYSTOP is below DEVSPACE, so the test for it does not panic.
unfoldable pub setupkvm : ℕ → Kmem → Outcome (ℕ × Kmem)
unfolding map_kernel
setupkvm data_at m = kalloc m >>= λ (pgdir, m₁).
    if pgdir == 0
    then ok (0, m₁)
    else map_kernel (kmap data_at) pgdir (fill_page pgdir 0 m₁) >>= or_free pgdir

unfoldable pub copyuvm : ℕ → ℕ → ℕ → Kmem → Outcome (ℕ × Kmem)
unfolding setupkvm share_pages
copyuvm data_at pgdir sz m = setupkvm data_at m >>= λ (d, m₁).
    if d == 0 then ok (0, m₁) else share_pages pgdir d sz m₁ >>= or_free d

-- The kernel's state as `fork` sees it: processes, memory, the file table and the inode cache.
pub record System : Type 0 where
  pub table : Ptable
  pub memory : Kmem
  pub files : List File
  pub inodes : List Inode

-- `filedup` of each open file
unfoldable pub dup_files : List (Option ℕ) → List File → Outcome (List File)
unfolding filedup
dup_files [] files = ok files
dup_files (none ∷ fds) files = dup_files fds files
dup_files (some i ∷ fds) files = filedup i files >>= λ files₁. dup_files fds files₁

abbrev pub dup_cwd : Option ℕ → List Inode → List Inode
dup_cwd none inodes = inodes
dup_cwd (some i) inodes = idup i inodes

-- the child's fields; the open files are those of the parent
abbrev pub child_of : ℕ → Proc → ℕ → Proc → Proc
child_of cur p d np = record np {
  pgdir = d;
  sz = p.sz;
  vmas = p.vmas;
  parent = some cur;
  trace_enabled = p.trace_enabled;
  priority = p.priority;
  ofile = p.ofile;
  cwd = p.cwd;
  state = runnable;
}

-- the child's slot when its address space could not be made
abbrev pub abandoned : Proc → Proc
abandoned np = record np { pgdir = 0; kstack = 0; state = unused }

abbrev pub kstack_of : Option Proc → ℕ
kstack_of none = 0
kstack_of (some np) = np.kstack

abbrev pub pid_of : Option Proc → ℕ
pid_of none = 0
pid_of (some np) = np.pid

-- `fork` from the child's slot `i` on
unfoldable pub fork_at : ℕ → ℕ → Proc → ℕ → System → Outcome (Option ℕ × System)
unfolding copyuvm dup_files
fork_at data_at cur p i s = copyuvm data_at p.pgdir p.sz s.memory >>= λ (d, m₁).
    if d == 0
    then (kfree (kstack_of (get_elem? s.table.procs i)) m₁ >>= λ m₂.
        ok (none, record s { table = change i abandoned s.table; memory = m₂ }))
    else dup_files p.ofile s.files >>= λ files₁. ok (
      some (pid_of (get_elem? s.table.procs i)),
      record {
        table = change i (child_of cur p d) s.table;
        memory = m₁;
        files = files₁;
        inodes = dup_cwd p.cwd s.inodes;
      },
    )

abbrev pub or_no_slot :
    ℕ → ℕ → Proc → System → Option ℕ × Ptable × Kmem → Outcome (Option ℕ × System)
or_no_slot data_at cur p s (none, t, m) = ok (none, record s { table = t; memory = m })
or_no_slot data_at cur p s (some i, t, m) =
    fork_at data_at cur p i (record s { table = t; memory = m })

-- `fork` by the process `p` in slot `cur`: the child's number, or `none` for -1.
unfoldable pub fork : ℕ → ℕ → Proc → System → Outcome (Option ℕ × System)
unfolding fork_at allocproc
fork data_at cur p s = allocproc s.table s.memory >>= or_no_slot data_at cur p s

-- `wait`: the entry freed; the name is not modelled
abbrev pub reaped : Proc → Proc
reaped p = record p { kstack = 0; pid = 0; parent = none; killed = false; state = unused }

abbrev pub is_dead_child : ℕ → Proc → Bool
is_dead_child cur p = is_child cur p.parent && is_zombie p.state

abbrev pub has_child : ℕ → List Proc → Bool
has_child cur [] = false
has_child cur (p ∷ ps) = is_child cur p.parent || has_child cur ps

pub data Waits : Type 0 where
  reaps : ℕ → Waits
  fails sleeps : Waits

abbrev pub reap : ℕ → Option Proc → Ptable → Kmem → Outcome (Waits × Ptable × Kmem)
reap k none t m = ok (fails, t, m)
reap k (some p) t m =
    kfree p.kstack m >>= λ m₁. freevm p.pgdir m₁ >>= λ m₂. ok (reaps p.pid, change k reaped t, m₂)

-- One pass of `wait` by slot `cur`: it returns a child's number, or -1, or sleeps on itself and goes
-- through the table again when it was woken.
unfoldable pub wait_pass : ℕ → Bool → Ptable → Kmem → Outcome (Waits × Ptable × Kmem)
wait_pass cur killed t m = elim (find_index (is_dead_child cur) t.procs) [
  | some k ↦ reap k (get_elem? t.procs k) t m
  | none ↦
      if not (has_child cur t.procs) || killed
      then ok (fails, t, m)
      else ok (sleeps, sleep cur (proc_chan cur) t, m)
]
