-- ===== src/Tests/Frames.antt =====
-- kalloc.c on a machine with one free frame, 1000. Frame 900 is a page directory, 901 its page
-- table, and 902 a page that two processes share, copy-on-write, at the virtual address 20480.
use cs330_operating_systems.Base.{
  ℕ, ◌+◌, ◌*◌, ◌≡◌, ◌≢◌, ◌⊎◌, refl, ◌&&◌, ◌==◌, if◌then◌else◌, [], ◌∷◌, arith, ok,
}
use cs330_operating_systems.Kalloc.{Kmem, Page, kernbase, kfree}
use cs330_operating_systems.Kalloc.Chain.{page_of}
use cs330_operating_systems.Kalloc.Counts.{Pool, Refines, drop_ref, kfree-drop_ref}

abbrev pub owners : ℕ → ℕ
owners f = if f == 900 then 1 else if f == 901 then 1 else if f == 902 then 2 else 0

abbrev pub directory_word : ℕ
directory_word = 901 * 4096 + 7

-- present, for the user, and copy-on-write
abbrev pub cow_word : ℕ
cow_word = 902 * 4096 + 517

abbrev pub pages : ℕ → Page
pages f i =
    if (f == 900) && (i == 0)
    then directory_word
    else if (f == 901) && (i == 5)
    then cow_word
    else 0

abbrev pub machine : Kmem
machine = record {
  freelist = page_of 1000;
  refcnt = owners;
  ram = pages;
  kernel_end = kernbase + 1048576;
}

abbrev pub pool : Pool
pool = record { count = owners; free = 1000 ∷ [] }

pub machine-Refines : Refines machine pool
machine-Refines = record {
  pool = record {
    chain = (refl, refl);
    unowned = (refl, tt);
    above = (omega arith, tt);
    in_ram = (omega arith, tt);
    distinct = (refl, tt);
    end_above = omega arith;
  };
  counts = λ f. refl;
}

kfree-drop_ref_example :
    (m' : Kmem) × (kfree (page_of 902) machine ≡ ok m')
    × Refines m' (drop_ref 902 pool)
    × ((g : ℕ) → (g ≢ 902) ⊎ (pool.count 902 ≢ 1) → m'.ram g ≡ pages g)
    × (m'.kernel_end ≡ machine.kernel_end)
kfree-drop_ref_example =
    kfree-drop_ref 902 machine-Refines (omega arith) (omega arith) (omega arith)
