-- ===== src/File/Refs.antt =====
-- The reference counts of file.c: what `filedup` adds, `fileclose` takes back.
use cs330_operating_systems.Base.{
  ℕ, zero, suc, ◌+◌, ◌-◌, ◌≤◌, ◌≡◌, refl, ap, true, false, arith, ltb, some, List, [], ◌∷◌,
  get_elem?, modify, modify_twice, get_elem?-modify_self, ok,
}
use cs330_operating_systems.File.{File, still_open, filedup, close_entry, fileclose}

abbrev more : File → File
more g = record g { ref = g.ref + 1 }

abbrev fewer : File → File
fewer g = record g { ref = g.ref - 1 }

fewer-more : (g : File) → fewer (more g) ≡ g
fewer-more g = ap (λ n. record g { ref = n }) (omega arith)

modify-same : (i : ℕ) (files : List File) → modify i (λ g. fewer (more g)) files ≡ files
modify-same i [] = refl
modify-same zero (f ∷ files) = ap (λ g. g ∷ files) (fewer-more f)
modify-same (suc i) (f ∷ files) = ap (λ l. f ∷ l) (modify-same i files)

-- A duplicate of an open file can be closed again: the file stays open, and the table is as before.
pub filedup-fileclose :
    (i : ℕ) (f : File) (files : List File)
    → get_elem? files i ≡ some f
    → 1 ≤ f.ref
    → (files' : List File) × (filedup i files ≡ ok files')
      × (fileclose i files' ≡ ok (still_open, files))
unfolding filedup fileclose close_entry
filedup-fileclose i f files at opened =
    let a : ltb f.ref 1 ≡ false = ground arith in
    let b : ltb (f.ref + 1) 1 ≡ false = ground arith in
    let c : ltb 0 (f.ref + 1 - 1) ≡ true = ground arith in
    (
      modify i more files,
      rw (at, filedup, a),
      rw (
        get_elem?-modify_self i more files f at,
        fileclose,
        close_entry,
        b,
        c,
        modify_twice i more fewer files,
        modify-same i files,
      ),
    )
