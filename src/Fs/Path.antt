-- ===== src/Fs/Path.antt =====
-- fs.c: path names. A path is the list of its bytes before the NUL.

use cs330_operating_systems.Base.{
  ℕ, zero, suc, leb, ◌==◌, if◌then◌else◌, Option, none, some, List, [], ◌∷◌, ◌++◌, length, take,
}

abbrev pub dirsiz : ℕ
dirsiz = 14

-- '/'
abbrev pub slash : ℕ
slash = 47

-- `while(*path == '/') path++`
unfoldable pub skip_slashes : List ℕ → List ℕ
skip_slashes [] = []
skip_slashes (c ∷ cs) = let rest = skip_slashes cs in if c == slash then rest else c ∷ cs

-- `while(*path != '/' && *path != 0) path++`: the bytes passed, and those left
unfoldable pub first_element : List ℕ → List ℕ × List ℕ
first_element [] = ([], [])
first_element (c ∷ cs) =
    let (passed, left) = first_element cs in if c == slash then ([], c ∷ cs) else (c ∷ passed, left)

-- the bytes that are copied to `name`
abbrev pub name_bytes : List ℕ → List ℕ
name_bytes element =
    if leb dirsiz (length element) then take dirsiz element else element ++ (0 ∷ [])

-- `skipelem` from the first byte that is no slash on
abbrev pub after_slashes : List ℕ → Option (List ℕ × List ℕ)
after_slashes [] = none
after_slashes (c ∷ cs) =
    let (element, left) = first_element (c ∷ cs) in some (name_bytes element, skip_slashes left)

-- What `skipelem` writes to `name`, and the path that it returns; `none` is the null pointer.
unfoldable pub skipelem : List ℕ → Option (List ℕ × List ℕ)
unfolding skip_slashes first_element
skipelem path = after_slashes (skip_slashes path)

-- The elements of a path, by a scan of its bytes from the right: `open_element` is the element that the
-- bytes scanned so far begin with, and the list has those behind it.
abbrev pub add_byte : ℕ → List ℕ × List (List ℕ) → List ℕ × List (List ℕ)
add_byte c (open_element, behind) =
    if c == slash
    then (elim open_element [ [] ↦ ([], behind) | (d ∷ ds) ↦ ([], (d ∷ ds) ∷ behind) ])
    else (c ∷ open_element, behind)

unfoldable pub scan_path : List ℕ → List ℕ × List (List ℕ)
scan_path [] = ([], [])
scan_path (c ∷ cs) = add_byte c (scan_path cs)

abbrev pub close_element : List ℕ × List (List ℕ) → List (List ℕ)
close_element ([], behind) = behind
close_element (d ∷ ds, behind) = (d ∷ ds) ∷ behind

unfoldable pub elements : List ℕ → List (List ℕ)
unfolding scan_path
elements path = close_element (scan_path path)

-- The names that a loop over `skipelem` sees, as `namex` does.
unfoldable pub names_from : ℕ → List ℕ → List (List ℕ)
names_from zero path = []
names_from (suc fuel) path = elim (skipelem path) [ none ↦ [] | some v ↦ v.0 ∷ names_from fuel v.1 ]
