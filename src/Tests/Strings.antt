-- ===== src/Tests/Strings.antt =====
-- string.c on a memory that holds its addresses, and on two strings.
use cs330_operating_systems.Base.{ℕ, ◌||◌, ◌==◌, if◌then◌else◌}

abbrev memory : ℕ → ℕ
memory a = a

-- "ab" at 0 and at 10, with other bytes after the NULs
abbrev strings : ℕ → ℕ
strings a =
    if (a == 0) || (a == 10)
    then 97
    else if (a == 1) || (a == 11)
    then 98
    else if (a == 2) || (a == 12)
    then 0
    else a
