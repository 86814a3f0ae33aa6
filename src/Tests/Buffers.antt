-- ===== src/Tests/Buffers.antt =====
-- bio.c on a cache of two buffers.
use cs330_operating_systems.Base.{true, false, List, [], ◌∷◌}
use cs330_operating_systems.Bio.{Buf}
use cs330_operating_systems.Bio.Unique.{Unique}

abbrev in_use : Buf
in_use = record { number = 0; dev = 1; blockno = 5; valid = true; dirty = false; refcnt = 1 }

abbrev idle : Buf
idle = record { number = 1; dev = 1; blockno = 6; valid = true; dirty = false; refcnt = 0 }

abbrev cache : List Buf
cache = in_use ∷ idle ∷ []
