-- ===== src/Str.antt =====
-- string.c. Memory is a function from the address to the byte; pointers do not wrap around.
pub mod Copies
pub mod Compares
pub mod Strncpy
use mathlib.Core.Option
use cs330_operating_systems.Base.{
  ℕ, zero, suc, ◌+◌, ◌-◌, ◌*◌, ◌/◌, ◌%◌, Bool, true, false, not, ◌&&◌, ltb, leb, ◌==◌,
  if◌then◌else◌, Option, none, some, update,
}

-- an `int`
pub data ℤ : Type 0 where
  pos : ℕ → ℤ
  negsuc : ℕ → ℤ

-- the difference of two bytes
abbrev pub diff : ℕ → ℕ → ℤ
diff a b = if leb b a then pos (a - b) else negsuc (b - a - 1)

-- `stosb` of x86.h: the low byte of `c`, `n` times
unfoldable pub stosb : ℕ → ℕ → ℕ → (ℕ → ℕ) → ℕ → ℕ
stosb dst c zero m = m
stosb dst c (suc n) m = stosb (dst + 1) c n (update m dst (c % 256))

-- a word in memory, the least byte first
abbrev pub put_word : ℕ → ℕ → (ℕ → ℕ) → ℕ → ℕ
put_word dst w m =
    update
      (update (update (update m dst (w % 256)) (dst + 1) (w / 256 % 256)) (dst + 2)
        (w / 65536 % 256))
      (dst + 3) (w / 16777216 % 256)

-- `stosl` of x86.h
unfoldable pub stosl : ℕ → ℕ → ℕ → (ℕ → ℕ) → ℕ → ℕ
stosl dst w zero m = m
stosl dst w (suc n) m = stosl (dst + 4) w n (put_word dst w m)

-- `(c<<24)|(c<<16)|(c<<8)|c` of a byte: the four parts share no bit
abbrev pub four_times : ℕ → ℕ
four_times c = c * 16777216 + c * 65536 + c * 256 + c

unfoldable pub memset : ℕ → ℕ → ℕ → (ℕ → ℕ) → ℕ → ℕ
unfolding stosb stosl
memset dst c n m =
    if (dst % 4 == 0) && (n % 4 == 0)
    then stosl dst (four_times (c % 256)) (n / 4) m
    else stosb dst c n m

unfoldable pub memcmp : ℕ → ℕ → ℕ → (ℕ → ℕ) → ℤ
memcmp s t zero m = pos 0
memcmp s t (suc n) m =
    let rest = memcmp (s + 1) (t + 1) n m in if not (m s == m t) then diff (m s) (m t) else rest

-- the two loops of `memmove`; in the first, `d` and `s` are where the copied range begins
unfoldable pub move_down : ℕ → ℕ → ℕ → (ℕ → ℕ) → ℕ → ℕ
move_down d s zero m = m
move_down d s (suc n) m = move_down d s n (update m (d + n) (m (s + n)))

unfoldable pub move_up : ℕ → ℕ → ℕ → (ℕ → ℕ) → ℕ → ℕ
move_up d s zero m = m
move_up d s (suc n) m = move_up (d + 1) (s + 1) n (update m d (m s))

unfoldable pub memmove : ℕ → ℕ → ℕ → (ℕ → ℕ) → ℕ → ℕ
unfolding move_down move_up
memmove dst src n m =
    if ltb src dst && ltb dst (src + n) then move_down dst src n m else move_up dst src n m

unfoldable pub strncmp : ℕ → ℕ → ℕ → (ℕ → ℕ) → ℤ
strncmp p q zero m = pos 0
strncmp p q (suc n) m =
    let rest = strncmp (p + 1) (q + 1) n m in
    if not (m p == 0) && (m p == m q) then rest else diff (m p) (m q)

-- the second loop of `strncpy`
unfoldable pub pad : ℕ → ℕ → (ℕ → ℕ) → ℕ → ℕ
pad s zero m = m
pad s (suc n) m = pad (s + 1) n (update m s 0)

-- The byte that is tested is the one that was written.
unfoldable pub strncpy : ℕ → ℕ → ℕ → (ℕ → ℕ) → ℕ → ℕ
unfolding pad
strncpy s t zero m = m
strncpy s t (suc n) m =
    let rest = strncpy (s + 1) (t + 1) n (update m s (m t)) in
    if m t == 0 then pad (s + 1) n (update m s (m t)) else rest

-- `safestrcpy` of `n + 1` bytes; of none it does nothing
unfoldable pub safestrcpy_from : ℕ → ℕ → ℕ → (ℕ → ℕ) → ℕ → ℕ
safestrcpy_from s t zero m = update m s 0
safestrcpy_from s t (suc n) m =
    let rest = safestrcpy_from (s + 1) (t + 1) n (update m s (m t)) in
    if m t == 0 then update (update m s (m t)) (s + 1) 0 else rest

unfoldable pub safestrcpy : ℕ → ℕ → ℕ → (ℕ → ℕ) → ℕ → ℕ
unfolding safestrcpy_from
safestrcpy s t zero m = m
safestrcpy s t (suc n) m = safestrcpy_from s t n m

-- `strlen`, with fuel for the bytes it may look at
unfoldable pub strlen : ℕ → ℕ → (ℕ → ℕ) → Option ℕ
strlen zero s m = none
strlen (suc fuel) s m =
    let rest = strlen fuel (s + 1) m in if m s == 0 then some 0 else Option.map suc rest
