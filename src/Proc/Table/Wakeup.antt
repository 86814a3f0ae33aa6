-- ===== src/Proc/Table/Wakeup.antt =====
-- `wakeup` of proc.c: who is woken.

use mathlib.Core.Option
use cs330_operating_systems.Base.{ℕ, ◌≡◌, get_elem?, get_elem?-map}
use cs330_operating_systems.Proc.{Chan}
use cs330_operating_systems.Proc.Table.{Ptable, wake, wakeup}

-- `wakeup` makes runnable exactly the processes that sleep on the channel, and changes nothing else.
pub wakeup-get_elem? :
    (c : Chan) (t : Ptable) (i : ℕ)
    → get_elem? (wakeup c t).procs i ≡ Option.map (wake c) (get_elem? t.procs i)
unfolding wakeup
wakeup-get_elem? c t i = get_elem?-map (wake c) t.procs i
