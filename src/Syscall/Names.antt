-- ===== src/Syscall/Names.antt =====
-- The numbers of the system calls (syscall.h) and the array `syscalls` of syscall.c.
use cs330_operating_systems.Base.{
  ℕ, zero, suc, ◌≡◌, refl, Option, none, some, List, [], ◌∷◌, get_elem?,
}

pub data SysCall : Type 0 where
  sys_fork sys_exit sys_wait sys_pipe sys_read sys_kill sys_exec sys_fstat sys_chdir sys_dup
        sys_getpid sys_sbrk sys_sleep sys_uptime sys_open sys_write sys_mknod sys_unlink sys_link
        sys_mkdir sys_close sys_trace sys_setprio sys_getprio sys_mmap sys_munmap sys_mprotect
        sys_numvp sys_numpp sys_getptsize sys_pageref :
      SysCall

unfoldable pub number_of : SysCall → ℕ
number_of sys_fork = 1
number_of sys_exit = 2
number_of sys_wait = 3
number_of sys_pipe = 4
number_of sys_read = 5
number_of sys_kill = 6
number_of sys_exec = 7
number_of sys_fstat = 8
number_of sys_chdir = 9
number_of sys_dup = 10
number_of sys_getpid = 11
number_of sys_sbrk = 12
number_of sys_sleep = 13
number_of sys_uptime = 14
number_of sys_open = 15
number_of sys_write = 16
number_of sys_mknod = 17
number_of sys_unlink = 18
number_of sys_link = 19
number_of sys_mkdir = 20
number_of sys_close = 21
number_of sys_trace = 22
number_of sys_setprio = 23
number_of sys_getprio = 24
number_of sys_mmap = 25
number_of sys_munmap = 26
number_of sys_mprotect = 27
number_of sys_numvp = 28
number_of sys_numpp = 29
number_of sys_getptsize = 30
number_of sys_pageref = 31

abbrev pub calls : List SysCall
calls =
    sys_fork ∷ sys_exit ∷ sys_wait ∷ sys_pipe ∷ sys_read ∷ sys_kill ∷ sys_exec ∷ sys_fstat
    ∷ sys_chdir ∷ sys_dup ∷ sys_getpid ∷ sys_sbrk ∷ sys_sleep ∷ sys_uptime ∷ sys_open ∷ sys_write
    ∷ sys_mknod ∷ sys_unlink ∷ sys_link ∷ sys_mkdir ∷ sys_close ∷ sys_trace ∷ sys_setprio
    ∷ sys_getprio ∷ sys_mmap ∷ sys_munmap ∷ sys_mprotect ∷ sys_numvp ∷ sys_numpp ∷ sys_getptsize
    ∷ sys_pageref ∷ []

-- `num > 0 && num < NELEM(syscalls) && syscalls[num]`; a negative number is a pattern from 2^31 on
unfoldable pub syscalls : ℕ → Option SysCall
syscalls zero = none
syscalls (suc n) = get_elem? calls n

pub syscalls-number_of : (c : SysCall) → syscalls (number_of c) ≡ some c
unfolding syscalls number_of
syscalls-number_of sys_fork = refl
syscalls-number_of sys_exit = refl
syscalls-number_of sys_wait = refl
syscalls-number_of sys_pipe = refl
syscalls-number_of sys_read = refl
syscalls-number_of sys_kill = refl
syscalls-number_of sys_exec = refl
syscalls-number_of sys_fstat = refl
syscalls-number_of sys_chdir = refl
syscalls-number_of sys_dup = refl
syscalls-number_of sys_getpid = refl
syscalls-number_of sys_sbrk = refl
syscalls-number_of sys_sleep = refl
syscalls-number_of sys_uptime = refl
syscalls-number_of sys_open = refl
syscalls-number_of sys_write = refl
syscalls-number_of sys_mknod = refl
syscalls-number_of sys_unlink = refl
syscalls-number_of sys_link = refl
syscalls-number_of sys_mkdir = refl
syscalls-number_of sys_close = refl
syscalls-number_of sys_trace = refl
syscalls-number_of sys_setprio = refl
syscalls-number_of sys_getprio = refl
syscalls-number_of sys_mmap = refl
syscalls-number_of sys_munmap = refl
syscalls-number_of sys_mprotect = refl
syscalls-number_of sys_numvp = refl
syscalls-number_of sys_numpp = refl
syscalls-number_of sys_getptsize = refl
syscalls-number_of sys_pageref = refl
