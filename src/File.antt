-- ===== src/File.antt =====
-- file.c: the table of open files and their reference counts. What a last close still has to do,
-- closing a pipe's end or giving an inode back within a transaction, is its result.
pub mod Refs
use mathlib.Core.Option
use cs330_operating_systems.Base.{
  ℕ, zero, suc, ◌+◌, ◌-◌, Bool, true, false, ltb, ◌==◌, if◌then◌else◌, Option, none, some, List,
  get_elem?, modify, find_index, Outcome, ok, panic,
}

pub data FileType : Type 0 where
  fd_none : FileType
  fd_pipe : ℕ → FileType
  fd_inode : ℕ → FileType

-- The address of the pipe and the inode stand in the type, `pipe` and `ip` in the source. `ref` is an
-- `int` that is never negative.
pub record File : Type 0 where
  pub type : FileType
  pub ref : ℕ
  pub readable : Bool
  pub writable : Bool
  pub off : ℕ

pub data Closing : Type 0 where
  still_open : Closing
  nothing_left : Closing
  closes_pipe : ℕ → Bool → Closing
  puts_inode : ℕ → Closing

abbrev pub last_close : File → Closing
last_close f = elim f.type [
  | fd_none ↦ nothing_left
  | fd_pipe a ↦ closes_pipe a f.writable
  | fd_inode ip ↦ puts_inode ip
]

unfoldable pub filealloc : List File → Option ℕ × List File
filealloc files = elim (find_index (λ f. f.ref == 0) files) [
  | none ↦ (none, files)
  | some i ↦ (some i, modify i (λ f. record f { ref = 1 }) files)
]

unfoldable pub filedup : ℕ → List File → Outcome (List File)
filedup i files = elim (get_elem? files i) [
  | none ↦ panic
  | some f ↦ if ltb f.ref 1 then panic else ok (modify i (λ g. record g { ref = g.ref + 1 }) files)
]

-- `fileclose` of entry `i`, which holds `f`
unfoldable pub close_entry : ℕ → File → List File → Outcome (Closing × List File)
close_entry i f files =
    if ltb f.ref 1
    then panic
    else if ltb 0 (f.ref - 1)
    then ok (still_open, modify i (λ g. record g { ref = g.ref - 1 }) files)
    else ok (last_close f, modify i (λ g. record g { ref = 0; type = fd_none }) files)

unfoldable pub fileclose : ℕ → List File → Outcome (Closing × List File)
unfolding close_entry
fileclose i files = elim (get_elem? files i) [ none ↦ panic | some f ↦ close_entry i f files ]
