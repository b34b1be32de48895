-- ===== src/Relay/Spool.antt =====
-- internal/relay/spool.go: the store-and-forward buffer of one direction. The lock is given up only
-- in `cond.Wait`, so a round of the loop of Write or Read is one step. A Boolean
-- argument says whether the disk does what is asked of it; Truncate always does.
use botjim.Prelude.{
  ℕ, ◌+◌, ◌-◌, Bool, true, false, not, ◌&&◌, [], ◌∷◌, ◌++◌, Bytes, length, take, drop, ◌==◌, ltb,
  leb, if◌then◌else◌, Option, none, some,
}

-- `io` is a failure of the disk; the number is the caller's error.
pub data SpoolError : Type 0 where
  io : SpoolError
  failed : ℕ → SpoolError

-- `file` is the content of the spill file; `has_dir` says that a directory is set.
pub record Spool : Type 0 where
  pub limit : ℕ
  pub mem_limit : ℕ
  pub has_dir : Bool
  pub mem : Bytes
  pub file : Option Bytes
  pub wr_off : ℕ
  pub rd_off : ℕ
  pub buffered : ℕ
  pub eof : Bool
  pub err : Option SpoolError

unfoldable pub new_spool : ℕ → ℕ → Bool → Spool
new_spool limit mem_limit has_dir = record {
  limit = limit;
  mem_limit = mem_limit;
  has_dir = has_dir;
  mem = [];
  file = none;
  wr_off = 0;
  rd_off = 0;
  buffered = 0;
  eof = false;
  err = none;
}

-- WriteAt: what stood behind the bytes written stays.
unfoldable pub write_at : Bytes → ℕ → Bytes → Bytes
write_at content off p = take off content ++ (p ++ drop (off + length p) content)

abbrev pub first_error : Option SpoolError → SpoolError → Option SpoolError
first_error none e = some e
first_error (some f) e = some f

unfoldable pub fail_locked : SpoolError → Spool → Spool
fail_locked e s = record s { err = first_error s.err e; file = none }

-- The file that a spill writes to: the one there is, or a new one.
abbrev pub content_of : Option Bytes → Bytes
content_of none = []
content_of (some c) = c

unfoldable pub spill_locked : Spool → Spool
spill_locked s = if length s.mem == 0 then s else record s {
  file = some (write_at (content_of s.file) s.wr_off s.mem);
  wr_off = s.wr_off + length s.mem;
  mem = [];
}

-- The chunk of a round goes to the file, if there is one, or to memory.
unfoldable pub store : Spool → Bytes → Spool
store s chunk = elim s.file [
  | some c ↦ record s {
    file = some (write_at c s.wr_off chunk);
    wr_off = s.wr_off + length chunk;
    buffered = s.buffered + length chunk;
  }
  | none ↦ record s { mem = s.mem ++ chunk; buffered = s.buffered + length chunk }
]

pub data Round (A : Type 0) : Type 0 where
  waits : Round A
  refused : SpoolError → Spool → Round A
  ended : Round A
  went : A → Spool → Round A

-- What of `p` a round takes.
unfoldable pub room : Spool → Bytes → ℕ
room s p =
    if ltb 0 s.limit && ltb (s.limit - s.buffered) (length p)
    then s.limit - s.buffered
    else length p

abbrev pub over_threshold : Spool → Bool
over_threshold s = leb s.mem_limit (length s.mem) && s.has_dir

abbrev pub on_disk : Option Bytes → Bool
on_disk none = false
on_disk (some c) = true

abbrev pub spilled : Spool → Spool
spilled s = if over_threshold s then spill_locked s else s

-- A round of Write for `p`, which is not empty: it gives the bytes left over. `spills` and `writes`
-- say whether the spill and the write to the file succeed.
unfoldable pub write_round : Bool → Bool → Spool → Bytes → Round Bytes
write_round spills writes s p = elim s.err [
  | some e ↦ refused e s
  | none ↦
      if ltb 0 s.limit && leb s.limit s.buffered
      then waits
      else if over_threshold s && not (length s.mem == 0) && not spills
      then refused io (fail_locked io s)
      else if on_disk (spilled s).file && not writes
      then refused io (fail_locked io (spilled s))
      else went (drop (room s p) p) (store (spilled s) (take (room s p) p))
]

-- Once the file is drained its space is given back.
unfoldable pub reset_spill_locked : Spool → Spool
reset_spill_locked s =
    if s.rd_off == s.wr_off && length s.mem == 0
    then record s { file = some []; rd_off = 0; wr_off = 0 }
    else s

-- The end of a round of Read: memory, the end of the stream, an error, or a wait.
unfoldable pub read_mem : Spool → ℕ → Round Bytes
read_mem s n =
    if ltb 0 (length s.mem)
    then went (take n s.mem)
        (record s { mem = drop n s.mem; buffered = s.buffered - length (take n s.mem) })
    else if s.eof
    then ended
    else elim s.err [ some e ↦ refused e s | none ↦ waits ]

abbrev pub read_file : Spool → ℕ → Bytes → Round Bytes
read_file s n [] = read_mem s n
read_file s n (b ∷ got) = went (b ∷ got) (
    reset_spill_locked
      (record s { rd_off = s.rd_off + length (b ∷ got); buffered = s.buffered - length (b ∷ got) }))

-- The first test of the loop, on the file.
unfoldable pub read_from : Bool → Spool → ℕ → Option Bytes → Round Bytes
read_from disk s n none = read_mem s n
read_from disk s n (some c) =
    if not (ltb s.rd_off s.wr_off)
    then read_mem s n
    else if disk
    then read_file s n (take n (drop s.rd_off c))
    else refused io (fail_locked io s)

-- A round of Read into a buffer of `n` bytes.
unfoldable pub read_round : Bool → Spool → ℕ → Round Bytes
read_round disk s n = read_from disk s n s.file

unfoldable pub close_write : Spool → Spool
close_write s = record s { eof = true }
