-- ===== src/Sender.antt =====
-- internal/engine/sender.go: the sender's table of files, its sets of ids, its counters and its queues.
pub mod Handlers
pub mod Outcomes
pub mod Scheduler
pub mod Batches
pub mod ManifestSent
pub mod Steps
pub mod Ids
pub mod Lookup
pub mod Credits
pub mod Files
pub mod CreditSteps
pub mod CreditEnds
pub mod CreditRetries
pub mod CreditRun
pub mod Ceiling
pub mod Resolution
pub mod ResolutionSteps
pub mod ResolutionEnds
pub mod ResolutionWork
pub mod Completion
pub mod Feeding
pub mod Quiet
pub mod QuietEnds
pub mod Queue
pub mod Bitmaps
pub mod Scheduled
mod Tests
use botjim.Prelude.{
  ℕ, ◌+◌, ◌-◌, ◌%◌, ◌^◌, Bool, true, false, not, ◌&&◌, ◌||◌, List, [], ◌∷◌, Bytes, ◌==◌,
  if◌then◌else◌, Option, none, some,
}
use botjim.Prelude.Int.{ℤ, pos, negsuc}
use botjim.Manifest.{Entry}
use botjim.Protocol.Messages.{FileResult}
use botjim.Engine.TxFile.{Answer}

-- A task of the workers. An index is the uint64 that the messages carry, which int64 renames.
pub record ChunkTask : Type 0 where
  pub file_id : ℕ
  pub idx : ℕ

-- `have` is none where the source has nil; `fd_tried` says that fdOnce ran, `fd_open` that fd is not nil.
pub record TxFile : Type 0 where
  pub entry : Entry
  pub have : Option Bytes
  pub all_skip : Bool
  pub fd_tried : Bool
  pub fd_err : Bool
  pub fd_open : Bool
  pub next_task : ℕ
  pub count : ℕ
  pub inflight : ℕ
  pub retries : ℕ → ℕ
  pub errored : Bool
  pub resolved : Bool

pub data Verdict : Type 0 where
  send_it skip_it : Verdict

pub record PlanRow : Type 0 where
  pub path : Bytes
  pub size : ℤ
  pub chunks : ℕ
  pub have : ℤ
  pub status : Verdict

pub record FileError : Type 0 where
  pub path : Bytes
  pub code : ℕ
  pub msg : Bytes

-- What the sender says on the control stream about a file.
pub data Outgoing : Type 0 where
  answered : ℕ → Answer → Outgoing
  failed : FileResult → Outgoing

-- The maps are lists with a key once; `parked` is the regular file whose credit the walker has yet to take. `task_q` is
-- what the scheduler has put on taskCh so far, `retry_q` what retryChunk has, `req_q` what requests have put on reqCh,
-- `said` and `frames` what went out on the control stream and on the data streams.
pub record Sender : Type 0 where
  pub files : List TxFile
  pub emitted_ids : List ℕ
  pub resolved_ids : List ℕ
  pub emitted : ℕ
  pub resolved : ℕ
  pub gates_open : ℤ
  pub parked : Option ℕ
  pub manifest_bytes : ℕ
  pub dirs : ℕ
  pub has_hardlinks : Bool
  pub ready_q : List ℕ
  pub task_q : List ChunkTask
  pub retry_q : List ChunkTask
  pub req_q : List ChunkTask
  pub plan : List PlanRow
  pub files_done : ℕ
  pub skipped_bytes : ℕ
  pub errors : List FileError
  pub said : List Outgoing
  pub frames : List Bytes
  pub cancelled : Bool

unfoldable pub new_sender : Sender
new_sender = record {
  files = [];
  emitted_ids = [];
  resolved_ids = [];
  emitted = 0;
  resolved = 0;
  gates_open = pos 0;
  parked = none;
  manifest_bytes = 0;
  dirs = 0;
  has_hardlinks = false;
  ready_q = [];
  task_q = [];
  retry_q = [];
  req_q = [];
  plan = [];
  files_done = 0;
  skipped_bytes = 0;
  errors = [];
  said = [];
  frames = [];
  cancelled = false;
}

-- map[uint32]bool
unfoldable pub has_id : ℕ → List ℕ → Bool
has_id i [] = false
has_id i (j ∷ js) = i == j || has_id i js

unfoldable pub with_id : ℕ → List ℕ → List ℕ
with_id i js = if has_id i js then js else i ∷ js

-- s.files[id]
unfoldable pub find : ℕ → List TxFile → Option TxFile
find i [] = none
find i (f ∷ fs) = if i == f.entry.id then some f else find i fs

-- s.files[id] = g, and a change of the record that the table points to.
unfoldable pub store : TxFile → List TxFile → List TxFile
store g [] = g ∷ []
store g (f ∷ fs) = let rest = store g fs in if g.entry.id == f.entry.id then g ∷ fs else f ∷ rest

-- `uint64(n)`
abbrev pub uint64 : ℤ → ℕ
uint64 (pos n) = n % 2 ^ 64
uint64 (negsuc n) = 2 ^ 64 - 1 - n % 2 ^ 64

unfoldable pub credit_limit : ℕ
credit_limit = 2048

-- `f.have == nil`
unfoldable pub is_nil : Option Bytes → Bool
is_nil none = true
is_nil (some b) = false

-- `f.have == nil && !f.allSkip`
unfoldable pub waits : TxFile → Bool
waits f = is_nil f.have && not f.all_skip
