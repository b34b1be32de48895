-- ===== src/Sender/Scheduler.antt =====
-- internal/engine/sender.go: a pass of runScheduler over its backlog, and a worker's round of runWorker.
use botjim.Prelude.{
  ℕ, zero, suc, ◌+◌, ◌-◌, Bool, true, false, not, ◌||◌, List, [], ◌∷◌, ◌++◌, Bytes, if◌then◌else◌,
  Option, none, some,
}
use botjim.Chunking.{count}
use botjim.Sidecar.{bit_at, entry_grid}
use botjim.Engine.RxFile.{out_of_range}
use botjim.Engine.TxFile.{send_chunk}
use botjim.Sender.{ChunkTask, TxFile, Sender, find, store, is_nil}
use botjim.Sender.Handlers.{Source}
use botjim.Sender.Outcomes.{fail_file, task_done, code_source_changed}

-- The loop over the chunks of a file: `room` is the number of sends that taskCh takes before one finds it full, and
-- `full` says that a send did.
pub record Feed : Type 0 where
  pub next_task : ℕ
  pub inflight : ℕ
  pub room : ℕ
  pub tasks : List ChunkTask
  pub full : Bool

-- bitTest, which is false past the end and on nil.
unfoldable pub has_bit : Option Bytes → ℕ → Bool
has_bit none i = false
has_bit (some bits) i = bit_at bits i

unfoldable pub feed_send : ℕ → ℕ → Feed → Feed
feed_send id zero v = record v { full = true }
feed_send id (suc room) v = record {
  next_task = v.next_task + 1;
  inflight = v.inflight + 1;
  room = room;
  tasks = v.tasks ++ record { file_id = id; idx = v.next_task } ∷ [];
  full = false;
}

unfoldable pub feed_if : Bool → Bool → ℕ → Feed → Feed
feed_if true there id v = v
feed_if false true id v = record v { next_task = v.next_task + 1 }
feed_if false false id v = feed_send id v.room v

unfoldable pub feed_one : ℕ → (ℕ → Bool) → Feed → Feed
feed_one id skip v = feed_if v.full (skip v.next_task) id v

-- As many rounds as chunks are left; a full channel ends the loop.
unfoldable pub feed_loop : ℕ → (ℕ → Bool) → ℕ → Feed → Feed
feed_loop id skip zero v = v
feed_loop id skip (suc n) v = feed_loop id skip n (feed_one id skip v)

unfoldable pub feed_file : ℕ → TxFile → Feed
feed_file room f = feed_loop f.entry.id (has_bit f.have) (f.count - f.next_task) (record {
  next_task = f.next_task;
  inflight = f.inflight;
  room = room;
  tasks = [];
  full = false;
})

-- What is left of a backlog behind a pass, and the sender.
pub record Pass : Type 0 where
  pub backlog : List ℕ
  pub sender : Sender

unfoldable pub fed : TxFile → Feed → Sender → Sender
fed f v s = record s {
  files = store (record f { next_task = v.next_task; inflight = v.inflight }) s.files;
  task_q = s.task_q ++ v.tasks;
}

-- `f.errored || f.resolved || f.allSkip || f.have == nil`
unfoldable pub is_over : TxFile → Bool
is_over f = f.errored || f.resolved || f.all_skip || is_nil f.have

unfoldable pub feed_found : ℕ → Option TxFile → Sender → Feed × Sender
feed_found room none s =
    (record { next_task = 0; inflight = 0; room = room; tasks = []; full = false }, s)
feed_found room (some f) s =
    if is_over f
    then (record { next_task = 0; inflight = 0; room = room; tasks = []; full = false }, s)
    else (feed_file room f, fed f (feed_file room f) s)

-- A file over is passed by; a full channel keeps the head of the backlog for later.
unfoldable pub pass : ℕ → List ℕ → Sender → Pass
pass room [] s = record { backlog = []; sender = s }
pass room (i ∷ is) s =
    let here = feed_found room (find i s.files) s in
    let rest = pass here.0.room is here.1 in
    if here.0.full then record { backlog = i ∷ is; sender = here.1 } else rest

-- An empty backlog is filled from readyQ.
unfoldable pub refill : List ℕ → Sender → Pass
refill [] s = record { backlog = s.ready_q; sender = record s { ready_q = [] } }
refill (i ∷ is) s = record { backlog = i ∷ is; sender = s }

unfoldable pub schedule : ℕ → List ℕ → Sender → Pass
schedule room backlog s = let p = refill backlog s in pass room p.backlog p.sender

-- The options that sendChunk looks at, and the codec.
pub record Wire : Type 0 where
  pub sparse : Bool
  pub summed : Bool
  pub compress : Bytes → Bytes × Bool

unfoldable pub open_if : Bool → Bool → TxFile → TxFile
open_if true ok f = f
open_if false ok f = record f { fd_tried = true; fd_err = not ok; fd_open = ok }

-- fdOnce
unfoldable pub open_fd : Bool → TxFile → TxFile
open_fd ok f = open_if f.fd_tried ok f

-- What sendChunk puts on the stream for a file whose descriptor was asked for, or an error.
unfoldable pub frame_of : Source → Wire → ℕ → TxFile → Option Bytes
frame_of src w i f =
    if f.fd_err || not f.fd_open
    then none
    else send_chunk w.sparse w.summed w.compress (src.readable f.entry) (src.content f.entry)
        f.entry i

-- How the limiter's wait and the write to the stream end: the frame is out, the write fails, or the context is over.
pub data Fate : Type 0 where
  sent_out write_failed context_over : Fate

-- An error fails the file, but for that of the context; the error's text is a parameter.
unfoldable pub framed : Fate → Bytes → TxFile → Option Bytes → Sender → Sender
framed fate msg f none s = fail_file f code_source_changed msg s
framed sent_out msg f (some b) s = record s { frames = s.frames ++ b ∷ [] }
framed write_failed msg f (some b) s = fail_file f code_source_changed msg s
framed context_over msg f (some b) s = s

unfoldable pub open_and_send : Source → Wire → Fate → Bytes → ℕ → TxFile → Sender → Sender
open_and_send src w fate msg i f s =
    let g = open_fd (src.opens f.entry) f in
    framed fate msg g (frame_of src w i g) (record s { files = store g s.files })

-- A file that has its outcome is left; an index out of range is an error.
unfoldable pub work_if : Bool → Bool → Source → Wire → Fate → Bytes → ℕ → TxFile → Sender → Sender
work_if true outside src w fate msg i f s = s
work_if false true src w fate msg i f s = fail_file f code_source_changed msg s
work_if false false src w fate msg i f s = open_and_send src w fate msg i f s

unfoldable pub work_found : Source → Wire → Fate → Bytes → ℕ → Option TxFile → Sender → Sender
work_found src w fate msg i none s = s
work_found src w fate msg i (some f) s =
    work_if (f.errored || f.resolved) (out_of_range (count (entry_grid f.entry)) i) src w fate msg i
      f s

unfoldable pub work : Source → Wire → Fate → Bytes → Bytes → Bool → ChunkTask → Sender → Sender
work src w fate msg changed_msg changed t s =
    task_done changed changed_msg t (work_found src w fate msg t.idx (find t.file_id s.files) s)
