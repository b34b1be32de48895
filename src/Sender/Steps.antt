-- ===== src/Sender/Steps.antt =====
-- internal/engine/sender.go: readCtrl's switch, and the steps of the goroutines of Run in any order.
use botjim.Prelude.{ℕ, Bool, true, List, [], ◌∷◌, Bytes, leb, Option, none, some}
use botjim.Manifest.{Entry}
use botjim.Protocol.Messages.{FileResult, ChunkRetry, ChunkRequest}
use botjim.Protocol.Init.{HaveBitmap}
use botjim.Sender.{ChunkTask, Sender}
use botjim.Sender.Handlers.{Source, emit, take_credit, drop_credits, gate_open}
use botjim.Sender.Outcomes.{file_result, retry_chunk, chunk_request}
use botjim.Sender.Scheduler.{Fate, Pass, schedule, Wire, work}

-- The messages that change the sender, as readCtrl's switch tells them apart.
pub data Incoming : Type 0 where
  have_bitmap : HaveBitmap → Incoming
  outcome : FileResult → Incoming
  retry : ChunkRetry → Incoming
  request : ChunkRequest → Incoming
  cancel done other : Incoming

unfoldable pub read_message : Source → Incoming → Sender → Sender
read_message src (have_bitmap m) s = gate_open src m s
read_message src (outcome m) s = file_result m s
read_message src (retry m) s = retry_chunk src m s
read_message src (request m) s = chunk_request m s
read_message src cancel s = record s { cancelled = true }
read_message src done s = s
read_message src other s = s

-- One step of the walker, of readCtrl, of the scheduler or of a worker; the backlog is the scheduler's own.
pub data Step : Type 0 where
  walk : Entry → Step
  credit : Step
  stop : Step
  message : Incoming → Step
  scheduled : ℕ → Step
  worked : Fate → Bytes → Bytes → Bool → ChunkTask → Step

-- A walker that waits for a credit emits nothing.
unfoldable pub walk_on : Option ℕ → Entry → Sender → Sender
walk_on none e s = emit e s
walk_on (some i) e s = s

unfoldable pub step : Source → Wire → Step → Pass → Pass
step src w (walk e) p = record p { sender = walk_on p.sender.parked e p.sender }
step src w credit p = record p { sender = take_credit p.sender }
step src w stop p = record p { sender = drop_credits p.sender }
step src w (message m) p = record p { sender = read_message src m p.sender }
step src w (scheduled room) p = schedule room p.backlog p.sender
step src w (worked fate msg changed_msg changed t) p = record p {
  sender = work src w fate msg changed_msg changed t p.sender;
}

unfoldable pub run : Source → Wire → List Step → Pass → Pass
run src w [] p = p
run src w (t ∷ ts) p = run src w ts (step src w t p)

-- Run's test that every entry has an outcome.
unfoldable pub is_done : Sender → Bool
is_done s = leb s.emitted s.resolved
