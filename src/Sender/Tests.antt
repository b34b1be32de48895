-- ===== src/Sender/Tests.antt =====
-- A file of three bytes in chunks of two, sent by the sender's steps.
use botjim.Prelude.{
  ℕ, ◌+◌, ◌-◌, ◌≡◌, ◌≤◌, ◌<◌, ◌⊎◌, ◌++◌, refl, arith, inl, inr, Bool, true, false, List, [], ◌∷◌,
  Bytes, length, All, Option, none, some, map,
}
use botjim.Prelude.Int.{ℤ, pos, negsuc, pos_part}
use botjim.Manifest.{Entry, Kind, regular, dir}
use botjim.Protocol.Messages.{FileResult}
use botjim.Protocol.Init.{HaveBitmap}
use botjim.Protocol.Entry.{encode_entry}
use botjim.Protocol.EntryRoundTrip.{IsEntry, IsExtra}
use botjim.Sender.{TxFile, Sender, ChunkTask, credit_limit, find, has_id}
use botjim.Sender.Handlers.{Source, new_file, take_credit}
use botjim.Sender.Scheduler.{Wire, Feed, feed_file, has_bit}
use botjim.Sender.Steps.{
  Step, walk, credit, message, scheduled, worked, have_bitmap, outcome, run, is_done,
}
use botjim.Sender.Lookup.{count_pending}
use botjim.Sender.Ceiling.{start, IsOrderly, run-credits, wait_ends}
use botjim.Sender.Completion.{IsNewEach, done-resolved, resolved-done, report-bounded}
use botjim.Sender.Feeding.{missing, feed_file-exact}
use botjim.Sender.Queue.{tasks_of}
use botjim.Sender.Scheduled.{AreNewFiles, queued_exactly}
use botjim.Sender.Batches.{
  no_batches, Turn, append_all, joined, batches_in_order, digest_covers, flush_batch, entries_of,
}
use botjim.Sender.ManifestSent.{Arrives, manifest-Arrives}

abbrev entry_at : ℕ → Kind → Entry
entry_at i k = record {
  id = i;
  kind = k;
  rel_path = (97 + i) ∷ [];
  abs_path = 47 ∷ (97 + i) ∷ [];
  mode = 420;
  uid = 0;
  gid = 0;
  uname = [];
  gname = [];
  mtime = record { sec = pos 5; nsec = 0 };
  atime = record { sec = pos 5; nsec = 0 };
  size = pos 3;
  dev = 0;
  ino = 0;
  chunk_size = pos 2;
  link_target = [];
  link_ref_id = 0;
  rdev = 0;
  xattrs = [];
}

abbrev source : Source
source = record {
  dry_run = false;
  sha256 = λ b. b;
  opens = λ e. true;
  readable = λ e i. true;
  content = λ e b. b + 1;
  exhausted = λ i. i ∷ [];
}

abbrev wire : Wire
wire = record { sparse = false; summed = false; compress = λ b. (b, true) }

abbrev no_bitmap : HaveBitmap
no_bitmap = record { file_id = 1; status = 0; bitmap = []; hashes = [] }

abbrev done_with : ℕ → FileResult
done_with i = record { file_id = i; status = 0; code = 0; msg = [] }

abbrev begun : List Step
begun = walk (entry_at 1 regular) ∷ credit ∷ []

-- The file gets its outcome before its bitmap.
abbrev whole : List Step
whole = walk (entry_at 1 regular) ∷ credit ∷ message (outcome (done_with 1)) ∷ []

credit_back : (run source wire whole start).sender.gates_open ≡ pos 0
unfolding run botjim.Sender.Steps.step botjim.Sender.Steps.read_message
    botjim.Sender.Outcomes.file_result botjim.Sender.Outcomes.result_if has_id take_credit
    botjim.Sender.Handlers.take_parked botjim.Sender.Steps.walk_on botjim.Sender.new_sender
    botjim.Sender.Handlers.emit botjim.Sender.Handlers.emit_kind botjim.Sender.Handlers.take_if
    credit_limit botjim.Sender.with_id botjim.Sender.Outcomes.mark_resolved
    botjim.Sender.Outcomes.echo find botjim.Sender.store botjim.Sender.Outcomes.count_result
    botjim.Sender.Outcomes.is_error botjim.Sender.Handlers.release_if botjim.Sender.waits
    botjim.Sender.is_nil botjim.Sender.Handlers.clamped botjim.Prelude.Int.◌-ℤ◌
credit_back = refl

begun-IsOrderly : IsOrderly source wire begun start
unfolding find botjim.Sender.new_sender
begun-IsOrderly = (refl, (tt, tt))

one-IsOrderly : IsOrderly source wire (walk (entry_at 1 regular) ∷ []) start
unfolding find botjim.Sender.new_sender
one-IsOrderly = (refl, tt)

one_pending :
    count_pending (run source wire (walk (entry_at 1 regular) ∷ []) start).sender.files
    ≤ credit_limit
unfolding count_pending credit_limit run botjim.Sender.Steps.step botjim.Sender.Steps.walk_on
    botjim.Sender.new_sender botjim.Sender.Handlers.emit botjim.Sender.Handlers.emit_kind
    botjim.Sender.store botjim.Sender.Lookup.pending botjim.Sender.waits botjim.Sender.is_nil
one_pending = omega arith

whole-IsNewEach : IsNewEach source wire whole start
unfolding has_id botjim.Sender.new_sender
whole-IsNewEach = (refl, (tt, (tt, tt)))

whole_done : is_done (run source wire whole start).sender ≡ true
unfolding is_done run botjim.Sender.Steps.step botjim.Sender.Steps.read_message
    botjim.Sender.Outcomes.file_result botjim.Sender.Outcomes.result_if has_id take_credit
    botjim.Sender.Handlers.take_parked botjim.Sender.Steps.walk_on botjim.Sender.new_sender
    botjim.Sender.Handlers.emit botjim.Sender.Handlers.emit_kind botjim.Sender.Handlers.take_if
    credit_limit botjim.Sender.with_id botjim.Sender.Outcomes.mark_resolved
    botjim.Sender.Outcomes.echo find botjim.Sender.store botjim.Sender.Outcomes.count_result
    botjim.Sender.Outcomes.is_error
whole_done = refl

file_emitted : has_id 1 (run source wire whole start).sender.emitted_ids ≡ true
unfolding has_id run botjim.Sender.Steps.step botjim.Sender.Steps.read_message
    botjim.Sender.Outcomes.file_result botjim.Sender.Outcomes.result_if take_credit
    botjim.Sender.Handlers.take_parked botjim.Sender.Steps.walk_on botjim.Sender.new_sender
    botjim.Sender.Handlers.emit botjim.Sender.Handlers.emit_kind botjim.Sender.Handlers.take_if
    credit_limit botjim.Sender.with_id botjim.Sender.Outcomes.mark_resolved
    botjim.Sender.Outcomes.echo find botjim.Sender.store botjim.Sender.Outcomes.count_result
    botjim.Sender.Outcomes.is_error
file_emitted = refl

run-credits_example :
    pos_part (run source wire begun start).sender.gates_open
    ≤ count_pending (run source wire begun start).sender.files
run-credits_example = run-credits source wire begun begun-IsOrderly

wait_ends_example :
    (take_credit (run source wire (walk (entry_at 1 regular) ∷ []) start).sender).parked ≡ none
wait_ends_example = wait_ends source wire (walk (entry_at 1 regular) ∷ []) one-IsOrderly one_pending

done-resolved_example : has_id 1 (run source wire whole start).sender.resolved_ids ≡ true
done-resolved_example =
    done-resolved source wire whole 1 refl whole-IsNewEach whole_done file_emitted

all_resolved :
    (i : ℕ)
    → has_id i (run source wire whole start).sender.emitted_ids ≡ true
    → has_id i (run source wire whole start).sender.resolved_ids ≡ true
unfolding run botjim.Sender.Steps.step botjim.Sender.Steps.read_message
    botjim.Sender.Outcomes.file_result botjim.Sender.Outcomes.result_if has_id take_credit
    botjim.Sender.Handlers.take_parked botjim.Sender.Steps.walk_on botjim.Sender.new_sender
    botjim.Sender.Handlers.emit botjim.Sender.Handlers.emit_kind botjim.Sender.Handlers.take_if
    credit_limit botjim.Sender.with_id botjim.Sender.Outcomes.mark_resolved
    botjim.Sender.Outcomes.echo find botjim.Sender.store botjim.Sender.Outcomes.count_result
    botjim.Sender.Outcomes.is_error
all_resolved i h = h

resolved-done_example : is_done (run source wire whole start).sender ≡ true
resolved-done_example = resolved-done source wire whole refl whole-IsNewEach all_resolved

report-bounded_example :
    ((run source wire whole start).sender.files_done
        + length (run source wire whole start).sender.errors
      ≤ (run source wire whole start).sender.resolved)
    × ((run source wire whole start).sender.resolved ≤ (run source wire whole start).sender.emitted)
report-bounded_example = report-bounded source wire whole refl whole-IsNewEach

abbrev file_one : TxFile
file_one = new_file (entry_at 1 regular)

feed_file-exact_example :
    ((feed_file 1 file_one).tasks
      ≡ missing 1 (has_bit none) 0 ((feed_file 1 file_one).next_task - 0))
    × (0 ≤ (feed_file 1 file_one).next_task)
    × ((feed_file 1 file_one).next_task ≤ 2)
    × ((((feed_file 1 file_one).full ≡ false) × ((feed_file 1 file_one).next_task ≡ 2))
        ⊎ (((feed_file 1 file_one).full ≡ true) × (length (feed_file 1 file_one).tasks ≡ 1)))
unfolding botjim.Chunking.count botjim.Wire.Words.to_i64 botjim.Wire.Words.to_u64
feed_file-exact_example = feed_file-exact 1 file_one (omega arith)

abbrev file_behind : TxFile
file_behind = record file_one { have = some []; next_task = 1; inflight = 1 }

abbrev queueing : List Step
queueing = walk (entry_at 1 regular) ∷ credit ∷ message (have_bitmap no_bitmap) ∷ scheduled 1 ∷ []

queueing-AreNewFiles : AreNewFiles source wire queueing start
unfolding find botjim.Sender.new_sender
queueing-AreNewFiles = (refl, (tt, (tt, (tt, tt))))

behind_found : find 1 (run source wire queueing start).sender.files ≡ some file_behind
unfolding find run botjim.Sender.Steps.step botjim.Sender.Scheduler.schedule
    botjim.Sender.Scheduler.pass botjim.Sender.Scheduler.refill botjim.Sender.Steps.read_message
    botjim.Sender.Handlers.gate_open botjim.Sender.Handlers.gate_found take_credit
    botjim.Sender.Handlers.take_parked botjim.Sender.Steps.walk_on botjim.Sender.new_sender
    botjim.Sender.Handlers.emit botjim.Sender.Handlers.emit_kind botjim.Sender.Handlers.take_if
    credit_limit botjim.Sender.store botjim.Sender.Handlers.gate_if botjim.Sender.waits
    botjim.Sender.is_nil botjim.Sender.Handlers.gate_file botjim.Sender.Handlers.after_gate
    botjim.Sender.Handlers.queue_ready botjim.Sender.Handlers.opened
    botjim.Sender.Scheduler.feed_found botjim.Sender.Scheduler.is_over feed_file
    botjim.Sender.Scheduler.feed_loop botjim.Chunking.count botjim.Wire.Words.to_i64
    botjim.Wire.Words.to_u64 botjim.Sender.Scheduler.feed_one botjim.Sender.Scheduler.feed_if
    botjim.Sender.Scheduler.feed_send botjim.Sender.Scheduler.fed has_bit botjim.Sidecar.bit_at
    botjim.Wire.Bits.test_bit botjim.Prelude.Int.◌-ℤ◌
behind_found = refl

queued_exactly_example :
    (tasks_of 1 (run source wire queueing start).sender.task_q ≡ missing 1 (has_bit (some [])) 0 1)
    × (1 ≤ 2)
unfolding botjim.Chunking.count botjim.Wire.Words.to_i64 botjim.Wire.Words.to_u64
queued_exactly_example =
    queued_exactly source wire queueing 1 file_behind queueing-AreNewFiles behind_found

abbrev turns : List Turn
turns =
    record { entry = entry_at 1 regular; sends = true }
    ∷ record { entry = entry_at 2 dir; sends = true }
    ∷ []

batches_in_order_example :
    joined (append_all turns no_batches).sent ++ (append_all turns no_batches).batch
    ≡ entry_at 1 regular ∷ entry_at 2 dir ∷ []
unfolding entries_of
batches_in_order_example = batches_in_order turns

digest_covers_example :
    (append_all turns no_batches).digested
    ≡ joined (
        map encode_entry
          (joined (append_all turns no_batches).sent ++ (append_all turns no_batches).batch))
digest_covers_example = digest_covers turns

file_IsExtra : IsExtra (record {
  size = pos 3;
  dev = 0;
  ino = 0;
  chunk_size = pos 2;
  link_target = [];
  link_ref_id = 0;
  rdev = 0;
})
file_IsExtra = record {
  size = omega arith;
  dev = omega arith;
  ino = omega arith;
  chunk_size = (2, refl, omega arith);
  link_target = omega arith;
  link_ref_id = omega arith;
  rdev = omega arith;
}

file_fits : IsEntry (entry_at 1 regular)
file_fits = record {
  id = omega arith;
  rel_path = omega arith;
  mode = omega arith;
  uid = omega arith;
  gid = omega arith;
  uname = omega arith;
  gname = omega arith;
  mtime_sec = omega arith;
  mtime_nsec = omega arith;
  atime_sec = omega arith;
  atime_nsec = omega arith;
  extra = file_IsExtra;
  count = omega arith;
  xattrs = tt;
}

abbrev one_turn : List Turn
one_turn = record { entry = entry_at 1 regular; sends = true } ∷ []

one_fits : All IsEntry (entries_of one_turn)
unfolding entries_of
one_fits = (file_fits, tt)

manifest-Arrives_example :
    (joined (flush_batch true (append_all one_turn no_batches)).sent ≡ entries_of one_turn)
    × All Arrives (flush_batch true (append_all one_turn no_batches)).sent
manifest-Arrives_example = manifest-Arrives one_turn (refl, tt) one_fits
