-- ===== src/Sender/Handlers.antt =====
-- internal/engine/sender.go: the walk's callback, the handlers of the receiver's messages and of the workers.
-- A handler is one step: the mutex is not modelled (gateOpen gives it up while it verifies claims), nor are the
-- progress registry and the condition variable.
use Prim.Native.Nat.{bit_and}
use botjim.Prelude.{
  ℕ, zero, suc, ◌+◌, ◌-◌, ◌%◌, ◌^◌, Bool, true, false, ◌||◌, List, [], ◌∷◌, ◌++◌, Bytes, ◌==◌,
  if◌then◌else◌, Option, none, some,
}
use botjim.Prelude.Int.{ℤ, pos, negsuc, ◌-ℤ◌, ltb_ℤ}
use botjim.Manifest.{Entry, Kind, regular, dir, hardlink}
use botjim.Protocol.Init.{HaveBitmap}
use botjim.Sidecar.{entry_chunks}
use botjim.Engine.Disk.{Disk}
use botjim.Engine.TxFile.{Judged, verify_claims, answer_of}
use botjim.Sender.{
  TxFile, send_it, skip_it, PlanRow, Outgoing, answered, Sender, with_id, find, store, uint64,
  credit_limit, waits,
}

-- The options, SHA-256, the sources as the operating system shows them, and fmt.Sprintf of a retry that is refused.
pub record Source : Type 0 where
  pub dry_run : Bool
  pub sha256 : Bytes → Bytes
  pub opens : Entry → Bool
  pub readable : Entry → ℕ → Bool
  pub content : Entry → Disk
  pub exhausted : ℕ → Bytes

abbrev pub new_file : Entry → TxFile
new_file e = record {
  entry = e;
  have = none;
  all_skip = false;
  fd_tried = false;
  fd_err = false;
  fd_open = false;
  next_task = 0;
  count = entry_chunks e;
  inflight = 0;
  retries = λ i. 0;
  errored = false;
  resolved = false;
}

-- The callback of the walk up to the wait for a credit.
unfoldable pub emit_kind : Kind → Entry → Sender → Sender
emit_kind regular e s = record s {
  manifest_bytes = (s.manifest_bytes + uint64 e.size) % 2 ^ 64;
  files = store (new_file e) s.files;
  parked = some e.id;
}
emit_kind dir e s = record s { dirs = s.dirs + 1 }
emit_kind hardlink e s = record s { has_hardlinks = true }
emit_kind _ e s = s

unfoldable pub emit : Entry → Sender → Sender
emit e s =
    emit_kind e.kind e
      (record s { emitted = s.emitted + 1; emitted_ids = with_id e.id s.emitted_ids })

-- The loop on the condition variable lets the walker go on below the limit.
unfoldable pub take_if : Bool → Sender → Sender
take_if free s =
    if free then record s { gates_open = s.gates_open -ℤ negsuc 0; parked = none } else s

unfoldable pub take_parked : Option ℕ → Sender → Sender
take_parked none s = s
take_parked (some i) s = take_if (ltb_ℤ s.gates_open (pos credit_limit)) s

unfoldable pub take_credit : Sender → Sender
take_credit s = take_parked s.parked s

-- The goroutine that waits for the end of the context; the walker then leaves the wait.
unfoldable pub drop_credits : Sender → Sender
drop_credits s = record s { gates_open = pos 0; parked = none }

-- `s.gatesOpen--`, kept from going below 0, for a file whose bitmap is still awaited.
unfoldable pub clamped : ℤ → ℤ
clamped g = if ltb_ℤ g (pos 0) then pos 0 else g

unfoldable pub release_if : Bool → ℤ → ℤ
release_if waiting g = if waiting then clamped (g -ℤ pos 1) else g

-- The loop `for b != 0 { b &= b - 1; n++ }`; a byte has at most eight bits to clear.
unfoldable pub popcount_loop : ℕ → ℕ → ℕ
popcount_loop zero b = 0
popcount_loop (suc fuel) b =
    let rest = popcount_loop fuel (bit_and b (b - 1)) in if b == 0 then 0 else rest + 1

unfoldable pub popcount8 : ℕ → ℕ
popcount8 b = popcount_loop 8 b

unfoldable pub popcount_all : Bytes → ℕ
popcount_all [] = 0
popcount_all (b ∷ bs) = popcount8 b + popcount_all bs

-- `append([]byte(nil), b...)`, which is nil for no bytes.
unfoldable pub copied : Bytes → Option Bytes
copied [] = none
copied (b ∷ bs) = some (b ∷ bs)

-- A file behind a bitmap, the chunks it counts as there, what the sender answers and the bytes it need not send.
pub record Opened : Type 0 where
  pub file : TxFile
  pub have_count : ℤ
  pub reply : List Outgoing
  pub skipped : ℕ

unfoldable pub judged : TxFile → Bytes → Judged → Opened
judged f bitmap v = record {
  file = record f { have = copied v.have };
  have_count = pos (popcount_all bitmap) -ℤ pos v.cleared;
  reply = answered f.entry.id (answer_of v) ∷ [];
  skipped = 0;
}

unfoldable pub partial_have : Source → TxFile → Bytes → List Bytes → Opened
partial_have src f bitmap [] = record {
  file = record f { have = copied bitmap };
  have_count = pos (popcount_all bitmap);
  reply = [];
  skipped = 0;
}
partial_have src f bitmap (h ∷ hs) = judged f bitmap (
    verify_claims src.sha256 (src.opens f.entry) (src.readable f.entry) (src.content f.entry)
      f.entry bitmap (h ∷ hs))

-- The switch of gateOpen: HaveNone, HavePartial and HaveAllSkip are 0, 1 and 2.
unfoldable pub opened : Source → HaveBitmap → TxFile → Opened
opened src m f =
    if m.status == 2
    then record {
      file = record f { all_skip = true };
      have_count = pos 0;
      reply = [];
      skipped = uint64 f.entry.size;
    }
    else if m.status == 1
    then partial_have src f m.bitmap m.hashes
    else record {
      file = if m.status == 0 then record f { have = some [] } else f;
      have_count = pos 0;
      reply = [];
      skipped = 0;
    }

unfoldable pub plan_row : Opened → PlanRow
plan_row o = record {
  path = o.file.entry.rel_path;
  size = o.file.entry.size;
  chunks = o.file.count;
  have = if o.file.all_skip then pos o.file.count else o.have_count;
  status = if o.file.all_skip then skip_it else send_it;
}

-- In a dry run the file is resolved at once, unless it was.
unfoldable pub resolve_planned : Bool → TxFile → Sender → Sender
resolve_planned over f s = if over then record s { files = store f s.files } else record s {
  files = store (record f { resolved = true }) s.files;
  resolved = s.resolved + 1;
  files_done = s.files_done + 1;
}

unfoldable pub queue_ready : Bool → ℕ → TxFile → Sender → Sender
queue_ready idle i f s =
    if idle
    then record s { files = store f s.files }
    else record s { files = store f s.files; ready_q = s.ready_q ++ i ∷ [] }

unfoldable pub after_gate : Bool → Opened → ℕ → Sender → Sender
after_gate true o i s =
    resolve_planned (o.file.errored || o.file.resolved) o.file
      (record s { plan = s.plan ++ plan_row o ∷ [] })
after_gate false o i s =
    queue_ready (o.file.errored || o.file.resolved || o.file.all_skip) i o.file s

unfoldable pub gate_file : Source → HaveBitmap → TxFile → Sender → Sender
gate_file src m f s =
    let o = opened src m f in
    after_gate src.dry_run o m.file_id (record s {
      gates_open = s.gates_open -ℤ pos 1;
      said = s.said ++ o.reply;
      skipped_bytes = (s.skipped_bytes + o.skipped) % 2 ^ 64;
    })

-- A second bitmap is dropped.
unfoldable pub gate_if : Bool → Source → HaveBitmap → TxFile → Sender → Sender
gate_if true src m f s = gate_file src m f s
gate_if false src m f s = s

unfoldable pub gate_found : Source → HaveBitmap → Option TxFile → Sender → Sender
gate_found src m none s = s
gate_found src m (some f) s = gate_if (waits f) src m f s

unfoldable pub gate_open : Source → HaveBitmap → Sender → Sender
gate_open src m s = gate_found src m (find m.file_id s.files) s
