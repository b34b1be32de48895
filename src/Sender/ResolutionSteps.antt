-- ===== src/Sender/ResolutionSteps.antt =====
-- Each handler keeps the books on outcomes.
use botjim.Prelude.{
  ℕ, ◌+◌, ◌≡◌, arith, Bool, true, false, not, ◌&&◌, Bool-cases, inl, inr, Option, none, some, ◌∙◌,
  refl,
}
use botjim.Manifest.{Entry, Kind, regular, dir, hardlink}
use botjim.Protocol.Messages.{FileResult}
use botjim.Protocol.Init.{HaveBitmap}
use botjim.Sender.{TxFile, Sender, has_id, with_id, find, store, waits}
use botjim.Sender.Handlers.{
  Source, Opened, new_file, emit_kind, emit, opened, queue_ready, after_gate, gate_file, gate_if,
  gate_found, gate_open,
}
use botjim.Sender.Outcomes.{echo, is_error}
use botjim.Sender.Ids.{has_id-with_id, length-with_id, distinct-with_id}
use botjim.Sender.Files.{opened-entry}
use botjim.Sender.CreditEnds.{found_self}
use botjim.Sender.CreditRetries.{Stored}
use botjim.Sender.Resolution.{
  Booked, IsKeyed, IsKeyed-store, Kept, store-IsKeyed, OneCounted, count_result-OneCounted,
}

-- An entry with a new id, which the walker has just noted.
noted-Kept :
    (i : ℕ) (s : Sender)
    → has_id i s.emitted_ids ≡ false
    → Kept s
    → Kept (record s { emitted = s.emitted + 1; emitted_ids = with_id i s.emitted_ids })
noted-Kept i s new (b, k) = (
  record {
    emits = omega (arith, b.emits, length-with_id i s.emitted_ids new);
    once = distinct-with_id i s.emitted_ids b.once;
    resolves = b.resolves;
    each = b.each;
    within = λ j h. has_id-with_id j i s.emitted_ids ∙ ground (arith, b.within j h);
    reported = b.reported;
  },
  λ j f h. has_id-with_id j i s.emitted_ids ∙ ground (arith, k j f h),
)

emit_kind-Kept :
    (k : Kind) (e : Entry) (s : Sender)
    → has_id e.id s.emitted_ids ≡ true
    → Kept s
    → Kept (emit_kind k e s)
unfolding emit_kind
emit_kind-Kept regular e s there (b, k) =
    (b, IsKeyed-store s.emitted_ids (new_file e) s.files there k)
emit_kind-Kept dir e s there k = k
emit_kind-Kept hardlink e s there k = k
emit_kind-Kept _ e s there k = k

pub emit-Kept :
    (e : Entry) (s : Sender) → has_id e.id s.emitted_ids ≡ false → Kept s → Kept (emit e s)
unfolding emit
emit-Kept e s new k =
    emit_kind-Kept e.kind e _ (has_id-with_id e.id e.id s.emitted_ids ∙ ground arith)
      (noted-Kept e.id s new k)

-- A file changed, its entry kept.
pub store-Kept :
    (f g : TxFile) (s : Sender)
    → Stored s f
    → g.entry ≡ f.entry
    → Kept s
    → Booked s × IsKeyed s.emitted_ids (store g s.files)
store-Kept f g s there same k = (k.0, store-IsKeyed f g s there same k)

queue_ready-Kept :
    (idle : Bool) (i : ℕ) (f g : TxFile) (s : Sender)
    → Stored s f
    → g.entry ≡ f.entry
    → Kept s
    → Kept (queue_ready idle i g s)
unfolding queue_ready
queue_ready-Kept true i f g s there same k = store-Kept f g s there same k
queue_ready-Kept false i f g s there same k = store-Kept f g s there same k

after_gate-Kept :
    (dry : Bool) (o : Opened) (i : ℕ) (f : TxFile) (s : Sender)
    → dry ≡ false
    → Stored s f
    → o.file.entry ≡ f.entry
    → Kept s
    → Kept (after_gate dry o i s)
unfolding after_gate
after_gate-Kept true o i f s real there same k = absurd cc
after_gate-Kept false o i f s real there same k = queue_ready-Kept _ i f o.file s there same k

gate_file-Kept :
    (src : Source) (m : HaveBitmap) (f : TxFile) (s : Sender)
    → src.dry_run ≡ false
    → Stored s f
    → Kept s
    → Kept (gate_file src m f s)
unfolding gate_file
gate_file-Kept src m f s real there k =
    after_gate-Kept src.dry_run (opened src m f) m.file_id f _ real there (opened-entry src m f) k

gate_if-Kept :
    (waiting : Bool) (src : Source) (m : HaveBitmap) (f : TxFile) (s : Sender)
    → src.dry_run ≡ false
    → Stored s f
    → Kept s
    → Kept (gate_if waiting src m f s)
unfolding gate_if
gate_if-Kept true src m f s real there k = gate_file-Kept src m f s real there k
gate_if-Kept false src m f s real there k = k

gate_found-Kept :
    (src : Source) (m : HaveBitmap) (found : Option TxFile) (s : Sender)
    → src.dry_run ≡ false
    → ((f : TxFile) → found ≡ some f → Stored s f)
    → Kept s
    → Kept (gate_found src m found s)
unfolding gate_found
gate_found-Kept src m none s real there k = k
gate_found-Kept src m (some f) s real there k =
    gate_if-Kept (waits f) src m f s real (there f refl) k

pub gate_open-Kept :
    (src : Source) (m : HaveBitmap) (s : Sender)
    → src.dry_run ≡ false
    → Kept s
    → Kept (gate_open src m s)
unfolding gate_open
gate_open-Kept src m s real k =
    gate_found-Kept src m (find m.file_id s.files) s real (found_self m.file_id s.files) k

same_counted : (s : Sender) → OneCounted s s
same_counted s = record {
  emitted = refl;
  emitted_ids = refl;
  resolved = refl;
  resolved_ids = refl;
  one = omega arith;
}

-- The echo of a result counts one outcome at most.
pub echo-OneCounted :
    (m : FileResult) (found : Option TxFile) (s : Sender) → OneCounted s (echo m found s)
unfolding echo
echo-OneCounted m none s = elim (Bool-cases (is_error m)) [
  | inl e ↦ rw e (same_counted s)
  | inr n ↦ rw n (record {
    emitted = refl;
    emitted_ids = refl;
    resolved = refl;
    resolved_ids = refl;
    one = omega arith;
  })
]
echo-OneCounted m (some f) s =
    let c = count_result-OneCounted (is_error m && not f.errored) f.resolved m f _ in
    record {
      emitted = c.emitted;
      emitted_ids = c.emitted_ids;
      resolved = c.resolved;
      resolved_ids = c.resolved_ids;
      one = c.one;
    }
