-- ===== src/Sender/Bitmaps.antt =====
-- A bitmap for a file that the scheduler has not begun leaves the queue right.
use botjim.Prelude.{
  ℕ, ◌≡◌, arith, Bool, true, false, ◌||◌, List, [], ◌∷◌, Bytes, ◌==◌, Bool-cases, inl, inr, Option,
  none, some, sym, ap, ◌∙◌, refl,
}
use botjim.Manifest.{Entry}
use botjim.Protocol.Init.{HaveBitmap}
use botjim.Sender.{TxFile, Sender, store, waits, is_nil}
use botjim.Sender.Handlers.{
  Source, Opened, opened, partial_have, judged, resolve_planned, queue_ready, after_gate, gate_file,
  gate_if, gate_found,
}
use botjim.Sender.Scheduler.{has_bit}
use botjim.Sender.CreditRetries.{Stored}
use botjim.Sender.Files.{opened-entry}
use botjim.Sender.Feeding.{missing}
use botjim.Sender.Queue.{tasks_of, IsQueuedIn, IsQueued, store-IsQueued, IsPlanned-of}

pub partial_have-mark :
    (src : Source) (f : TxFile) (bitmap : Bytes) (hashes : List Bytes)
    → ((partial_have src f bitmap hashes).file.next_task ≡ f.next_task)
      × ((partial_have src f bitmap hashes).file.count ≡ f.count)
unfolding partial_have judged
partial_have-mark src f bitmap [] = (refl, refl)
partial_have-mark src f bitmap (h ∷ hs) = (refl, refl)

pub opened-mark :
    (src : Source) (m : HaveBitmap) (f : TxFile)
    → ((opened src m f).file.next_task ≡ f.next_task) × ((opened src m f).file.count ≡ f.count)
unfolding opened
opened-mark src m f = elim (Bool-cases (m.status == 2)) [
  | inl e ↦ rw e (refl, refl)
  | inr d ↦ elim (Bool-cases (m.status == 1)) [
    | inl e ↦ rw d (rw e (partial_have-mark src f m.bitmap m.hashes))
    | inr n ↦ elim (Bool-cases (m.status == 0)) [
      | inl z ↦ rw d (rw n (rw z (refl, refl)))
      | inr o ↦ rw d (rw n (rw o (refl, refl)))
    ]
  ]
]

-- A file that has not been begun may get any bitmap.
pub begun_not :
    (f : TxFile) (s : Sender)
    → waits f ≡ true
    → Stored s f
    → IsQueued s
    → (f.next_task ≡ 0) × (tasks_of f.entry.id s.task_q ≡ [])
unfolding waits missing
begun_not f s w there k =
    let p = IsPlanned-of f s there k in
    let mark : f.next_task ≡ 0 = elim (p.1) [ inl e ↦ absurd (clash e) | inr z ↦ z ] in
    (mark, p.0 ∙ ap (λ n. missing f.entry.id (has_bit f.have) 0 n) mark)
  where
    clash : is_nil f.have ≡ false → ⊥
    clash e = ground arith

pub opened-IsQueued :
    (f g : TxFile) (s : Sender)
    → waits f ≡ true
    → Stored s f
    → g.entry ≡ f.entry
    → g.next_task ≡ f.next_task
    → IsQueued s
    → IsQueuedIn (store g s.files) s.task_q
unfolding missing
opened-IsQueued f g s w there entry mark k =
    let fresh = begun_not f s w there k in
    let zero_mark : g.next_task ≡ 0 = mark ∙ fresh.0 in
    let id : g.entry.id ≡ f.entry.id = ap (λ e. Entry.id e) entry in
    store-IsQueued g s.files s.task_q s.task_q (λ i ne. refl)
      (
        ap (λ i. tasks_of i s.task_q) id
            ∙ fresh.1
            ∙ ap (λ n. missing g.entry.id (has_bit g.have) 0 n) (sym zero_mark),
        inr zero_mark,
        omega (arith, zero_mark),
      )
      k

pub after_gate-IsQueued :
    (dry : Bool) (o : Opened) (i : ℕ) (f : TxFile) (s : Sender)
    → waits f ≡ true
    → Stored s f
    → o.file.entry ≡ f.entry
    → o.file.next_task ≡ f.next_task
    → IsQueued s
    → IsQueued (after_gate dry o i s)
unfolding after_gate resolve_planned queue_ready
after_gate-IsQueued true o i f s w there entry mark k =
    elim (Bool-cases (o.file.errored || o.file.resolved)) [
      | inl e ↦ rw e (opened-IsQueued f o.file s w there entry mark k)
      | inr n ↦ rw n (opened-IsQueued f (record o.file { resolved = true }) s w there entry mark k)
    ]
after_gate-IsQueued false o i f s w there entry mark k =
    elim (Bool-cases (o.file.errored || o.file.resolved || o.file.all_skip)) [
      | inl e ↦ rw e (opened-IsQueued f o.file s w there entry mark k)
      | inr n ↦ rw n (opened-IsQueued f o.file s w there entry mark k)
    ]

pub gate_if-IsQueued :
    (waiting : Bool) (src : Source) (m : HaveBitmap) (f : TxFile) (s : Sender)
    → waits f ≡ waiting
    → Stored s f
    → IsQueued s
    → IsQueued (gate_if waiting src m f s)
unfolding gate_if gate_file
gate_if-IsQueued true src m f s w there k =
    after_gate-IsQueued src.dry_run (opened src m f) m.file_id f _ w there (opened-entry src m f)
      (opened-mark src m f).0 k
gate_if-IsQueued false src m f s w there k = k

pub gate_found-IsQueued :
    (src : Source) (m : HaveBitmap) (found : Option TxFile) (s : Sender)
    → ((f : TxFile) → found ≡ some f → Stored s f)
    → IsQueued s
    → IsQueued (gate_found src m found s)
unfolding gate_found
gate_found-IsQueued src m none s there k = k
gate_found-IsQueued src m (some f) s there k =
    gate_if-IsQueued (waits f) src m f s refl (there f refl) k
