-- ===== src/Sender/CreditSteps.antt =====
-- Each handler keeps the credits no more than the files whose bitmap is awaited.
use mathlib.Core.Path.{subst}
use botjim.Prelude.{
  ℕ, ◌+◌, ◌-◌, ◌≤◌, ◌≡◌, ◌≢◌, arith, Bool, true, false, ◌||◌, List, ◌==◌, Bool-cases, inl, inr,
  Option, none, some, ap, ◌∙◌, refl,
}
use botjim.Prelude.Int.{ℤ, pos, negsuc, ◌-ℤ◌, pos_part}
use botjim.Manifest.{Entry, Kind, regular, dir, hardlink}
use botjim.Protocol.Init.{HaveBitmap}
use botjim.Sender.{TxFile, Sender, find, store, waits, is_nil}
use botjim.Sender.Handlers.{
  Source, Opened, new_file, emit_kind, emit, take_if, take_parked, take_credit, opened,
  resolve_planned, queue_ready, after_gate, gate_file, gate_if, gate_found, gate_open,
}
use botjim.Sender.Lookup.{find-id, find-store, tick, pending, pending_in, count_pending-store}
use botjim.Sender.Credits.{IsCredited, parked_tick, IsCredited-spend, pred-lt}
use botjim.Sender.Files.{opened-entry}

abbrev pub Credited : Sender → Type 0
Credited s = IsCredited s.parked s.files s.gates_open

new_pending : (e : Entry) → pending (new_file e) ≡ true
unfolding pending waits is_nil
new_pending e = refl

none_idle : pending_in none ≡ false
unfolding pending_in
none_idle = refl

some_pending : (f : TxFile) → pending_in (some f) ≡ pending f
unfolding pending_in
some_pending f = refl

-- The walker's new file, whose id is new to the table.
parked_new :
    (e : Entry) (fs : List TxFile) (gates : ℤ)
    → find e.id fs ≡ none
    → IsCredited none fs gates
    → IsCredited (some e.id) (store (new_file e) fs) gates
parked_new e fs gates new c = record {
  room =
      let moved = count_pending-store (new_file e) fs in
      let old : tick (pending_in (find e.id fs)) ≡ 0 = ap tick (ap pending_in new ∙ none_idle) in
      let this : tick (pending (new_file e)) ≡ 1 = ap tick (new_pending e) in omega (arith, c.room);
  kept = λ i p.
      let here : (i == e.id) ≡ true = ground arith in
      rw find-store (rw here (some_pending (new_file e) ∙ new_pending e));
}

emit_kind-Credited :
    (k : Kind) (e : Entry) (s : Sender)
    → s.parked ≡ none
    → find e.id s.files ≡ none
    → Credited s
    → Credited (emit_kind k e s)
unfolding emit_kind
emit_kind-Credited regular e s free new c =
    parked_new e s.files s.gates_open new (subst (λ p. IsCredited p s.files s.gates_open) free c)
emit_kind-Credited dir e s free new c = c
emit_kind-Credited hardlink e s free new c = c
emit_kind-Credited _ e s free new c = c

pub emit-Credited :
    (e : Entry) (s : Sender)
    → s.parked ≡ none
    → find e.id s.files ≡ none
    → Credited s
    → Credited (emit e s)
unfolding emit
emit-Credited e s free new c = emit_kind-Credited e.kind e _ free new c

inc_lt : (g : ℤ) → pos_part (g -ℤ negsuc 0) ≤ pos_part g + 1
unfolding ◌-ℤ◌
inc_lt g = ground arith

take_if-Credited :
    (free : Bool) (i : ℕ) (s : Sender) → s.parked ≡ some i → Credited s → Credited (take_if free s)
unfolding take_if
take_if-Credited true i s p c = record {
  room =
      let before : parked_tick s.parked ≡ 1 = ap parked_tick p in
      omega (arith, c.room, inc_lt s.gates_open);
  kept = λ j q. absurd cc;
}
take_if-Credited false i s p c = c

take_parked-Credited :
    (parked : Option ℕ) (s : Sender)
    → s.parked ≡ parked
    → Credited s
    → Credited (take_parked parked s)
unfolding take_parked
take_parked-Credited none s p c = c
take_parked-Credited (some i) s p c = take_if-Credited _ i s p c

pub take_credit-Credited : (s : Sender) → Credited s → Credited (take_credit s)
unfolding take_credit
take_credit-Credited s c = take_parked-Credited s.parked s refl c

spent_lt :
    (s : Sender) (gates : ℤ)
    → s.gates_open ≡ gates -ℤ pos 1
    → pos_part s.gates_open ≤ pos_part gates - 1
spent_lt s gates e = rw e (pred-lt gates)

-- A bitmap about a file that is not the parked one.
after_gate-Credited :
    (dry : Bool) (o : Opened) (i : ℕ) (s : Sender) (gates : ℤ)
    → (s.parked ≢ some o.file.entry.id)
    → s.gates_open ≡ gates -ℤ pos 1
    → IsCredited s.parked s.files gates
    → Credited (after_gate dry o i s)
unfolding after_gate resolve_planned queue_ready
after_gate-Credited true o i s gates other spent c =
    elim (Bool-cases (o.file.errored || o.file.resolved)) [
      | inl e ↦ rw e (
          IsCredited-spend s.parked s.files gates s.gates_open o.file other (spent_lt s gates spent)
            c)
      | inr n ↦ rw n (
          IsCredited-spend s.parked s.files gates s.gates_open (record o.file { resolved = true })
            other (spent_lt s gates spent) c)
    ]
after_gate-Credited false o i s gates other spent c =
    elim (Bool-cases (o.file.errored || o.file.resolved || o.file.all_skip)) [
      | inl e ↦ rw e (
          IsCredited-spend s.parked s.files gates s.gates_open o.file other (spent_lt s gates spent)
            c)
      | inr n ↦ rw n (
          IsCredited-spend s.parked s.files gates s.gates_open o.file other (spent_lt s gates spent)
            c)
    ]

gate_file-Credited :
    (src : Source) (m : HaveBitmap) (f : TxFile) (s : Sender)
    → (s.parked ≢ some f.entry.id)
    → Credited s
    → Credited (gate_file src m f s)
unfolding gate_file
gate_file-Credited src m f s other c =
    after_gate-Credited src.dry_run (opened src m f) m.file_id _ s.gates_open
      (λ p. other (p ∙ ap (λ e. some (id e)) (opened-entry src m f))) refl c
  where
    id : Entry → ℕ
    id e = e.id

gate_if-Credited :
    (waiting : Bool) (src : Source) (m : HaveBitmap) (f : TxFile) (s : Sender)
    → (s.parked ≢ some f.entry.id)
    → Credited s
    → Credited (gate_if waiting src m f s)
unfolding gate_if
gate_if-Credited true src m f s other c = gate_file-Credited src m f s other c
gate_if-Credited false src m f s other c = c

gate_found-Credited :
    (src : Source) (m : HaveBitmap) (found : Option TxFile) (s : Sender)
    → ((f : TxFile) → found ≡ some f → s.parked ≢ some f.entry.id)
    → Credited s
    → Credited (gate_found src m found s)
unfolding gate_found
gate_found-Credited src m none s other c = c
gate_found-Credited src m (some f) s other c = gate_if-Credited (waits f) src m f s (other f refl) c

-- The file that a lookup finds is not the parked one, if the id is not.
pub not_parked :
    (i : ℕ) (s : Sender)
    → (s.parked ≢ some i)
    → (f : TxFile) → find i s.files ≡ some f
    → (s.parked ≢ some f.entry.id)
not_parked i s other f there p = other (p ∙ ap some (find-id i s.files f there))

pub gate_open-Credited :
    (src : Source) (m : HaveBitmap) (s : Sender)
    → (s.parked ≢ some m.file_id)
    → Credited s
    → Credited (gate_open src m s)
unfolding gate_open
gate_open-Credited src m s other c =
    gate_found-Credited src m (find m.file_id s.files) s (not_parked m.file_id s other) c
