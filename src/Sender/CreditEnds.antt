-- ===== src/Sender/CreditEnds.antt =====
-- The handlers that end a file or give it work again keep the credits in bounds.
use botjim.Prelude.{
  ℕ, ◌≡◌, ◌≢◌, arith, Bool, true, false, not, ◌&&◌, List, Bytes, ◌==◌, Bool-cases, inl, inr, Option,
  none, some, sym, ap, ◌∙◌, refl,
}
use botjim.Manifest.{Entry}
use botjim.Protocol.Messages.{FileResult}
use botjim.Sender.{TxFile, Sender, find, store, waits}
use botjim.Sender.Handlers.{release_if}
use botjim.Sender.Outcomes.{
  count_result, settled, echo, is_error, mark_resolved, result_if, file_result, fail_now, fail_open,
  fail_if, fail_file,
}
use botjim.Sender.Lookup.{find-id, find-store, pending}
use botjim.Sender.Credits.{IsCredited, IsCredited-store, IsCredited-settled}
use botjim.Sender.Files.{settled-entry, settled-resolved, resolved_over}
use botjim.Sender.CreditSteps.{Credited, not_parked}

abbrev entry_id : Entry → ℕ
entry_id e = e.id

-- Storing a file under its own id gives it back.
pub find-store_self :
    (f g : TxFile) (fs : List TxFile) → g.entry ≡ f.entry → find f.entry.id (store g fs) ≡ some g
find-store_self f g fs same =
    let n : f.entry.id ≡ g.entry.id = ap entry_id (sym same) in
    let here : (f.entry.id == g.entry.id) ≡ true = ground arith in rw find-store (rw here refl)

pub settled-Credited :
    (fresh : Bool) (f : TxFile) (s : Sender)
    → find f.entry.id s.files ≡ some f
    → (s.parked ≢ some f.entry.id)
    → Credited s
    → IsCredited s.parked (store (settled fresh f) s.files) (release_if (waits f) s.gates_open)
settled-Credited fresh f s there other c =
    let same = ap entry_id (settled-entry fresh f) in
    IsCredited-settled s.parked s.files s.gates_open f (settled fresh f)
      (λ p. other (p ∙ ap some same)) (ap (λ i. find i s.files) same ∙ there)
      (resolved_over (settled fresh f) (settled-resolved fresh f)) c

count_result-Credited :
    (fresh over : Bool) (m : FileResult) (f : TxFile) (s : Sender)
    → Credited s
    → Credited (count_result fresh over m f s)
unfolding count_result
count_result-Credited true over m f s c = c
count_result-Credited false true m f s c = c
count_result-Credited false false m f s c = c

echo-Credited :
    (m : FileResult) (found : Option TxFile) (s : Sender)
    → ((f : TxFile) → found ≡ some f → find f.entry.id s.files ≡ some f)
    → ((f : TxFile) → found ≡ some f → s.parked ≢ some f.entry.id)
    → Credited s
    → Credited (echo m found s)
unfolding echo
echo-Credited m none s there other c = elim (Bool-cases (is_error m)) [
  | inl e ↦ rw e c
  | inr n ↦ rw n c
]
echo-Credited m (some f) s there other c =
    count_result-Credited (is_error m && not f.errored) f.resolved m f _
      (settled-Credited (is_error m && not f.errored) f s (there f refl) (other f refl) c)

pub found_self :
    (i : ℕ) (fs : List TxFile) (f : TxFile) → find i fs ≡ some f → find f.entry.id fs ≡ some f
found_self i fs f there = ap (λ j. find j fs) (find-id i fs f there) ∙ there

result_if-Credited :
    (dropped : Bool) (m : FileResult) (s : Sender)
    → (s.parked ≢ some m.file_id)
    → Credited s
    → Credited (result_if dropped m s)
unfolding result_if mark_resolved
result_if-Credited true m s other c = c
result_if-Credited false m s other c =
    echo-Credited m (find m.file_id s.files) s (found_self m.file_id s.files)
      (not_parked m.file_id s other) c

pub file_result-Credited :
    (m : FileResult) (s : Sender)
    → (s.parked ≢ some m.file_id)
    → Credited s
    → Credited (file_result m s)
unfolding file_result
file_result-Credited m s other c = result_if-Credited _ m s other c

-- A change that leaves the file as awaited as it was.
pub same-Credited :
    (f g : TxFile) (s : Sender)
    → find f.entry.id s.files ≡ some f
    → g.entry ≡ f.entry
    → pending g ≡ pending f
    → Credited s
    → IsCredited s.parked (store g s.files) s.gates_open
same-Credited f g s there entry same c =
    IsCredited-store s.parked s.files s.gates_open f g
      (ap (λ i. find i s.files) (ap entry_id entry) ∙ there) same c

mark_errored : (f : TxFile) → pending (record f { errored = true }) ≡ pending f
unfolding pending waits
mark_errored f = refl

fail_open-Credited :
    (known : Bool) (f : TxFile) (code : ℕ) (msg : Bytes) (s : Sender)
    → find f.entry.id s.files ≡ some f
    → (s.parked ≢ some f.entry.id)
    → Credited s
    → Credited (fail_open known f code msg s)
unfolding fail_open fail_now mark_resolved
fail_open-Credited true f code msg s there other c =
    same-Credited f (record f { errored = true }) s there refl (mark_errored f) c
fail_open-Credited false f code msg s there other c = settled-Credited true f s there other c

fail_if-Credited :
    (over : Bool) (f : TxFile) (code : ℕ) (msg : Bytes) (s : Sender)
    → find f.entry.id s.files ≡ some f
    → (s.parked ≢ some f.entry.id)
    → Credited s
    → Credited (fail_if over f code msg s)
unfolding fail_if
fail_if-Credited true f code msg s there other c = c
fail_if-Credited false f code msg s there other c = fail_open-Credited _ f code msg s there other c

pub fail_file-Credited :
    (f : TxFile) (code : ℕ) (msg : Bytes) (s : Sender)
    → find f.entry.id s.files ≡ some f
    → (s.parked ≢ some f.entry.id)
    → Credited s
    → Credited (fail_file f code msg s)
unfolding fail_file
fail_file-Credited f code msg s there other c = fail_if-Credited _ f code msg s there other c
