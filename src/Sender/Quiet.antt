-- ===== src/Sender/Quiet.antt =====
-- The handlers that leave the scheduler's view of the files and its queue as they are.
use botjim.Prelude.{
  ℕ, ◌≡◌, arith, Bool, true, false, not, ◌&&◌, ◌||◌, List, Bytes, ◌==◌, if◌then◌else◌, Bool-cases,
  inl, inr, Option, none, some, sym, ap, ◌∙◌, refl,
}
use botjim.Manifest.{Entry}
use botjim.Protocol.Messages.{FileResult}
use botjim.Sender.{TxFile, Sender, find, store, waits}
use botjim.Sender.Handlers.{release_if}
use botjim.Sender.Outcomes.{
  settled, echo, is_error, mark_resolved, result_if, file_result, fail_now, fail_open, fail_if,
  fail_file, count_result, close_fd,
}
use botjim.Sender.Lookup.{find-store}
use botjim.Sender.Files.{SameBooks, close_fd-SameBooks}
use botjim.Sender.CreditEnds.{found_self}
use botjim.Sender.CreditRetries.{Stored}

-- What the scheduler reads of a file: its entry, its bitmap, its mark and its number of chunks.
pub record Plan : Type 0 where
  pub entry : Entry
  pub have : Option Bytes
  pub next_task : ℕ
  pub count : ℕ

abbrev pub plan : TxFile → Plan
plan f = record { entry = f.entry; have = f.have; next_task = f.next_task; count = f.count }

unfoldable pub plan_of : Option TxFile → Option Plan
plan_of none = none
plan_of (some f) = some (plan f)

pub record Quiet (s t : Sender) : Type 0 where
  pub queue : t.task_q ≡ s.task_q
  pub plans : (i : ℕ) → plan_of (find i t.files) ≡ plan_of (find i s.files)

pub quiet : (s : Sender) → Quiet s s
quiet s = record { queue = refl; plans = λ i. refl }

pub Quiet-trans : (s t u : Sender) → Quiet s t → Quiet t u → Quiet s u
Quiet-trans s t u a b = record { queue = b.queue ∙ a.queue; plans = λ i. b.plans i ∙ a.plans i }

pub plans-store :
    (f g : TxFile) (fs : List TxFile)
    → find f.entry.id fs ≡ some f
    → plan g ≡ plan f
    → (i : ℕ) → plan_of (find i (store g fs)) ≡ plan_of (find i fs)
unfolding plan_of
plans-store f g fs there same i =
    ap plan_of (find-store i g fs) ∙ elim (Bool-cases (i == g.entry.id)) [
      | inl e ↦
          let n : i ≡ g.entry.id = ground arith in
          let m : i ≡ f.entry.id = n ∙ ap (λ p. Entry.id (Plan.entry p)) same in
          let here : find i fs ≡ some f = ap (λ j. find j fs) m ∙ there in
          ap (λ b. plan_of (if b then some g else find i fs)) e
          ∙ ap some same
          ∙ sym (ap plan_of here)
      | inr d ↦ ap (λ b. plan_of (if b then some g else find i fs)) d
    ]

pub books-plan : (f g : TxFile) → SameBooks g f → plan g ≡ plan f
books-plan f g b =
    let e = b.entry in
    let h = b.have in let n = b.next_task in let c = b.count in rw e (rw h (rw n (rw c refl)))

-- A file changed, and fields that the scheduler does not read.
pub Quiet-store :
    (f g : TxFile) (s t : Sender)
    → Stored s f
    → plan g ≡ plan f
    → t.files ≡ store g s.files
    → t.task_q ≡ s.task_q
    → Quiet s t
Quiet-store f g s t there same files queue = record {
  queue = queue;
  plans = λ i. ap (λ fs. plan_of (find i fs)) files ∙ plans-store f g s.files there same i;
}

settled-plan : (fresh : Bool) (f : TxFile) → plan (settled fresh f) ≡ plan f
unfolding settled
settled-plan fresh f =
    let g : TxFile = record f { errored = f.errored || fresh; resolved = true } in
    books-plan g (close_fd g) (close_fd-SameBooks g)

count_result-Quiet :
    (fresh over : Bool) (m : FileResult) (f : TxFile) (s : Sender)
    → Quiet s (count_result fresh over m f s)
unfolding count_result
count_result-Quiet true over m f s = record { queue = refl; plans = λ i. refl }
count_result-Quiet false true m f s = quiet s
count_result-Quiet false false m f s = record { queue = refl; plans = λ i. refl }

echo-Quiet :
    (m : FileResult) (found : Option TxFile) (s : Sender)
    → ((f : TxFile) → found ≡ some f → Stored s f)
    → Quiet s (echo m found s)
unfolding echo
echo-Quiet m none s there = elim (Bool-cases (is_error m)) [
  | inl e ↦ rw e (quiet s)
  | inr n ↦ rw n (record { queue = refl; plans = λ i. refl })
]
echo-Quiet m (some f) s there =
    let fresh = is_error m && not f.errored in
    let first : Sender = record s {
      gates_open = release_if (waits f) s.gates_open;
      files = store (settled fresh f) s.files;
    } in
    Quiet-trans s first _
      (Quiet-store f (settled fresh f) s first (there f refl) (settled-plan fresh f) refl refl)
      (count_result-Quiet fresh f.resolved m f first)

result_if-Quiet : (dropped : Bool) (m : FileResult) (s : Sender) → Quiet s (result_if dropped m s)
unfolding result_if mark_resolved
result_if-Quiet true m s = quiet s
result_if-Quiet false m s =
    let q = echo-Quiet m (find m.file_id s.files) s (found_self m.file_id s.files) in
    record { queue = q.queue; plans = q.plans }

pub file_result-Quiet : (m : FileResult) (s : Sender) → Quiet s (file_result m s)
unfolding file_result
file_result-Quiet m s = result_if-Quiet _ m s

fail_open-Quiet :
    (known : Bool) (f : TxFile) (code : ℕ) (msg : Bytes) (s : Sender)
    → Stored s f
    → Quiet s (fail_open known f code msg s)
unfolding fail_open fail_now mark_resolved
fail_open-Quiet true f code msg s there =
    Quiet-store f (record f { errored = true }) s _ there refl refl refl
fail_open-Quiet false f code msg s there =
    Quiet-store f (settled true f) s _ there (settled-plan true f) refl refl

fail_if-Quiet :
    (over : Bool) (f : TxFile) (code : ℕ) (msg : Bytes) (s : Sender)
    → Stored s f
    → Quiet s (fail_if over f code msg s)
unfolding fail_if
fail_if-Quiet true f code msg s there = quiet s
fail_if-Quiet false f code msg s there = fail_open-Quiet _ f code msg s there

pub fail_file-Quiet :
    (f : TxFile) (code : ℕ) (msg : Bytes) (s : Sender)
    → Stored s f
    → Quiet s (fail_file f code msg s)
unfolding fail_file
fail_file-Quiet f code msg s there = fail_if-Quiet _ f code msg s there
