-- ===== src/Sender/Files.antt =====
-- What the changes of a file keep: its entry, and whether its bitmap is awaited.
use botjim.Prelude.{
  ◌-◌, ◌≡◌, arith, Bool, true, false, ◌&&◌, ◌||◌, List, [], ◌∷◌, Bytes, ◌==◌, Bool-cases, inl, inr,
  refl,
}
use botjim.Protocol.Init.{HaveBitmap}
use botjim.Sender.{TxFile, waits}
use botjim.Sender.Handlers.{Source, opened, partial_have, judged}
use botjim.Sender.Outcomes.{close_fd, settled, released}
use botjim.Sender.Scheduler.{open_if, open_fd}
use botjim.Sender.Lookup.{pending}

-- A file that is the other but for its descriptor.
pub record SameBooks (f g : TxFile) : Type 0 where
  pub entry : f.entry ≡ g.entry
  pub have : f.have ≡ g.have
  pub all_skip : f.all_skip ≡ g.all_skip
  pub next_task : f.next_task ≡ g.next_task
  pub count : f.count ≡ g.count
  pub errored : f.errored ≡ g.errored
  pub resolved : f.resolved ≡ g.resolved

same_books : (f : TxFile) → SameBooks f f
same_books f = record {
  entry = refl;
  have = refl;
  all_skip = refl;
  next_task = refl;
  count = refl;
  errored = refl;
  resolved = refl;
}

pub close_fd-SameBooks : (f : TxFile) → SameBooks (close_fd f) f
unfolding close_fd
close_fd-SameBooks f = elim (Bool-cases (f.fd_open && f.resolved && f.inflight == 0)) [
  | inl e ↦ rw e (record {
    entry = refl;
    have = refl;
    all_skip = refl;
    next_task = refl;
    count = refl;
    errored = refl;
    resolved = refl;
  })
  | inr n ↦ rw n (same_books f)
]

open_if-SameBooks : (tried ok : Bool) (f : TxFile) → SameBooks (open_if tried ok f) f
unfolding open_if
open_if-SameBooks true ok f = same_books f
open_if-SameBooks false ok f = record {
  entry = refl;
  have = refl;
  all_skip = refl;
  next_task = refl;
  count = refl;
  errored = refl;
  resolved = refl;
}

pub open_fd-SameBooks : (ok : Bool) (f : TxFile) → SameBooks (open_fd ok f) f
unfolding open_fd
open_fd-SameBooks ok f = open_if-SameBooks f.fd_tried ok f

pub pending-same : (f g : TxFile) → SameBooks f g → pending f ≡ pending g
unfolding pending waits
pending-same f g s = rw s.have (rw s.all_skip (rw s.resolved refl))

pub settled-entry : (fresh : Bool) (f : TxFile) → (settled fresh f).entry ≡ f.entry
unfolding settled
settled-entry fresh f =
    (close_fd-SameBooks (record f { errored = f.errored || fresh; resolved = true })).entry

pub settled-resolved : (fresh : Bool) (f : TxFile) → (settled fresh f).resolved ≡ true
unfolding settled
settled-resolved fresh f =
    (close_fd-SameBooks (record f { errored = f.errored || fresh; resolved = true })).resolved

pub released-SameBooks : (f : TxFile) → SameBooks (released f) f
unfolding released
released-SameBooks f =
    let s = close_fd-SameBooks (record f { inflight = f.inflight - 1 }) in
    record {
      entry = s.entry;
      have = s.have;
      all_skip = s.all_skip;
      next_task = s.next_task;
      count = s.count;
      errored = s.errored;
      resolved = s.resolved;
    }

pub resolved_over : (f : TxFile) → f.resolved ≡ true → pending f ≡ false
unfolding pending
resolved_over f r = ground arith

partial_have-entry :
    (src : Source) (f : TxFile) (bitmap : Bytes) (hashes : List Bytes)
    → (partial_have src f bitmap hashes).file.entry ≡ f.entry
unfolding partial_have judged
partial_have-entry src f bitmap [] = refl
partial_have-entry src f bitmap (h ∷ hs) = refl

pub opened-entry :
    (src : Source) (m : HaveBitmap) (f : TxFile) → (opened src m f).file.entry ≡ f.entry
unfolding opened
opened-entry src m f = elim (Bool-cases (m.status == 2)) [
  | inl e ↦ rw e refl
  | inr d ↦ elim (Bool-cases (m.status == 1)) [
    | inl e ↦ rw d (rw e (partial_have-entry src f m.bitmap m.hashes))
    | inr n ↦ elim (Bool-cases (m.status == 0)) [
      | inl z ↦ rw d (rw n (rw z refl))
      | inr o ↦ rw d (rw n (rw o refl))
    ]
  ]
]
