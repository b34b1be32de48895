-- ===== src/Sender/Batches.antt =====
-- internal/engine/sender.go: appendBatch, flushBatch and the manifest's digest. What arrives of the batches.
use botjim.Prelude.{
  ℕ, ◌+◌, ◌^◌, ◌≡◌, Bool, true, false, not, ◌&&◌, ◌||◌, List, [], ◌∷◌, ◌++◌, append_assoc,
  append-nil, map, Bytes, length, leb, ltb, sym, ap, ◌∙◌, refl,
}
use botjim.Manifest.{Entry}
use botjim.Protocol.Entry.{encode_entry}

-- `batch` and `size` stand for batch and batchSz, `digested` for what manHash was fed, `sent` for the batches on the
-- control stream.
pub record Batching : Type 0 where
  pub batch : List Entry
  pub size : ℕ
  pub digested : Bytes
  pub sent : List (List Entry)

abbrev pub no_batches : Batching
no_batches = record { batch = []; size = 0; digested = []; sent = [] }

-- A send that fails keeps the batch.
unfoldable pub flush_if : Bool → Batching → Batching
flush_if true b = record b { batch = []; size = 0; sent = b.sent ++ b.batch ∷ [] }
flush_if false b = b

unfoldable pub is_empty : List Entry → Bool
is_empty [] = true
is_empty (e ∷ es) = false

-- `sends` says whether Send succeeds.
unfoldable pub flush_batch : Bool → Batching → Batching
flush_batch sends b = flush_if (not (is_empty b.batch) && sends) b

unfoldable pub make_room : Bool → Bool → Batching → Batching
make_room true sends b = flush_batch sends b
make_room false sends b = b

unfoldable pub put_entry : Entry → Batching → Batching
put_entry e b = record b { batch = b.batch ++ e ∷ []; size = b.size + length (encode_entry e) }

unfoldable pub append_batch : Bool → Entry → Batching → Batching
append_batch sends e b = put_entry e (
    make_room (leb 256 (length b.batch) || ltb (2 ^ 20) (b.size + length (encode_entry e))) sends
      (record b { digested = b.digested ++ encode_entry e }))

-- An entry and whether a send at this point succeeds.
pub record Turn : Type 0 where
  pub entry : Entry
  pub sends : Bool

unfoldable pub append_all : List Turn → Batching → Batching
append_all [] b = b
append_all (t ∷ ts) b = append_all ts (append_batch t.sends t.entry b)

unfoldable pub entries_of : List Turn → List Entry
entries_of [] = []
entries_of (t ∷ ts) = t.entry ∷ entries_of ts

unfoldable pub joined {ℓ} : {A : Type ℓ} → List (List A) → List A
joined [] = []
joined (xs ∷ xss) = xs ++ joined xss

pub joined-append {ℓ} :
    {A : Type ℓ} (xss yss : List (List A)) → joined (xss ++ yss) ≡ joined xss ++ joined yss
unfolding joined
joined-append [] yss = refl
joined-append (xs ∷ xss) yss =
    ap (λ zs. xs ++ zs) (joined-append xss yss) ∙ sym (append_assoc xs (joined xss) (joined yss))

-- What went in: the batches sent, and the one at hand.
abbrev passed : Batching → List Entry
passed b = joined b.sent ++ b.batch

flush_if-passed : (go : Bool) (b : Batching) → passed (flush_if go b) ≡ passed b
unfolding flush_if joined
flush_if-passed true b =
    append-nil (joined (b.sent ++ b.batch ∷ []))
    ∙ joined-append b.sent (b.batch ∷ [])
    ∙ ap (λ zs. joined b.sent ++ zs) (append-nil b.batch)
flush_if-passed false b = refl

make_room-passed : (full sends : Bool) (b : Batching) → passed (make_room full sends b) ≡ passed b
unfolding make_room flush_batch
make_room-passed true sends b = flush_if-passed _ b
make_room-passed false sends b = refl

append_batch-passed :
    (sends : Bool) (e : Entry) (b : Batching) → passed (append_batch sends e b) ≡ passed b ++ e ∷ []
unfolding append_batch put_entry
append_batch-passed sends e b =
    let c : Batching = record b { digested = b.digested ++ encode_entry e } in
    let full = leb 256 (length b.batch) || ltb (2 ^ 20) (b.size + length (encode_entry e)) in
    let d = make_room full sends c in
    sym (append_assoc (joined d.sent) d.batch (e ∷ []))
    ∙ ap (λ zs. zs ++ e ∷ []) (make_room-passed full sends c)

append_all-passed :
    (ts : List Turn) (b : Batching) → passed (append_all ts b) ≡ passed b ++ entries_of ts
unfolding append_all entries_of
append_all-passed [] b = sym (append-nil (passed b))
append_all-passed (t ∷ ts) b =
    append_all-passed ts (append_batch t.sends t.entry b)
    ∙ ap (λ zs. zs ++ entries_of ts) (append_batch-passed t.sends t.entry b)
    ∙ append_assoc (passed b) (t.entry ∷ []) (entries_of ts)

-- Whatever sends fail, the batches that were sent and the one at hand are, one behind the other, the entries that the
-- walker emitted, in order.
pub batches_in_order :
    (ts : List Turn)
    → joined (append_all ts no_batches).sent ++ (append_all ts no_batches).batch ≡ entries_of ts
unfolding joined
batches_in_order ts = append_all-passed ts no_batches

flush_if-digested : (go : Bool) (b : Batching) → (flush_if go b).digested ≡ b.digested
unfolding flush_if
flush_if-digested true b = refl
flush_if-digested false b = refl

make_room-digested :
    (full sends : Bool) (b : Batching) → (make_room full sends b).digested ≡ b.digested
unfolding make_room flush_batch
make_room-digested true sends b = flush_if-digested _ b
make_room-digested false sends b = refl

append_all-digested :
    (ts : List Turn) (b : Batching)
    → (append_all ts b).digested ≡ b.digested ++ joined (map encode_entry (entries_of ts))
unfolding append_all append_batch put_entry joined entries_of
append_all-digested [] b = sym (append-nil b.digested)
append_all-digested (t ∷ ts) b =
    append_all-digested ts (append_batch t.sends t.entry b)
    ∙ ap (λ d. d ++ joined (map encode_entry (entries_of ts))) (make_room-digested _ t.sends _)
    ∙ append_assoc b.digested (encode_entry t.entry) (joined (map encode_entry (entries_of ts)))

-- Whatever sends fail, what the manifest's digest was fed is the encodings, one behind the other, of the entries in the
-- batches that were sent and in the one at hand.
pub digest_covers :
    (ts : List Turn)
    → (append_all ts no_batches).digested
      ≡ joined (
          map encode_entry
            (joined (append_all ts no_batches).sent ++ (append_all ts no_batches).batch))
digest_covers ts =
    append_all-digested ts no_batches
    ∙ ap (λ es. joined (map encode_entry es)) (sym (batches_in_order ts))
