-- ===== src/Sender/ManifestSent.antt =====
-- The manifest as the receiver decodes it, batch by batch, is the manifest that the walker emitted.
use mathlib.Core.Path.{subst}
use botjim.Prelude.{
  ℕ, ◌+◌, ◌^◌, ◌≤◌, ◌≡◌, arith, Bool, true, false, not, ◌&&◌, ◌||◌, List, [], ◌∷◌, ◌++◌, append-nil,
  map, length, length-append, leb, ltb, All, All-append, sym, ap, ◌∙◌, refl,
}
use botjim.Manifest.{Entry}
use botjim.Wire.Decoder.{ok}
use botjim.Protocol.Entry.{encode_entry, encode_manifest_batch, decode_manifest_batch}
use botjim.Protocol.EntryRoundTrip.{IsEntry, received, manifest_batch_roundtrip}
use botjim.Sender.Batches.{
  Batching, no_batches, flush_if, is_empty, flush_batch, make_room, put_entry, append_batch, Turn,
  append_all, entries_of, joined, joined-append, batches_in_order,
}

abbrev pub IsBatch : List Entry → Type 0
IsBatch es = length es ≤ 256

-- `room` is what the batch at hand may hold.
record IsSplit (b : Batching) (room : ℕ) : Type 0 where
  sent : All IsBatch b.sent
  batch : length b.batch ≤ room

flush_if-IsSplit : (b : Batching) → IsSplit b 256 → IsSplit (flush_if true b) 255
unfolding flush_if
flush_if-IsSplit b s = record {
  sent = All-append IsBatch b.sent (b.batch ∷ []) s.sent (s.batch, tt);
  batch = omega arith;
}

-- An empty batch at hand is not sent.
flush_batch-IsSplit :
    (b : Batching) (es : List Entry)
    → b.batch ≡ es
    → IsSplit b 256
    → IsSplit (flush_if (not (is_empty es) && true) b) 255
unfolding is_empty flush_if
flush_batch-IsSplit b [] e s = record {
  sent = s.sent;
  batch = let none_ : length b.batch ≡ 0 = ap length e in omega arith;
}
flush_batch-IsSplit b (x ∷ es) e s = flush_if-IsSplit b s

-- A batch at hand of 256 entries is sent before the next entry.
make_room-IsSplit :
    (full : Bool) (b : Batching)
    → (full ≡ false → length b.batch ≤ 255)
    → IsSplit b 256
    → IsSplit (make_room full true b) 255
unfolding make_room flush_batch
make_room-IsSplit true b few s = flush_batch-IsSplit b b.batch refl s
make_room-IsSplit false b few s = record { sent = s.sent; batch = few refl }

append_batch-IsSplit :
    (e : Entry) (b : Batching) → IsSplit b 256 → IsSplit (append_batch true e b) 256
unfolding append_batch put_entry
append_batch-IsSplit e b s =
    let c : Batching = record b { digested = b.digested ++ encode_entry e } in
    let s' : IsSplit c 256 = record { sent = s.sent; batch = s.batch } in
    let full = leb 256 (length b.batch) || ltb (2 ^ 20) (b.size + length (encode_entry e)) in
    let r = make_room-IsSplit full c (λ n. ground arith) s' in
    record {
      sent = r.sent;
      batch = omega (arith, r.batch, length-append (make_room full true c).batch (e ∷ []));
    }

-- Every send succeeds.
abbrev pub AllSend : List Turn → Type 0
AllSend = All (λ t. t.sends ≡ true)

append_all-IsSplit :
    (ts : List Turn) (b : Batching) → AllSend ts → IsSplit b 256 → IsSplit (append_all ts b) 256
unfolding append_all
append_all-IsSplit [] b h s = s
append_all-IsSplit (t ∷ ts) b (h, hs) s =
    append_all-IsSplit ts (append_batch t.sends t.entry b) hs (
      subst (λ k. IsSplit (append_batch k t.entry b) 256) (sym h)
        (append_batch-IsSplit t.entry b s))

All-front {ℓ} : {A : Type ℓ} (P : A → Type 0) (xs ys : List A) → All P (xs ++ ys) → All P xs
All-front P [] ys h = tt
All-front P (x ∷ xs) ys (h, hs) = (h, All-front P xs ys hs)

All-back {ℓ} : {A : Type ℓ} (P : A → Type 0) (xs ys : List A) → All P (xs ++ ys) → All P ys
All-back P [] ys h = h
All-back P (x ∷ xs) ys (h, hs) = All-back P xs ys hs

All-joined {ℓ} :
    {A : Type ℓ} (P : A → Type 0) (xss : List (List A)) → All P (joined xss) → All (All P) xss
unfolding joined
All-joined P [] h = tt
All-joined P (xs ∷ xss) h =
    (All-front P xs (joined xss) h, All-joined P xss (All-back P xs (joined xss) h))

joined_one {ℓ} : {A : Type ℓ} (xs : List A) → joined (xs ∷ []) ≡ xs
unfolding joined
joined_one xs = append-nil xs

-- What the receiver makes of a batch.
abbrev pub Arrives : List Entry → Type 0
Arrives es =
    decode_manifest_batch (encode_manifest_batch (record { entries = es }))
    ≡ ok (record { entries = map received es })

batches-Arrives : (bs : List (List Entry)) → All IsBatch bs → All (All IsEntry) bs → All Arrives bs
batches-Arrives [] small fit = tt
batches-Arrives (es ∷ bs) (n, small) (h, fit) = (
  manifest_batch_roundtrip (record { entries = es }) (omega arith) h,
  batches-Arrives bs small fit,
)

flushed-joined :
    (b : Batching) (es : List Entry)
    → b.batch ≡ es
    → joined (flush_if (not (is_empty es) && true) b).sent ≡ joined b.sent ++ es
unfolding flush_if is_empty
flushed-joined b [] e = sym (append-nil (joined b.sent))
flushed-joined b (x ∷ es) e =
    joined-append b.sent (b.batch ∷ [])
    ∙ ap (λ zs. joined b.sent ++ joined (zs ∷ [])) e
    ∙ ap (λ zs. joined b.sent ++ zs) (joined_one (x ∷ es))

-- Where every send succeeds and the fields of the entries fit, the batches behind the last flush are the entries that
-- the walker emitted, in order, and the receiver decodes each to its entries as the receiver sees them.
pub manifest-Arrives :
    (ts : List Turn)
    → AllSend ts
    → All IsEntry (entries_of ts)
    → (joined (flush_batch true (append_all ts no_batches)).sent ≡ entries_of ts)
      × All Arrives (flush_batch true (append_all ts no_batches)).sent
unfolding flush_batch
manifest-Arrives ts sends fit =
    let b = append_all ts no_batches in
    let whole : joined (flush_if (not (is_empty b.batch) && true) b).sent ≡ entries_of ts =
      flushed-joined b b.batch refl ∙ batches_in_order ts in
    let split =
      flush_batch-IsSplit b b.batch refl
        (append_all-IsSplit ts no_batches sends (record { sent = tt; batch = omega arith })) in
    (
      whole,
      batches-Arrives _ split.sent
          (All-joined IsEntry _ (subst (λ es. All IsEntry es) (sym whole) fit)),
    )
