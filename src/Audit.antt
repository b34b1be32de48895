-- ===== src/Audit.antt =====
-- internal/audit/audit.go: the hash chain of the journal. The file and its JSON lines are not
-- modelled: a journal on disk is the list of its entries. `digest` is SHA-256 in hexadecimal and
-- `digits` the decimal form of a number.
pub mod Chain
mod Tests
use botjim.Prelude.{
  ℕ, ◌+◌, ◌≡◌, Bool, true, false, not, List, [], ◌∷◌, ◌++◌, Bytes, if◌then◌else◌, Option, none,
  some,
}
use botjim.Protocol.Handshake.{bytes_eq}

pub record Record : Type 0 where
  pub seq : ℕ
  pub ts : Bytes
  pub event : Bytes
  pub detail : Bytes
  pub prev : Bytes
  pub hash : Bytes

pub record Journal : Type 0 where
  pub seq : ℕ
  pub head : Bytes

-- What hashEntry hashes.
unfoldable pub record_preimage : (ℕ → Bytes) → Record → Bytes
record_preimage digits e =
    e.prev ++ (0 ∷ (digits e.seq ++ (0 ∷ (e.ts ++ (0 ∷ (e.event ++ (0 ∷ e.detail)))))))

unfoldable pub hash_entry : (Bytes → Bytes) → (ℕ → Bytes) → Record → Bytes
hash_entry digest digits e = digest (record_preimage digits e)

abbrev pub last_of : Journal → List Record → Journal
last_of j [] = j
last_of j (e ∷ es) = last_of (record { seq = e.seq; head = e.hash }) es

-- Open: the chain goes on from the last entry.
unfoldable pub resume : List Record → Journal
resume es = last_of (record { seq = 0; head = [] }) es

-- Append, with `detail` in the form that is written: the entry and the journal behind it.
unfoldable pub append :
    (Bytes → Bytes) → (ℕ → Bytes) → Journal → Bytes → Bytes → Bytes → Record × Journal
append digest digits j ts event detail =
    let e : Record = record {
      seq = j.seq + 1;
      ts = ts;
      event = event;
      detail = detail;
      prev = j.head;
      hash = [];
    } in
    let h = hash_entry digest digits e in
    (record e { hash = h }, record { seq = j.seq + 1; head = h })

pub data Break : Type 0 where
  unlinked changed : Break

-- The loop of Verify behind an entry with the hash `prev`, with `i` entries intact.
unfoldable pub verify_from :
    (Bytes → Bytes) → (ℕ → Bytes) → Bytes → ℕ → List Record → ℕ × Option Break
unfolding bytes_eq
verify_from digest digits prev i [] = (i, none)
verify_from digest digits prev i (e ∷ es) =
    let rest = verify_from digest digits e.hash (i + 1) es in
    if not (bytes_eq e.prev prev)
    then (i, some unlinked)
    else if not (bytes_eq e.hash (hash_entry digest digits e))
    then (i, some changed)
    else rest

unfoldable pub verify : (Bytes → Bytes) → (ℕ → Bytes) → List Record → ℕ × Option Break
verify digest digits es = verify_from digest digits [] 0 es
