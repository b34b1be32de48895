-- ===== src/Audit/Tests.antt =====
-- The journal at concrete values.
use botjim.Prelude.{ℕ, ◌+◌, ◌≡◌, refl, [], ◌∷◌, Bytes, none, some}
use botjim.Audit.{Record, Journal, resume, append, verify, changed}
use botjim.Audit.Chain.{append-verify}

-- A digest that keeps every byte, and a number in one byte.
abbrev plain : Bytes → Bytes
plain p = p

abbrev one_digit : ℕ → Bytes
one_digit n = (48 + n) ∷ []

abbrev opening : Record
opening = record {
  seq = 1;
  ts = 116 ∷ [];
  event = 111 ∷ [];
  detail = [];
  prev = [];
  hash = 0 ∷ 49 ∷ 0 ∷ 116 ∷ 0 ∷ 111 ∷ 0 ∷ [];
}

intact : (verify plain one_digit (opening ∷ [])).1 ≡ none
unfolding verify botjim.Audit.verify_from botjim.Audit.hash_entry botjim.Audit.record_preimage
intact = refl

-- The same entry with another event.
tampered : verify plain one_digit (record opening { event = 112 ∷ [] } ∷ []) ≡ (0, some changed)
unfolding verify botjim.Audit.verify_from botjim.Audit.hash_entry botjim.Audit.record_preimage
tampered = refl

append-verify_example :
    (verify plain one_digit
        (opening ∷ (append plain one_digit (resume (opening ∷ [])) (117 ∷ []) (99 ∷ []) []).0 ∷ [])
      ≡ (2, none))
    × (resume (
          opening ∷ (append plain one_digit (resume (opening ∷ [])) (117 ∷ []) (99 ∷ []) []).0 ∷ [])
        ≡ (append plain one_digit (resume (opening ∷ [])) (117 ∷ []) (99 ∷ []) []).1)
append-verify_example = append-verify plain one_digit (opening ∷ []) (117 ∷ []) (99 ∷ []) [] intact
