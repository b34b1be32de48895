-- ===== src/Audit/Chain.antt =====
-- A journal that grows by Append verifies.
use botjim.Prelude.{
  ℕ, suc, ◌+◌, ◌≡◌, ◌∙◌, refl, ap, arith, true, List, [], ◌∷◌, ◌++◌, Bytes, length, none,
}
use botjim.Protocol.Handshake.{bytes_eq}
use botjim.Protocol.HandshakeLaws.{bytes_eq_self}
use botjim.Audit.{
  Record, Journal, record_preimage, hash_entry, last_of, resume, append, verify_from, verify,
}

zero_more : (i : ℕ) → i + 1 ≡ i + 0 + 1
zero_more i = omega arith

one_more : (i n : ℕ) → i + 1 + n + 1 ≡ i + suc n + 1
one_more i n = omega arith

none_before : (n : ℕ) → 0 + n ≡ n
none_before n = omega arith

-- The state for an empty journal.
abbrev start : Journal
start = record { seq = 0; head = [] }

module _ (digest : Bytes → Bytes) (digits : ℕ → Bytes) where
  -- An entry behind `prev` that Verify passes over.
  pub record IsLinked (prev : Bytes) (e : Record) : Type 0 where
    pub link : bytes_eq e.prev prev ≡ true
    pub intact : bytes_eq e.hash (hash_entry digest digits e) ≡ true

  linked :
      (prev : Bytes) (i : ℕ) (e : Record) (es : List Record)
      → IsLinked prev e
      → verify_from digest digits prev i (e ∷ es) ≡ verify_from digest digits e.hash (i + 1) es
  unfolding verify_from
  linked prev i e es l = rw (l.link, l.intact)

  intact-IsLinked :
      (prev : Bytes) (i : ℕ) (e : Record) (es : List Record)
      → (verify_from digest digits prev i (e ∷ es)).1 ≡ none
      → IsLinked prev e
  unfolding verify_from
  intact-IsLinked prev i e es h = record { link = ground arith; intact = ground arith }

  grown :
      (j : Journal) (i : ℕ) (es : List Record) (e : Record)
      → (verify_from digest digits j.head i es).1 ≡ none
      → IsLinked (last_of j es).head e
      → verify_from digest digits j.head i (es ++ (e ∷ [])) ≡ (i + length es + 1, none)
  grown j i [] e h l =
      linked j.head i e [] l ∙ unfold verify_from in ap (λ k. (k, none)) (zero_more i)
  grown j i (d ∷ es) e h l =
      let first = intact-IsLinked j.head i d es h in
      let next : Journal = record { seq = d.seq; head = d.hash } in
      let later : (verify_from digest digits next.head (i + 1) es).1 ≡ none =
        rw (linked j.head i d es first) at h in
      linked j.head i d (es ++ (e ∷ [])) first
      ∙ grown next (i + 1) es e later l
      ∙ ap (λ k. (k, none)) (one_more i (length es))

  appended-IsLinked :
      (j : Journal) (ts event detail : Bytes)
      → IsLinked j.head (append digest digits j ts event detail).0
  unfolding append
  appended-IsLinked j ts event detail = record {
    link = bytes_eq_self j.head;
    intact = unfold hash_entry record_preimage in bytes_eq_self _;
  }

  same_seq :
      (j : Journal) (ts event detail : Bytes)
      → (append digest digits j ts event detail).1.seq
        ≡ (append digest digits j ts event detail).0.seq
  unfolding append
  same_seq j ts event detail = refl

  same_head :
      (j : Journal) (ts event detail : Bytes)
      → (append digest digits j ts event detail).1.head
        ≡ (append digest digits j ts event detail).0.hash
  unfolding append
  same_head j ts event detail = refl

  last_of-append :
      (j k : Journal) (es : List Record) (e : Record)
      → k.seq ≡ e.seq
      → k.head ≡ e.hash
      → last_of j (es ++ (e ∷ [])) ≡ k
  last_of-append j k [] e s h = cc
  last_of-append j k (d ∷ es) e s h =
      last_of-append (record { seq = d.seq; head = d.hash }) k es e s h

  -- A journal that Verify passes is opened again and appended to: Verify passes the longer journal,
  -- counts one entry more, and opening that journal gives the state that Append left.
  pub append-verify :
      (es : List Record) (ts event detail : Bytes)
      → (verify digest digits es).1 ≡ none
      → (verify digest digits (es ++ ((append digest digits (resume es) ts event detail).0 ∷ []))
          ≡ (length es + 1, none))
        × (resume (es ++ ((append digest digits (resume es) ts event detail).0 ∷ []))
            ≡ (append digest digits (resume es) ts event detail).1)
  unfolding verify resume
  append-verify es ts event detail h =
      let j : Journal = last_of start es in
      let next = append digest digits j ts event detail in
      (
        grown start 0 es next.0 h (appended-IsLinked j ts event detail)
            ∙ ap (λ k. (k + 1, none)) (none_before (length es)),
        last_of-append start next.1 es next.0 (same_seq j ts event detail)
            (same_head j ts event detail),
      )
