-- ===== src/Relay/SpoolRead.antt =====
-- Reading from the spool, its limit, and whole runs of it.
use botjim.Prelude.{
  ℕ, zero, suc, ◌+◌, ◌-◌, ◌<◌, ◌≤◌, ◌≡◌, ◌∙◌, refl, sym, ap, arith, Bool, true, false, ◌&&◌, [],
  ◌∷◌, ◌++◌, Bytes, length, take, drop, ◌==◌, ltb, if◌then◌else◌, Option, none, some, append_assoc,
  length-append, length-take, length-drop, take-append-drop, Bool-cases, inl, inr,
}
use mathlib.Core.List.{append_cancel_right}
use botjim.Relay.Spool.{
  Spool, io, new_spool, fail_locked, refused, went, write_round, reset_spill_locked, read_mem,
  read_file, read_from, read_round,
}
use botjim.Relay.SpoolFifo.{
  in_file, unread, FileFits, IsValid, drop-drop, drop_all, drop_nil, write_round_fifo,
}

read_mem-fifo :
    (s : Spool) (n : ℕ) {got : Bytes} {t : Spool} (f : Option Bytes)
    → s.file ≡ f
    → in_file s.file s.rd_off ≡ []
    → IsValid s
    → read_mem s n ≡ went got t
    → IsValid t × (got ++ unread t ≡ unread s)
unfolding read_mem
read_mem-fifo s n {got} {t} f file_is read_up v e =
    let (g, w) = parts in
    let count : s.buffered ≡ length s.mem = rw read_up at v.buffered in
    rw (← g, ← w)
      (
        record {
          file = kept f file_is;
          buffered = rw read_up (omega (arith, count, length-take n s.mem, length-drop n s.mem));
        },
        rw read_up (take-append-drop n s.mem),
      )
  where
    parts :
        (take n s.mem ≡ got)
        × (record s { mem = drop n s.mem; buffered = s.buffered - length (take n s.mem) } ≡ t)
    parts = ground arith

    kept : (f : Option Bytes) → s.file ≡ f → FileFits s.file s.wr_off s.rd_off (drop n s.mem)
    kept none h = rw h (rw h at v.file)
    kept (some c) h =
        let (size, within, no_mem) : FileFits (some c) s.wr_off s.rd_off s.mem = rw h at v.file in
        rw h (size, within, rw no_mem (drop_nil n))

take_back : (n : ℕ) (d : Bytes) → take n d ++ drop (length (take n d)) d ≡ d
take_back zero d = refl
take_back (suc n) [] = refl
take_back (suc n) (b ∷ d) = ap (◌∷◌ b) (take_back n d)

abbrev advanced : Spool → Bytes → Spool
advanced s got = record s { rd_off = s.rd_off + length got; buffered = s.buffered - length got }

length-take_within : (n : ℕ) (d : Bytes) → length (take n d) ≤ length d
length-take_within n d = omega (arith, length-take n d)

advanced-fifo :
    (s : Spool) (n : ℕ) (c : Bytes)
    → s.file ≡ some c
    → IsValid s
    → IsValid (advanced s (take n (drop s.rd_off c)))
      × (take n (drop s.rd_off c) ++ unread (advanced s (take n (drop s.rd_off c))) ≡ unread s)
advanced-fifo s n c e v =
    let (size, within, no_mem) : FileFits (some c) s.wr_off s.rd_off s.mem = rw e at v.file in
    let count : s.buffered ≡ length (drop s.rd_off c ++ s.mem) = rw e at v.buffered in
    let got = take n (drop s.rd_off c) in
    let shorter = length-take_within n (drop s.rd_off c) in
    let left = length-drop s.rd_off c in
    let whole : got ++ (drop (s.rd_off + length got) c ++ s.mem) ≡ drop s.rd_off c ++ s.mem =
      sym (append_assoc got (drop (s.rd_off + length got) c) s.mem)
      ∙ ap (λ x. x ++ s.mem)
          (ap (λ x. got ++ x) (sym (drop-drop (length got) s.rd_off c))
            ∙ take_back n (drop s.rd_off c)) in
    rw e (
      record {
        file = (size, omega arith, no_mem);
        buffered = omega (
          arith,
          count,
          ap length whole,
          length-append got (drop (s.rd_off + length got) c ++ s.mem),
        );
      },
      whole,
    )

reset-IsValid :
    (s : Spool) (c : Bytes)
    → s.file ≡ some c
    → IsValid s
    → IsValid (reset_spill_locked s) × (unread (reset_spill_locked s) ≡ unread s)
unfolding reset_spill_locked
reset-IsValid s c e v =
    let (size, within, no_mem) : FileFits (some c) s.wr_off s.rd_off s.mem = rw e at v.file in
    elim (Bool-cases (s.rd_off == s.wr_off && length s.mem == 0)) [
      | inl drained ↦
          let all_read : drop s.rd_off c ≡ [] = drop_all s.rd_off c (ground arith) in
          let count : s.buffered ≡ length (drop s.rd_off c ++ s.mem) = rw e at v.buffered in
          rw (drained, e, all_read)
            (record { file = (refl, omega arith, no_mem); buffered = rw all_read at count }, refl)
      | inr more ↦ rw more (v, refl)
    ]

read_file-fifo :
    (s : Spool) (n : ℕ) (c d : Bytes) {got : Bytes} {t : Spool}
    → s.file ≡ some c
    → take n (drop s.rd_off c) ≡ d
    → (d ≡ [] → drop s.rd_off c ≡ [])
    → IsValid s
    → read_file s n d ≡ went got t
    → IsValid t × (got ++ unread t ≡ unread s)
read_file-fifo s n c [] file_is front gone v e =
    read_mem-fifo s n (some c) file_is (rw file_is (gone refl)) v e
read_file-fifo s n c (b ∷ g) {got} {t} file_is front gone v e =
    let (v₁, same₁) = rw front at (advanced-fifo s n c file_is v) in
    let (v₂, same₂) = reset-IsValid (advanced s (b ∷ g)) c file_is v₁ in
    let got_is : b ∷ g ≡ got = cc e in
    let t_is : reset_spill_locked (advanced s (b ∷ g)) ≡ t = cc e in
    rw (← got_is, ← t_is) (v₂, rw same₂ same₁)

take-some : (n : ℕ) (d : Bytes) → 0 < n → take n d ≡ [] → d ≡ []
take-some zero d h e = absurd (omega arith)
take-some (suc n) [] h e = refl
take-some (suc n) (b ∷ d) h e = absurd (cc e)

read_from-fifo :
    (disk : Bool) (s : Spool) (n : ℕ) (f : Option Bytes) {got : Bytes} {t : Spool}
    → s.file ≡ f
    → 0 < n
    → IsValid s
    → read_from disk s n f ≡ went got t
    → IsValid t × (got ++ unread t ≡ unread s)
unfolding read_from
read_from-fifo disk s n none file_is some_room v e = read_mem-fifo s n none file_is (rw file_is) v e
read_from-fifo disk s n (some c) {got} {t} file_is some_room v e =
    let (size, within, no_mem) : FileFits (some c) s.wr_off s.rd_off s.mem = rw file_is at v.file in
    elim (Bool-cases (ltb s.rd_off s.wr_off)) [
      | inr up ↦
          read_mem-fifo s n (some c) file_is (rw file_is (drop_all s.rd_off c (ground arith))) v
            (rw up at e)
      | inl more ↦
          read_file-fifo s n c (take n (drop s.rd_off c)) file_is refl
            (take-some n (drop s.rd_off c) some_room) v (worked disk (rw more at e))
    ]
  where
    worked :
        (b : Bool)
        → (if b then read_file s n (take n (drop s.rd_off c)) else refused io (fail_locked io s))
          ≡ went got t
        → read_file s n (take n (drop s.rd_off c)) ≡ went got t
    worked true h = h
    worked false h = absurd (cc h)

-- A round of Read that goes through gives a front of what is not read yet, and leaves the rest.
read_round_fifo :
    (disk : Bool) (s : Spool) (n : ℕ) {got : Bytes} {t : Spool}
    → 0 < n
    → IsValid s
    → read_round disk s n ≡ went got t
    → IsValid t × (got ++ unread t ≡ unread s)
unfolding read_round
read_round_fifo disk s n some_room v e = read_from-fifo disk s n s.file refl some_room v e

-- Rounds of Write and Read in any order: the bytes accepted and the bytes delivered so far.
pub data Run (s : Spool) : Bytes → Bytes → Spool → Type 0 where
  opened : Run s [] [] s
  wrote :
      (spills writes : Bool) (sent got : Bytes) (t : Spool) (taken rest : Bytes) (u : Spool)
      → Run s sent got t
      → write_round spills writes t (taken ++ rest) ≡ went rest u
      → Run s (sent ++ taken) got u
  read :
      (disk : Bool) (sent got : Bytes) (t : Spool) (n : ℕ) (part : Bytes) (u : Spool)
      → Run s sent got t
      → 0 < n
      → read_round disk t n ≡ went part u
      → Run s sent (got ++ part) u

new_spool-IsValid :
    (limit mem_limit : ℕ) (has_dir : Bool) → IsValid (new_spool limit mem_limit has_dir)
unfolding new_spool
new_spool-IsValid limit mem_limit has_dir = record { file = (refl, refl); buffered = refl }

Run-fifo :
    (s t : Spool) (sent got : Bytes)
    → IsValid s
    → unread s ≡ []
    → Run s sent got t
    → IsValid t × (sent ≡ got ++ unread t)
Run-fifo s _ _ _ v e opened = (v, sym e)
Run-fifo s _ _ _ v e (wrote spills writes sent got t taken rest u r step) =
    let (v₁, same₁) = Run-fifo s t sent got v e r in
    let (v₂, same₂) = write_round_fifo spills writes t (taken ++ rest) v₁ step in
    let behind : unread u ≡ unread t ++ taken =
      append_cancel_right (unread u) (unread t ++ taken) rest
        (same₂ ∙ sym (append_assoc (unread t) taken rest)) in
    (v₂, rw behind (ap (λ x. x ++ taken) same₁ ∙ append_assoc got (unread t) taken))
Run-fifo s _ _ _ v e (read disk sent got t n part u r some_room step) =
    let (v₁, same₁) = Run-fifo s t sent got v e r in
    let (v₂, same₂) = read_round_fifo disk t n some_room v₁ step in
    (v₂, rw append_assoc (rw same₂ same₁))

-- However rounds of Write and Read follow one another on a new spool, as long as each goes through,
-- what was delivered is a front of what was accepted, in order and each byte once, and the rest of
-- it is what the spool still holds, whose length it keeps in `buffered`.
pub spool_fifo :
    (limit mem_limit : ℕ) (has_dir : Bool) (sent got : Bytes) (t : Spool)
    → Run (new_spool limit mem_limit has_dir) sent got t
    → (sent ≡ got ++ unread t) × (t.buffered ≡ length (unread t))
spool_fifo limit mem_limit has_dir sent got t r =
    let (v, e) =
      Run-fifo (new_spool limit mem_limit has_dir) t sent got
        (new_spool-IsValid limit mem_limit has_dir) (unfold new_spool in refl) r in
    (e, v.buffered)
