-- ===== src/Relay/SpoolLimit.antt =====
-- A write keeps the spool within its limit and makes progress.
use botjim.Prelude.{
  ◌+◌, ◌<◌, ◌≤◌, ◌≡◌, refl, arith, Bool, Bytes, length, take, drop, Option, none, some, length-take,
  length-drop,
}
use botjim.Relay.Spool.{Spool, spill_locked, store, went, room, spilled, write_round}

store-buffered :
    (s : Spool) (f : Option Bytes) (p : Bytes)
    → s.file ≡ f
    → ((store s p).buffered ≡ s.buffered + length p) × ((store s p).limit ≡ s.limit)
unfolding store
store-buffered s none p e = rw e (refl, refl)
store-buffered s (some c) p e = rw e (refl, refl)

spilled-same : (s : Spool) → ((spilled s).buffered ≡ s.buffered) × ((spilled s).limit ≡ s.limit)
unfolding spill_locked
spilled-same s = (ground arith, ground arith)

room-fits :
    (s : Spool) (p : Bytes)
    → 0 < s.limit
    → s.buffered < s.limit
    → (room s p ≤ length p) × (s.buffered + room s p ≤ s.limit) × (0 < length p → 0 < room s p)
unfolding room
room-fits s p h k = (ground arith, ground arith, λ q. ground arith)

-- A round of Write on a spool with a limit, that goes through for a non-empty slice: the spool holds
-- no more than its limit after it, and less of the slice is left.
pub write_round_bounded :
    (spills writes : Bool) (s : Spool) (p : Bytes) {rest : Bytes} {t : Spool}
    → 0 < s.limit
    → 0 < length p
    → write_round spills writes s p ≡ went rest t
    → (t.buffered ≤ t.limit) × (t.limit ≡ s.limit) × (length rest < length p)
unfolding write_round
write_round_bounded spills writes s p {rest} {t} limited more e =
    let (r, w) = parts in
    let (fits, within, moves) = room-fits s p limited below in
    let (count, same) = store-buffered (spilled s) (spilled s).file (take (room s p) p) refl in
    let (count', same') = spilled-same s in
    let some_taken = moves more in
    rw (← r, ← w)
      (
        omega (arith, count, same, count', same', length-take (room s p) p),
        omega (arith, same, same'),
        omega (arith, length-drop (room s p) p),
      )
  where
    parts : (drop (room s p) p ≡ rest) × (store (spilled s) (take (room s p) p) ≡ t)
    parts = ground arith

    below : s.buffered < s.limit
    below = ground arith
