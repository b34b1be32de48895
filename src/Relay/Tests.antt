-- ===== src/Relay/Tests.antt =====
-- The spool at concrete values.
use botjim.Prelude.{ℕ, ◌<◌, ◌≤◌, ◌≡◌, refl, arith, true, false, [], ◌∷◌, ◌++◌, length, none, some}
use botjim.Relay.Spool.{Spool, new_spool, write_round, read_round, went, waits, Round}
use botjim.Relay.SpoolFifo.{unread}
use botjim.Relay.SpoolRead.{Run, opened, wrote, read, spool_fifo}
use botjim.Relay.SpoolLimit.{write_round_bounded}

-- Five bytes at most, two in memory.
abbrev start : Spool
start = new_spool 5 2 true

abbrev first_write : Spool
first_write = record {
  limit = 5;
  mem_limit = 2;
  has_dir = true;
  mem = 1 ∷ 2 ∷ 3 ∷ [];
  file = none;
  wr_off = 0;
  rd_off = 0;
  buffered = 3;
  eof = false;
  err = none;
}

-- The second write spills, and two bytes of the three fit.
abbrev second_write : Spool
second_write = record {
  limit = 5;
  mem_limit = 2;
  has_dir = true;
  mem = [];
  file = some (1 ∷ 2 ∷ 3 ∷ 4 ∷ 5 ∷ []);
  wr_off = 5;
  rd_off = 0;
  buffered = 5;
  eof = false;
  err = none;
}

abbrev one_read : Spool
one_read = record {
  limit = 5;
  mem_limit = 2;
  has_dir = true;
  mem = [];
  file = some (1 ∷ 2 ∷ 3 ∷ 4 ∷ 5 ∷ []);
  wr_off = 5;
  rd_off = 4;
  buffered = 1;
  eof = false;
  err = none;
}

first_step : write_round true true start (1 ∷ 2 ∷ 3 ∷ []) ≡ went [] first_write
unfolding write_round new_spool botjim.Relay.Spool.room botjim.Relay.Spool.store
first_step = refl

second_step : write_round true true first_write (4 ∷ 5 ∷ 6 ∷ []) ≡ went (6 ∷ []) second_write
unfolding write_round botjim.Relay.Spool.spill_locked botjim.Relay.Spool.room
    botjim.Relay.Spool.store botjim.Relay.Spool.write_at
second_step = refl

full_waits : write_round true true second_write (6 ∷ []) ≡ waits
unfolding write_round
full_waits = refl

third_step : read_round true second_write 4 ≡ went (1 ∷ 2 ∷ 3 ∷ 4 ∷ []) one_read
unfolding read_round botjim.Relay.Spool.read_from botjim.Relay.Spool.reset_spill_locked
third_step = refl

three_rounds : Run start (1 ∷ 2 ∷ 3 ∷ 4 ∷ 5 ∷ []) (1 ∷ 2 ∷ 3 ∷ 4 ∷ []) one_read
three_rounds =
    read true (1 ∷ 2 ∷ 3 ∷ 4 ∷ 5 ∷ []) [] second_write 4 (1 ∷ 2 ∷ 3 ∷ 4 ∷ []) one_read
      (wrote true true (1 ∷ 2 ∷ 3 ∷ []) [] first_write (4 ∷ 5 ∷ []) (6 ∷ []) second_write
        (wrote true true [] [] start (1 ∷ 2 ∷ 3 ∷ []) [] first_write opened first_step) second_step)
      (omega arith) third_step

spool_fifo_example :
    (1 ∷ 2 ∷ 3 ∷ 4 ∷ 5 ∷ [] ≡ (1 ∷ 2 ∷ 3 ∷ 4 ∷ []) ++ unread one_read)
    × ◌≡◌ {A = ℕ} 1 (length (unread one_read))
spool_fifo_example =
    spool_fifo 5 2 true (1 ∷ 2 ∷ 3 ∷ 4 ∷ 5 ∷ []) (1 ∷ 2 ∷ 3 ∷ 4 ∷ []) one_read three_rounds

write_round_bounded_example : (5 ≤ 5) × ◌≡◌ {A = ℕ} 5 5 × (1 < 3)
write_round_bounded_example =
    write_round_bounded true true first_write (4 ∷ 5 ∷ 6 ∷ []) (omega arith) (omega arith)
      second_step
