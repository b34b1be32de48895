-- ===== src/Sidecar/Tests.antt =====
-- The sidecar at concrete values: a file of three chunks.
use botjim.Prelude.{
  ℕ, ◌+◌, ◌*◌, ◌/◌, ◌^◌, ◌<◌, ◌≡◌, ◌↔◌, refl, arith, true, false, not, ◌&&◌, ◌||◌, [], ◌∷◌, length,
  ◌==◌, none, IsBytes,
}
use botjim.Prelude.Int.{pos}
use botjim.Wire.Bits.{set_bit, test_bit}
use botjim.Manifest.{Entry, regular}
use botjim.Sidecar.{
  Sidecar, missing, hashed, zero_chunk, new, have, set_have, clear_have, popcount, recount_have,
  complete, adopt_bitmap, resize_have, validate,
}
use botjim.Sidecar.Invariant.{
  IsValid, new-IsValid, set_have-IsValid, have-set_have, complete_iff, resize_have-IsValid,
  adopt_bitmap-IsValid,
}
use botjim.Sidecar.Names.{part_path, meta_path, meta_path_for_part, meta_path_for_part_lem}
use botjim.Sidecar.Validate.{Describes, validate_iff}

abbrev video : Entry
video = record {
  id = 7;
  kind = regular;
  rel_path = 118 ∷ [];
  abs_path = [];
  mode = 420;
  uid = 1000;
  gid = 1000;
  uname = [];
  gname = [];
  mtime = record { sec = pos 1700000000; nsec = 5 };
  atime = record { sec = pos 1700000000; nsec = 5 };
  size = pos (10 * 2 ^ 20);
  dev = 0;
  ino = 0;
  chunk_size = pos (4 * 2 ^ 20);
  link_target = [];
  link_ref_id = 0;
  rdev = 0;
  xattrs = [];
}

abbrev fresh_sidecar : Sidecar
fresh_sidecar = new video (1 ∷ 2 ∷ [])

three_chunks : fresh_sidecar.chunk_count ≡ 3
unfolding new botjim.Chunking.count botjim.Wire.Words.to_i64 botjim.Wire.Words.to_u64
three_chunks = refl

two_marked :
    have (set_have (set_have fresh_sidecar (pos 0) [] true) (pos 2) (9 ∷ []) false) (pos 2) ≡ true
unfolding new have set_have botjim.Chunking.count botjim.Wire.Words.to_i64 botjim.Wire.Words.to_u64
    botjim.Sidecar.bit_at test_bit set_bit
two_marked = refl

not_the_last : have (set_have fresh_sidecar (pos 0) [] true) (pos 2) ≡ false
unfolding new have set_have botjim.Chunking.count botjim.Wire.Words.to_i64 botjim.Wire.Words.to_u64
    botjim.Sidecar.bit_at test_bit set_bit
not_the_last = refl

counted_once : (set_have (set_have fresh_sidecar (pos 1) [] true) (pos 1) [] true).have_count ≡ 1
unfolding new set_have botjim.Chunking.count botjim.Wire.Words.to_i64 botjim.Wire.Words.to_u64
    botjim.Sidecar.bit_at test_bit set_bit
counted_once = refl

fresh-IsValid : IsValid fresh_sidecar
fresh-IsValid = new-IsValid video (1 ∷ 2 ∷ [])

new-IsValid_case : IsValid fresh_sidecar
new-IsValid_case = new-IsValid video (1 ∷ 2 ∷ [])

set_have-IsValid_example :
    IsValid (set_have fresh_sidecar (pos 2) (9 ∷ []) false)
    × IsValid (clear_have fresh_sidecar (pos 2))
set_have-IsValid_example = set_have-IsValid fresh_sidecar (pos 2) (9 ∷ []) false fresh-IsValid

last_in_range : 2 < fresh_sidecar.chunk_count
unfolding new botjim.Chunking.count botjim.Wire.Words.to_i64 botjim.Wire.Words.to_u64
last_in_range = omega arith

have-set_have_example :
    (have (set_have fresh_sidecar (pos 2) (9 ∷ []) false) (pos 1)
      ≡ (2 == 1 || have fresh_sidecar (pos 1)))
    × (have (clear_have fresh_sidecar (pos 2)) (pos 1)
        ≡ (not (2 == 1) && have fresh_sidecar (pos 1)))
have-set_have_example = have-set_have fresh_sidecar 2 1 (9 ∷ []) false fresh-IsValid last_in_range

complete_iff_example :
    (complete fresh_sidecar ≡ true)
    ↔ ((j : ℕ) → j < fresh_sidecar.chunk_count → have fresh_sidecar (pos j) ≡ true)
complete_iff_example = complete_iff fresh_sidecar fresh-IsValid

-- A bitmap of two bytes and a wrong count.
abbrev loaded : Sidecar
loaded = record {
  version = 1;
  path = 118 ∷ [];
  nonce = [];
  src_size = pos (10 * 2 ^ 20);
  src_mtime = record { sec = pos 1700000000; nsec = 5 };
  chunk_size = pos (4 * 2 ^ 20);
  chunk_count = 3;
  hashes = missing ∷ hashed (9 ∷ []) ∷ zero_chunk ∷ [];
  fully_written = false;
  have = 6 ∷ 255 ∷ [];
  have_count = 77;
}

two_counted : (resize_have loaded).have_count ≡ 2
unfolding resize_have botjim.Sidecar.bit_at test_bit
two_counted = refl

loaded-IsBytes : IsBytes loaded.have
loaded-IsBytes = (omega arith, (omega arith, tt))

resize_have-IsValid_case : IsValid (resize_have loaded)
resize_have-IsValid_case = resize_have-IsValid loaded refl loaded-IsBytes

seven : IsBytes (7 ∷ [])
seven = (omega arith, tt)

one_byte : length {A = ℕ} (7 ∷ []) ≡ (fresh_sidecar.chunk_count + 7) / 8
unfolding new botjim.Chunking.count botjim.Wire.Words.to_i64 botjim.Wire.Words.to_u64
one_byte = refl

adopt_bitmap-IsValid_case : IsValid (adopt_bitmap fresh_sidecar (7 ∷ []))
adopt_bitmap-IsValid_case = adopt_bitmap-IsValid fresh_sidecar (7 ∷ []) fresh-IsValid seven one_byte

validate_iff_example : (validate loaded video true ≡ none) ↔ Describes loaded video true
validate_iff_example = validate_iff loaded video true

-- A file whose own name holds the prefix.
meta_path_for_part_lem_case :
    meta_path_for_part
      (part_path (97 ∷ 46 ∷ 102 ∷ 115 ∷ 45 ∷ 112 ∷ 97 ∷ 114 ∷ 116 ∷ 45 ∷ []) (49 ∷ 102 ∷ []))
    ≡ meta_path (97 ∷ 46 ∷ 102 ∷ 115 ∷ 45 ∷ 112 ∷ 97 ∷ 114 ∷ 116 ∷ 45 ∷ []) (49 ∷ 102 ∷ [])
meta_path_for_part_lem_case =
    meta_path_for_part_lem (97 ∷ 46 ∷ 102 ∷ 115 ∷ 45 ∷ 112 ∷ 97 ∷ 114 ∷ 116 ∷ 45 ∷ [])
      (49 ∷ 102 ∷ []) (refl, (refl, tt))
