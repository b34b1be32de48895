-- ===== src/Sidecar/Validate.antt =====
-- What Validate accepts.
use botjim.Prelude.{◌≡◌, ◌↔◌, refl, arith, Bool, true, false, not, ◌&&◌, none}
use botjim.Prelude.Int.{ℤ, pos, negsuc}
use botjim.Manifest.{Entry}
use botjim.Chunking.{chunk_size_for}
use botjim.Protocol.Handshake.{bytes_eq}
use botjim.Protocol.HandshakeLaws.{bytes_eq→eq, bytes_eq_self}
use botjim.Sidecar.{Sidecar, version, entry_chunks, int_eq, validate}

int_eq→eq : (a b : ℤ) → int_eq a b ≡ true → a ≡ b
int_eq→eq (pos a) (pos b) h = ground arith
int_eq→eq (pos a) (negsuc b) h = cc
int_eq→eq (negsuc a) (pos b) h = cc
int_eq→eq (negsuc a) (negsuc b) h = ground arith

int_eq_self : (a : ℤ) → int_eq a a ≡ true
int_eq_self (pos a) = ground arith
int_eq_self (negsuc a) = ground arith

-- The sidecar is of this version and describes the entry, on the grid that the entry's size has.
pub record Describes (s : Sidecar) (e : Entry) (strict_mtime : Bool) : Type 0 where
  pub version_is : s.version ≡ version
  pub size : s.src_size ≡ e.size
  pub sec : strict_mtime ≡ true → s.src_mtime.sec ≡ e.mtime.sec
  pub nsec : strict_mtime ≡ true → s.src_mtime.nsec ≡ e.mtime.nsec
  pub chunk_size : s.chunk_size ≡ pos (chunk_size_for e.size)
  pub chunk_count : s.chunk_count ≡ entry_chunks e
  pub path : s.path ≡ e.rel_path

-- Validate returns no error exactly if the sidecar has the version of this build and describes the entry: the same
-- path, size, number of chunks and, where asked for, modification time, with the chunk size of that file size.
pub validate_iff :
    (s : Sidecar) (e : Entry) (strict_mtime : Bool)
    → (validate s e strict_mtime ≡ none) ↔ Describes s e strict_mtime
unfolding validate
validate_iff s e strict = (accepts, describes)
  where
    same_sec :
        (b : Bool)
        → (b ≡ true → s.src_mtime.sec ≡ e.mtime.sec)
        → (b && not (int_eq s.src_mtime.sec e.mtime.sec)) ≡ false
    same_sec false h = refl
    same_sec true h = rw (h refl, int_eq_self e.mtime.sec)

    accepts : validate s e strict ≡ none → Describes s e strict
    accepts h = record {
      version_is = ground arith;
      size = int_eq→eq _ _ (ground arith);
      sec = λ on. int_eq→eq _ _ (ground arith);
      nsec = λ on. ground arith;
      chunk_size = int_eq→eq _ _ (ground arith);
      chunk_count = ground arith;
      path = bytes_eq→eq _ _ (ground arith);
    }

    describes : Describes s e strict → validate s e strict ≡ none
    describes d =
        let size : int_eq s.src_size e.size ≡ true = rw d.size (int_eq_self e.size) in
        let grid : int_eq s.chunk_size (pos (chunk_size_for e.size)) ≡ true =
          rw d.chunk_size (int_eq_self (pos (chunk_size_for e.size))) in
        let path : bytes_eq s.path e.rel_path ≡ true = rw d.path (bytes_eq_self e.rel_path) in
        let sec : (strict && not (int_eq s.src_mtime.sec e.mtime.sec)) ≡ false =
          same_sec strict d.sec in
        ground (arith, d.version_is, d.chunk_count, d.nsec, size, grid, path, sec)
