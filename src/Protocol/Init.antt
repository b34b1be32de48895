-- ===== src/Protocol/Init.antt =====
-- internal/protocol/messages.go: InitTransfer, HaveBitmap and ListResp, whose decoders loop over
-- a counted list.
use botjim.Prelude.{
  ℕ, ◌^◌, Bool, ◌&&◌, not, List, Bytes, length, take, drop, ◌==◌, ltb, if◌then◌else◌,
}
use botjim.Prelude.Int.{ℤ}
use botjim.Wire.Encoder.{
  ◌then◌, put_u8, put_u16, put_u32, put_u64, put_uv, put_sv, put_bytes, put_str, put_raw, each,
}
use botjim.Wire.Decoder.{
  Result, ok, err, M, ◌>>=◌, pure, read, stop, u8, u16, u32, u64, uv, sv, bytes, str, decode,
  unless, repeat, too_many_paths, too_many_hashes, list_too_large, bad_direction, short_hash,
}
use botjim.Protocol.Messages.{flag, low32}

abbrev pub dir_push : ℕ
dir_push = 0

abbrev pub dir_pull : ℕ
dir_pull = 1

pub record InitTransfer : Type 0 where
  pub dir : ℕ
  pub compression : ℕ
  pub zstd_level : ℕ
  pub chunk_policy : ℕ
  pub preserve : ℕ
  pub parallel : ℕ
  pub resume : ℕ
  pub root_name : Bytes
  pub paths : List Bytes

unfoldable pub encode_init_transfer : InitTransfer → Bytes
encode_init_transfer m =
    put_u8 m.dir
    then put_u8 m.compression
    then put_u8 m.zstd_level
    then put_u8 m.chunk_policy
    then put_u16 m.preserve
    then put_u8 m.parallel
    then put_u8 m.resume
    then put_str m.root_name
    then put_uv (length m.paths)
    then each put_bytes m.paths

unfoldable pub init_transfer : M InitTransfer
init_transfer = do
  dir ← u8
  compression ← u8
  zstd_level ← u8
  chunk_policy ← u8
  preserve ← u16
  parallel ← u8
  resume ← u8
  root_name ← str
  n ← uv
  unless (ltb 4096 n) (too_many_paths n) (do
    paths ← repeat n bytes
    pure (record {
      dir = dir;
      compression = compression;
      zstd_level = zstd_level;
      chunk_policy = chunk_policy;
      preserve = preserve;
      parallel = parallel;
      resume = resume;
      root_name = root_name;
      paths = paths;
    }))

-- `if m.Dir != DirPush && m.Dir != DirPull`, after the check of `d.err`.
unfoldable pub check_direction : Result InitTransfer → Result InitTransfer
check_direction (err e) = err e
check_direction (ok m) =
    if not (m.dir == dir_push) && not (m.dir == dir_pull) then err (bad_direction m.dir) else ok m

unfoldable pub decode_init_transfer : Bytes → Result InitTransfer
unfolding init_transfer check_direction
decode_init_transfer p = check_direction (decode init_transfer p)

-- A hash is 32 bytes.
pub record HaveBitmap : Type 0 where
  pub file_id : ℕ
  pub status : ℕ
  pub bitmap : Bytes
  pub hashes : List Bytes

unfoldable pub encode_have_bitmap : HaveBitmap → Bytes
encode_have_bitmap m =
    put_uv m.file_id
    then put_u8 m.status
    then put_bytes m.bitmap
    then put_uv (length m.hashes)
    then each put_raw m.hashes

-- The loop's own length test returns at once; it does not look at `d.err`.
unfoldable pub raw_hash : M Bytes
raw_hash d =
    if ltb (length d.b) 32
    then stop short_hash
    else read (take 32 d.b) (record d { b = drop 32 d.b })

unfoldable pub have_bitmap : M HaveBitmap
have_bitmap = do
  file_id ← uv
  status ← u8
  bitmap ← bytes
  nh ← uv
  unless (ltb (2 ^ 20) nh) (too_many_hashes nh) (do
    hashes ← repeat nh raw_hash
    pure (record { file_id = low32 file_id; status = status; bitmap = bitmap; hashes = hashes }))

unfoldable pub decode_have_bitmap : Bytes → Result HaveBitmap
unfolding have_bitmap
decode_have_bitmap = decode have_bitmap

pub record ListEntry : Type 0 where
  pub name : Bytes
  pub is_dir : Bool
  pub size : ℕ
  pub mtime_ms : ℤ
  pub mode : ℕ

unfoldable pub put_list_entry : ListEntry → Bytes
put_list_entry le =
    put_str le.name
    then put_u8 (flag le.is_dir)
    then put_u64 le.size
    then put_sv le.mtime_ms
    then put_u16 le.mode

unfoldable pub list_entry : M ListEntry
list_entry = do
  name ← str
  is_dir ← u8
  size ← u64
  mtime_ms ← sv
  mode ← u16
  pure (record { name = name; is_dir = is_dir == 1; size = size; mtime_ms = mtime_ms; mode = mode })

pub record ListResp : Type 0 where
  pub total : ℕ
  pub truncated : Bool
  pub entries : List ListEntry

unfoldable pub encode_list_resp : ListResp → Bytes
encode_list_resp m =
    put_u32 m.total
    then put_u8 (flag m.truncated)
    then put_uv (length m.entries)
    then each put_list_entry m.entries

unfoldable pub list_resp : M ListResp
list_resp = do
  total ← u32
  truncated ← u8
  n ← uv
  unless (ltb 65536 n) (list_too_large n) (do
    entries ← repeat n list_entry
    pure (record { total = total; truncated = truncated == 1; entries = entries }))

unfoldable pub decode_list_resp : Bytes → Result ListResp
unfolding list_resp
decode_list_resp = decode list_resp
