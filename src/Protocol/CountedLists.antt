-- ===== src/Protocol/CountedLists.antt =====
-- InitTransfer, HaveBitmap and ListResp are read back as they were written, within the limits that
-- their decoders put on the counts.
use botjim.Prelude.{
  ltb-of_le, ◌^◌, ◌<◌, ◌≤◌, ◌≡◌, ◌⊎◌, refl, arith, false, Bytes, length, take, drop, ltb, All,
  All-map, ◌++◌,
}
use botjim.Wire.Varint.{IsI64}
use botjim.Wire.Encoder.{put_raw, put_bytes}
use botjim.Wire.Decoder.{ok, bytes}
use botjim.Wire.Reads.{
  Reads, Reads-bind, Reads-last, Reads-u8, Reads-u16, Reads-u32, Reads-u64, Reads-uv, Reads-sv,
  Reads-bytes, Reads-repeat, Reads-unless, decode-Reads, not_short, take-append, drop-append,
}
use botjim.Protocol.RoundTrip.{Fits, flag-lt, flag-eq, low32_lem}
use botjim.Protocol.Init.{
  dir_push, dir_pull, InitTransfer, encode_init_transfer, init_transfer, check_direction,
  decode_init_transfer, HaveBitmap, encode_have_bitmap, raw_hash, decode_have_bitmap, ListEntry,
  put_list_entry, list_entry, ListResp, encode_list_resp, decode_list_resp,
}

pub record IsInitTransfer (m : InitTransfer) : Type 0 where
  pub dir : (m.dir ≡ dir_push) ⊎ (m.dir ≡ dir_pull)
  pub compression : m.compression < 2 ^ 8
  pub zstd_level : m.zstd_level < 2 ^ 8
  pub chunk_policy : m.chunk_policy < 2 ^ 8
  pub preserve : m.preserve < 2 ^ 16
  pub parallel : m.parallel < 2 ^ 8
  pub resume : m.resume < 2 ^ 8
  pub root_name : Fits m.root_name
  pub count : length m.paths ≤ 4096
  pub paths : All Fits m.paths

init_fields : (m : InitTransfer) → IsInitTransfer m → Reads init_transfer (encode_init_transfer m) m
unfolding init_transfer encode_init_transfer
init_fields m h = Reads-bind _ (Reads-u8 (omega (arith, h.dir))) (
    Reads-bind _ (Reads-u8 h.compression) (
      Reads-bind _ (Reads-u8 h.zstd_level) (
        Reads-bind _ (Reads-u8 h.chunk_policy) (
          Reads-bind _ (Reads-u16 h.preserve) (
            Reads-bind _ (Reads-u8 h.parallel) (
              Reads-bind _ (Reads-u8 h.resume) (
                Reads-bind _ (Reads-bytes h.root_name) (
                  Reads-bind _ (Reads-uv (omega (arith, h.count))) (
                    Reads-unless _ (ltb-of_le _ _ h.count) (
                      Reads-last _
                        (Reads-repeat bytes put_bytes m.paths
                          (All-map Fits _ m.paths (λ p hp. Reads-bytes hp) h.paths))
                        refl))))))))))

-- An InitTransfer whose fields fit, with at most 4096 paths, is read back as it was written.
pub init_transfer_roundtrip :
    (m : InitTransfer) → IsInitTransfer m → decode_init_transfer (encode_init_transfer m) ≡ ok m
unfolding decode_init_transfer check_direction
init_transfer_roundtrip m h =
    rw (decode-Reads (init_fields m h), check_direction) (ground (arith, h.dir))

pub record IsHaveBitmap (m : HaveBitmap) : Type 0 where
  pub file_id : m.file_id < 2 ^ 32
  pub status : m.status < 2 ^ 8
  pub bitmap : Fits m.bitmap
  pub count : length m.hashes ≤ 2 ^ 20
  pub hashes : All (λ p. length p ≡ 32) m.hashes

Reads-raw_hash : (p : Bytes) → length p ≡ 32 → Reads raw_hash (put_raw p) p
unfolding raw_hash put_raw
Reads-raw_hash p h = record {
  reads = λ rest.
      let enough : ltb (length (p ++ rest)) 32 ≡ false = rw h at (not_short p rest) in
      let front : take 32 (p ++ rest) ≡ p = rw h at (take-append p rest) in
      let back : drop 32 (p ++ rest) ≡ rest = rw h at (drop-append p rest) in
      rw (enough, front, back);
}

-- A HaveBitmap whose fields fit, with at most 2^20 hashes, is read back as it was written.
pub have_bitmap_roundtrip :
    (m : HaveBitmap) → IsHaveBitmap m → decode_have_bitmap (encode_have_bitmap m) ≡ ok m
unfolding decode_have_bitmap encode_have_bitmap
have_bitmap_roundtrip m h = decode-Reads (
    Reads-bind _ (Reads-uv (omega (arith, h.file_id))) (
      Reads-bind _ (Reads-u8 h.status) (
        Reads-bind _ (Reads-bytes h.bitmap) (
          Reads-bind _ (Reads-uv (omega (arith, h.count))) (
            Reads-unless _ (ltb-of_le _ _ h.count) (
              Reads-last _
                (Reads-repeat raw_hash put_raw m.hashes
                  (All-map _ _ m.hashes Reads-raw_hash h.hashes))
                (ground (arith, low32_lem m.file_id))))))))

pub record IsListEntry (le : ListEntry) : Type 0 where
  pub name : Fits le.name
  pub size : le.size < 2 ^ 64
  pub mtime_ms : IsI64 le.mtime_ms
  pub mode : le.mode < 2 ^ 16

Reads-list_entry : (le : ListEntry) → IsListEntry le → Reads list_entry (put_list_entry le) le
unfolding list_entry put_list_entry
Reads-list_entry le h = Reads-bind _ (Reads-bytes h.name) (
    Reads-bind _ (Reads-u8 (flag-lt le.is_dir)) (
      Reads-bind _ (Reads-u64 h.size) (
        Reads-bind _ (Reads-sv h.mtime_ms)
          (Reads-last _ (Reads-u16 h.mode) (ground (arith, flag-eq le.is_dir))))))

pub record IsListResp (m : ListResp) : Type 0 where
  pub total : m.total < 2 ^ 32
  pub count : length m.entries ≤ 65536
  pub entries : All IsListEntry m.entries

-- A ListResp whose fields fit, with at most 65536 entries, is read back as it was written.
pub list_resp_roundtrip :
    (m : ListResp) → IsListResp m → decode_list_resp (encode_list_resp m) ≡ ok m
unfolding decode_list_resp encode_list_resp
list_resp_roundtrip m h = decode-Reads (
    Reads-bind _ (Reads-u32 h.total) (
      Reads-bind _ (Reads-u8 (flag-lt m.truncated)) (
        Reads-bind _ (Reads-uv (omega (arith, h.count))) (
          Reads-unless _ (ltb-of_le _ _ h.count) (
            Reads-last _
              (Reads-repeat list_entry put_list_entry m.entries
                (All-map _ _ m.entries Reads-list_entry h.entries))
              (ground (arith, flag-eq m.truncated)))))))
