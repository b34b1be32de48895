-- ===== src/Protocol/EntryRoundTrip.antt =====
-- DecodeEntry gives what EncodeEntry put on the wire, and DecodeManifestBatch a whole batch.
use botjim.Prelude.{
  ltb-of_le, ℕ, ◌-◌, ◌^◌, ◌<◌, ◌≤◌, ◌≡◌, ap, refl, arith, [], Bytes, length, length-append, All,
  All-map, ◌++◌, map,
}
use botjim.Prelude.Int.{ℤ, pos}
use botjim.Wire.Varint.{IsI64}
use botjim.Wire.Words.{to_u32, to_u64-lt, to_u32-lt, to_i64-to_u64, to_u32-pos}
use botjim.Wire.Decoder.{ok, pure, Decoder, read, close}
use botjim.Wire.Reads.{
  Reads, Reads-bind, Reads-last, Reads-pure, Reads-silent, Reads-each, Reads-u8, Reads-u32,
  Reads-u64, Reads-uv, Reads-sv, Reads-bytes, Reads-repeat, Reads-unless, decode-Reads, drop-append,
}
use botjim.Protocol.Messages.{low32}
use botjim.Protocol.RoundTrip.{Fits, low32_lem}
use botjim.Protocol.Entry.{
  Extra, no_extra, extra_of, put_extra, read_extra, put_xattr, xattr, encode_entry, known_kind,
  entry, decode_entry, ManifestBatch, encode_manifest_batch, one_entry, decode_manifest_batch,
}
use botjim.Manifest.{
  Kind, regular, dir, symlink, hardlink, fifo, char_dev, block_dev, socket, kind_code,
  kind_of_code-kind_code, Xattr, Entry,
}

-- What the wire carries of the fields that depend on the kind.
abbrev pub carried : Kind → Extra → Extra
carried regular x = record no_extra {
  size = x.size;
  dev = x.dev;
  ino = x.ino;
  chunk_size = x.chunk_size;
}
carried hardlink x = record no_extra { link_ref_id = x.link_ref_id }
carried symlink x = record no_extra { link_target = x.link_target }
carried fifo x = record no_extra { rdev = x.rdev }
carried char_dev x = record no_extra { rdev = x.rdev }
carried block_dev x = record no_extra { rdev = x.rdev }
carried dir x = no_extra
carried socket x = no_extra

-- The entry that the receiver gets: no absolute path, and no field that its kind does not use.
abbrev pub received : Entry → Entry
received e =
    let x = carried e.kind (extra_of e) in
    record e {
      abs_path = [];
      size = x.size;
      dev = x.dev;
      ino = x.ino;
      chunk_size = x.chunk_size;
      link_target = x.link_target;
      link_ref_id = x.link_ref_id;
      rdev = x.rdev;
    }

abbrev pub IsChunkSize : ℤ → Type 0
IsChunkSize c = (n : ℕ) × (c ≡ pos n) × (n < 2 ^ 32)

abbrev pub IsXattr : Xattr → Type 0
IsXattr x = Fits x.name × Fits x.value

pub record IsExtra (x : Extra) : Type 0 where
  pub size : IsI64 x.size
  pub dev : x.dev < 2 ^ 64
  pub ino : x.ino < 2 ^ 64
  pub chunk_size : IsChunkSize x.chunk_size
  pub link_target : Fits x.link_target
  pub link_ref_id : x.link_ref_id < 2 ^ 32
  pub rdev : x.rdev < 2 ^ 64

pub record IsEntry (e : Entry) : Type 0 where
  pub id : e.id < 2 ^ 32
  pub rel_path : Fits e.rel_path
  pub mode : e.mode < 2 ^ 32
  pub uid : e.uid < 2 ^ 32
  pub gid : e.gid < 2 ^ 32
  pub uname : Fits e.uname
  pub gname : Fits e.gname
  pub mtime_sec : IsI64 e.mtime.sec
  pub mtime_nsec : e.mtime.nsec < 2 ^ 32
  pub atime_sec : IsI64 e.atime.sec
  pub atime_nsec : e.atime.nsec < 2 ^ 32
  pub extra : IsExtra (extra_of e)
  pub count : length e.xattrs ≤ 1024
  pub xattrs : All IsXattr e.xattrs

chunk_size-eq : (c : ℤ) → IsChunkSize c → pos (to_u32 c) ≡ c
chunk_size-eq c (n, e, h) = rw e (ap pos (to_u32-pos n h))

Reads-read_extra :
    (k : Kind) (x : Extra) → IsExtra x → Reads (read_extra k) (put_extra k x) (carried k x)
unfolding read_extra put_extra
Reads-read_extra regular x h = Reads-bind _ (Reads-u64 (to_u64-lt x.size)) (
    Reads-bind _ (Reads-u64 h.dev) (
      Reads-bind _ (Reads-u64 h.ino) (
        Reads-last _ (Reads-u32 (to_u32-lt x.chunk_size))
          (rw (to_i64-to_u64 x.size h.size, chunk_size-eq x.chunk_size h.chunk_size)))))
Reads-read_extra hardlink x h =
    Reads-last _ (Reads-uv (omega (arith, h.link_ref_id)))
      (rw (low32_lem x.link_ref_id h.link_ref_id))
Reads-read_extra symlink x h = Reads-last _ (Reads-bytes h.link_target) refl
Reads-read_extra fifo x h = Reads-last _ (Reads-u64 h.rdev) refl
Reads-read_extra char_dev x h = Reads-last _ (Reads-u64 h.rdev) refl
Reads-read_extra block_dev x h = Reads-last _ (Reads-u64 h.rdev) refl
Reads-read_extra dir x h = Reads-pure
Reads-read_extra socket x h = Reads-pure

Reads-xattr : (x : Xattr) → IsXattr x → Reads xattr (put_xattr x) x
unfolding xattr put_xattr
Reads-xattr x (hn, hv) = Reads-bind _ (Reads-bytes hn) (Reads-last _ (Reads-bytes hv) refl)

known_kind_lem : (k : Kind) (d : Decoder) → known_kind (kind_code k) d ≡ read k d
unfolding known_kind
known_kind_lem k d = rw (kind_of_code-kind_code, known_kind) (unfold pure in refl)

kind_code-lt : (k : Kind) → kind_code k < 2 ^ 8
unfolding kind_code
kind_code-lt regular = omega arith
kind_code-lt _ = omega arith

-- The fields as the decoder narrows them.
narrowed :
    (e : Entry)
    → IsEntry e
    → (low32 e.id ≡ e.id)
      × (to_u32 (pos e.uid) ≡ e.uid)
      × (to_u32 (pos e.gid) ≡ e.gid)
      × (low32 e.mtime.nsec ≡ e.mtime.nsec)
      × (low32 e.atime.nsec ≡ e.atime.nsec)
narrowed e h = (
  low32_lem e.id h.id,
  to_u32-pos e.uid h.uid,
  to_u32-pos e.gid h.gid,
  low32_lem e.mtime.nsec h.mtime_nsec,
  low32_lem e.atime.nsec h.atime_nsec,
)

pub Reads-entry : (e : Entry) → IsEntry e → Reads entry (encode_entry e) (received e)
unfolding entry encode_entry
Reads-entry e h = Reads-bind _ (Reads-u8 (kind_code-lt e.kind)) (
    Reads-bind _ (Reads-bytes h.rel_path) (
      Reads-bind _ (Reads-uv (omega (arith, h.id))) (
        Reads-bind _ (Reads-u32 h.mode) (
          Reads-bind _ (Reads-sv (omega (arith, h.uid))) (
            Reads-bind _ (Reads-sv (omega (arith, h.gid))) (
              Reads-bind _ (Reads-bytes h.uname) (
                Reads-bind _ (Reads-bytes h.gname) (
                  Reads-bind _ (Reads-sv h.mtime_sec) (
                    Reads-bind _ (Reads-uv (omega (arith, h.mtime_nsec))) (
                      Reads-bind _ (Reads-sv h.atime_sec) (
                        Reads-bind _ (Reads-uv (omega (arith, h.atime_nsec))) (
                          Reads-silent _ _ e.kind (known_kind_lem e.kind) (
                            Reads-bind _ (Reads-read_extra e.kind (extra_of e) h.extra) (
                              Reads-bind _ (Reads-uv (omega (arith, h.count))) (
                                Reads-unless _ (ltb-of_le _ _ h.count) (
                                  Reads-last _
                                    (Reads-repeat xattr put_xattr e.xattrs
                                      (All-map IsXattr _ e.xattrs Reads-xattr h.xattrs))
                                    (let (id, uid, gid, mtime, atime) = narrowed e h in
                                      rw (id, uid, gid, mtime, atime))))))))))))))))))

-- An encoded entry whose fields fit decodes, whatever follows it, to the entry that the receiver
-- gets and to the length of its encoding.
pub entry_roundtrip :
    (e : Entry) (rest : Bytes)
    → IsEntry e
    → decode_entry (encode_entry e ++ rest) ≡ ok (received e, length (encode_entry e))
unfolding decode_entry close
entry_roundtrip e rest h =
    let used : length (encode_entry e ++ rest) - length rest ≡ length (encode_entry e) =
      omega (arith, length-append (encode_entry e) rest) in
    rw ((Reads-entry e h).reads rest, decode_entry) (rw used)

Reads-one_entry : (e : Entry) → IsEntry e → Reads one_entry (encode_entry e) (received e)
unfolding one_entry
Reads-one_entry e h = record {
  reads = λ rest. rw (entry_roundtrip e rest h, one_entry) (rw (drop-append (encode_entry e) rest));
}

-- A batch of at most 4096 entries whose fields fit decodes to the entries that the receiver gets, in order.
pub manifest_batch_roundtrip :
    (m : ManifestBatch)
    → length m.entries ≤ 4096
    → All IsEntry m.entries
    → decode_manifest_batch (encode_manifest_batch m)
      ≡ ok (record { entries = map received m.entries })
unfolding decode_manifest_batch encode_manifest_batch
manifest_batch_roundtrip m count h = decode-Reads (
    Reads-bind _ (Reads-uv (omega (arith, count))) (
      Reads-unless _ (ltb-of_le _ _ count) (
        Reads-last _
          (Reads-each one_entry encode_entry received m.entries
            (All-map IsEntry _ m.entries Reads-one_entry h))
          refl)))
