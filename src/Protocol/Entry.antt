-- ===== src/Protocol/Entry.antt =====
-- internal/protocol/messages.go: EncodeEntry and DecodeEntry, and the batches of them.
use botjim.Prelude.{ℕ, ◌-◌, none, some, List, [], Bytes, length, drop, ltb, if◌then◌else◌}
use botjim.Prelude.Int.{ℤ, pos}
use botjim.Wire.Words.{to_u64, to_i64, to_u32}
use botjim.Wire.Encoder.{
  ◌then◌, done, put_u8, put_u32, put_u64, put_uv, put_sv, put_bytes, put_str, each,
}
use botjim.Wire.Decoder.{
  Result, ok, err, M, ◌>>=◌, pure, refuse, read, stop, fresh, close, u8, u32, u64, uv, sv, bytes,
  str, decode, unless, repeat, too_many_xattrs, batch_too_large, bad_kind,
}
use botjim.Protocol.Messages.{low32}
use botjim.Manifest.{
  Kind, regular, dir, symlink, hardlink, fifo, char_dev, block_dev, socket, kind_code, kind_of_code,
  Xattr, Entry,
}

-- The fields that only some kinds carry.
pub record Extra : Type 0 where
  pub size : ℤ
  pub dev : ℕ
  pub ino : ℕ
  pub chunk_size : ℤ
  pub link_target : Bytes
  pub link_ref_id : ℕ
  pub rdev : ℕ

abbrev pub no_extra : Extra
no_extra = record {
  size = pos 0;
  dev = 0;
  ino = 0;
  chunk_size = pos 0;
  link_target = [];
  link_ref_id = 0;
  rdev = 0;
}

-- The first switch on the kind. `uint32(e.ChunkSize)` truncates.
unfoldable pub put_extra : Kind → Extra → Bytes
put_extra regular e =
    put_u64 (to_u64 e.size) then put_u64 e.dev then put_u64 e.ino then put_u32 (to_u32 e.chunk_size)
put_extra hardlink e = put_uv e.link_ref_id
put_extra symlink e = put_str e.link_target
put_extra fifo e = put_u64 e.rdev
put_extra char_dev e = put_u64 e.rdev
put_extra block_dev e = put_u64 e.rdev
put_extra dir e = done
put_extra socket e = done

unfoldable pub put_xattr : Xattr → Bytes
put_xattr x = put_str x.name then put_bytes x.value

abbrev pub extra_of : Entry → Extra
extra_of e = record {
  size = e.size;
  dev = e.dev;
  ino = e.ino;
  chunk_size = e.chunk_size;
  link_target = e.link_target;
  link_ref_id = e.link_ref_id;
  rdev = e.rdev;
}

unfoldable pub encode_entry : Entry → Bytes
encode_entry e =
    put_u8 (kind_code e.kind)
    then put_str e.rel_path
    then put_uv e.id
    then put_u32 e.mode
    then put_sv (pos e.uid)
    then put_sv (pos e.gid)
    then put_str e.uname
    then put_str e.gname
    then put_sv e.mtime.sec
    then put_uv e.mtime.nsec
    then put_sv e.atime.sec
    then put_uv e.atime.nsec
    then put_extra e.kind (extra_of e)
    then put_uv (length e.xattrs)
    then each put_xattr e.xattrs

-- The second switch.
unfoldable pub read_extra : Kind → M Extra
read_extra regular = do
  size ← u64
  dev ← u64
  ino ← u64
  chunk_size ← u32
  pure (record {
    size = to_i64 size;
    dev = dev;
    ino = ino;
    chunk_size = pos chunk_size;
    link_target = [];
    link_ref_id = 0;
    rdev = 0;
  })
read_extra hardlink = do ref ← uv; pure (record no_extra { link_ref_id = low32 ref })
read_extra symlink = do target ← str; pure (record no_extra { link_target = target })
read_extra fifo = do rdev ← u64; pure (record no_extra { rdev = rdev })
read_extra char_dev = do rdev ← u64; pure (record no_extra { rdev = rdev })
read_extra block_dev = do rdev ← u64; pure (record no_extra { rdev = rdev })
read_extra dir = pure no_extra
read_extra socket = pure no_extra

unfoldable pub xattr : M Xattr
xattr = do name ← str; value ← bytes; pure (record { name = name; value = value })

-- `default: return e, 0, fmt.Errorf("bad entry kind %d", e.Kind)`
unfoldable pub known_kind : ℕ → M Kind
known_kind code = elim (kind_of_code code) [ some k ↦ pure k | none ↦ refuse (bad_kind code) ]

unfoldable pub entry : M Entry
entry = do
  code ← u8
  rel_path ← str
  id ← uv
  mode ← u32
  uid ← sv
  gid ← sv
  uname ← str
  gname ← str
  mtime_sec ← sv
  mtime_nsec ← uv
  atime_sec ← sv
  atime_nsec ← uv
  kind ← known_kind code
  extra ← read_extra kind
  nx ← uv
  unless (ltb 1024 nx) (too_many_xattrs nx) (do
    xattrs ← repeat nx xattr
    pure (record {
      id = low32 id;
      kind = kind;
      rel_path = rel_path;
      abs_path = [];
      mode = mode;
      uid = to_u32 uid;
      gid = to_u32 gid;
      uname = uname;
      gname = gname;
      mtime = record { sec = mtime_sec; nsec = low32 mtime_nsec };
      atime = record { sec = atime_sec; nsec = low32 atime_nsec };
      size = extra.size;
      dev = extra.dev;
      ino = extra.ino;
      chunk_size = extra.chunk_size;
      link_target = extra.link_target;
      link_ref_id = extra.link_ref_id;
      rdev = extra.rdev;
      xattrs = xattrs;
    }))

-- The entry and the number of bytes consumed.
unfoldable pub decode_entry : Bytes → Result (Entry × ℕ)
unfolding entry close
decode_entry p = elim (entry (fresh p)) [
  | read e d ↦ close (e, length p - length d.b) d
  | stop e ↦ err e
]

pub record ManifestBatch : Type 0 where
  pub entries : List Entry

unfoldable pub encode_manifest_batch : ManifestBatch → Bytes
encode_manifest_batch m = put_uv (length m.entries) then each encode_entry m.entries

-- The loop of DecodeManifestBatch: each entry is decoded from `d.b` by a cursor of its own, and
-- `d.b` then moves on by what was consumed.
unfoldable pub one_entry : M Entry
unfolding decode_entry
one_entry d = elim (decode_entry d.b) [
  | ok (e, used) ↦ read e (record d { b = drop used d.b })
  | err e ↦ stop e
]

unfoldable pub manifest_batch : M ManifestBatch
manifest_batch = do
  n ← uv
  unless (ltb 4096 n) (batch_too_large n)
      (do entries ← repeat n one_entry; pure (record { entries = entries }))

unfoldable pub decode_manifest_batch : Bytes → Result ManifestBatch
unfolding manifest_batch
decode_manifest_batch = decode manifest_batch
