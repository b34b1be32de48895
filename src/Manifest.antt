-- ===== src/Manifest.antt =====
-- internal/manifest/manifest.go: the data of the transfer manifest.
pub mod Roots
mod Tests
use botjim.Prelude.{ℕ, ◌≡◌, refl, List, [], ◌∷◌, Bytes, ◌==◌, Option, none, some, if◌then◌else◌}
use botjim.Prelude.Int.{ℤ}

pub data Kind : Type 0 where
  regular dir symlink hardlink fifo char_dev block_dev socket : Kind

-- The iota of the constants.
unfoldable pub kind_code : Kind → ℕ
kind_code regular = 0
kind_code dir = 1
kind_code symlink = 2
kind_code hardlink = 3
kind_code fifo = 4
kind_code char_dev = 5
kind_code block_dev = 6
kind_code socket = 7

-- The constant that a byte on the wire names, if any.
unfoldable pub kind_of_code : ℕ → Option Kind
kind_of_code n =
    if n == 0
    then some regular
    else if n == 1
    then some dir
    else if n == 2
    then some symlink
    else if n == 3
    then some hardlink
    else if n == 4
    then some fifo
    else if n == 5
    then some char_dev
    else if n == 6
    then some block_dev
    else if n == 7
    then some socket
    else none

-- The names of Kind.String, in bytes.
unfoldable pub kind_name : Kind → Bytes
kind_name regular = 102 ∷ 105 ∷ 108 ∷ 101 ∷ []
kind_name dir = 100 ∷ 105 ∷ 114 ∷ []
kind_name symlink = 115 ∷ 121 ∷ 109 ∷ 108 ∷ 105 ∷ 110 ∷ 107 ∷ []
kind_name hardlink = 104 ∷ 97 ∷ 114 ∷ 100 ∷ 108 ∷ 105 ∷ 110 ∷ 107 ∷ []
kind_name fifo = 102 ∷ 105 ∷ 102 ∷ 111 ∷ []
kind_name char_dev = 99 ∷ 104 ∷ 97 ∷ 114 ∷ 100 ∷ 101 ∷ 118 ∷ []
kind_name block_dev = 98 ∷ 108 ∷ 111 ∷ 99 ∷ 107 ∷ 100 ∷ 101 ∷ 118 ∷ []
kind_name socket = 115 ∷ 111 ∷ 99 ∷ 107 ∷ 101 ∷ 116 ∷ []

pub kind_of_code-kind_code : (k : Kind) → kind_of_code (kind_code k) ≡ some k
unfolding kind_of_code kind_code
kind_of_code-kind_code regular = refl
kind_of_code-kind_code _ = refl

pub record Timespec : Type 0 where
  pub sec : ℤ
  pub nsec : ℕ

pub record Xattr : Type 0 where
  pub name : Bytes
  pub value : Bytes

pub record Entry : Type 0 where
  pub id : ℕ
  pub kind : Kind
  pub rel_path : Bytes
  pub abs_path : Bytes
  pub mode : ℕ
  pub uid : ℕ
  pub gid : ℕ
  pub uname : Bytes
  pub gname : Bytes
  pub mtime : Timespec
  pub atime : Timespec
  pub size : ℤ
  pub dev : ℕ
  pub ino : ℕ
  pub chunk_size : ℤ
  pub link_target : Bytes
  pub link_ref_id : ℕ
  pub rdev : ℕ
  pub xattrs : List Xattr
