-- ===== src/Rotation.antt =====
-- `FileTransport`, `logquill/transports/file_transport.py`: writing lines and rotating files. The
-- files of one directory are a dict: 0 is `path`, and n is `path.n`. A line is what goes to the disk
-- for a record, encrypted or not, and its size in bytes is a parameter. Each call holds the lock.
pub mod Files
pub mod Chunks
pub mod Keeps
use logquill_python.Base.{
  ℕ, zero, suc, ◌+◌, ◌-◌, String, nat_eq, Bool, ◌&&◌, Option, none, some, List, [], ◌∷◌, ◌++◌, leb,
  ltb, if◌then◌else◌,
}
use logquill_python.Dict.{Dict, get, put, remove, set_default}

-- the lines of a file
abbrev pub Chunk : Type 0
Chunk = List String

abbrev pub FileMap : Type 0
FileMap = Dict ℕ Chunk

pub record FileTransport : Type 0 where
  pub files : FileMap
  pub max_bytes : ℕ
  pub backup_count : ℕ

-- `_open`: the mode `a` makes the file if it is not there
unfoldable pub open_file : FileMap → FileMap
open_file files = set_default files 0 []

-- `__init__`
unfoldable pub new : FileMap → ℕ → ℕ → FileTransport
unfolding open_file
new files max_bytes backup_count = record {
  files = open_file files;
  max_bytes = max_bytes;
  backup_count = backup_count;
}

-- what is moved, if it is there
unfoldable pub moved : FileMap → ℕ → ℕ → Option Chunk → FileMap
moved files src dst none = files
moved files src dst (some chunk) = put (remove (remove files dst) src) dst chunk

-- `if src.exists(): dst.unlink(missing_ok=True); src.rename(dst)`
unfoldable pub rename : FileMap → ℕ → ℕ → FileMap
unfolding moved
rename files src dst = moved files src dst (get files src)

-- `for index in range(count, 0, -1)`
unfoldable pub shift : ℕ → FileMap → FileMap
unfolding rename
shift zero files = files
shift (suc index) files = shift index (rename files (suc index) (suc (suc index)))

-- the files that `_rotate` leaves before it opens the new one
unfoldable pub push_back : ℕ → FileMap → FileMap
unfolding shift rename
push_back zero files = remove files 0
push_back (suc count) files = rename (shift count files) 0 1

-- `_rotate`
unfoldable pub rotate : FileTransport → FileTransport
unfolding push_back open_file
rotate t = record t { files = open_file (push_back t.backup_count t.files) }

abbrev pub chunk_or_nil : Option Chunk → Chunk
chunk_or_nil none = []
chunk_or_nil (some chunk) = chunk

module _ (size_of : String → ℕ) where
  abbrev pub size : Chunk → ℕ
  size [] = 0
  size (line ∷ chunk) = size_of line + size chunk

  -- the line behind those of the open file
  unfoldable pub append_line : FileTransport → String → FileTransport
  append_line t line = record t {
    files = put t.files 0 (chunk_or_nil (get t.files 0) ++ line ∷ []);
  }

  -- `0 < self.max_bytes <= self._file.tell()`
  abbrev pub is_full : FileTransport → Bool
  is_full t = ltb 0 t.max_bytes && leb t.max_bytes (size (chunk_or_nil (get t.files 0)))

  -- `write`
  unfoldable pub write : FileTransport → String → FileTransport
  unfolding append_line rotate
  write t line = let t' = append_line t line in if is_full t' then rotate t' else t'

  unfoldable pub write_all : FileTransport → List String → FileTransport
  unfolding write
  write_all t [] = t
  write_all t (line ∷ lines) = write_all (write t line) lines
