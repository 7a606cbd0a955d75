-- ===== src/FileUtils/System.antt =====
-- The operating system's calls that file_utils.cpp makes, as a parameter: what each call can answer,
-- and the documented behaviour that the theorems rely on.
use ch_frb_l.Base.{◌≡◌, ◌≢◌, ◌⊎◌, Text}

-- stat(2): a directory, another file, ENOENT, or another errno with its strerror().
pub data Stat : Type 0 where
  directory other_file missing : Stat
  stat_error : Text → Stat

-- mkdir(2): success, EEXIST, or another errno.
pub data Mkdir : Type 0 where
  created already_exists : Mkdir
  mkdir_error : Text → Mkdir

-- The answers of readdir_r() on an open directory, in order.
pub data DirStream : Type 0 where
  end_of_directory read_error : DirStream
  entry : Text → DirStream → DirStream

-- opendir(3): the open stream, or an errno.
pub data Opendir : Type 0 where
  opened : DirStream → Opendir
  open_error : Text → Opendir

-- The name stands in the stream.
abbrev pub Listed : Text → DirStream → Type 0
Listed n end_of_directory = ⊥
Listed n read_error = ⊥
Listed n (entry m d) = (m ≡ n) ⊎ Listed n d

-- A file system has a state, and calls that ask or change it.
pub record FileSystem : Type 1 where
  pub State : Type 0
  pub stat : State → Text → Stat
  pub mkdir : State → Text → Mkdir × State
  pub opendir : State → Text → Opendir

-- mkdir(2) as POSIX documents it: on success the path is a new directory; on failure nothing has
-- changed; and what was a directory stays
-- one, with the entries that it had.
pub record MkdirLaws (fs : FileSystem) : Type 0 where
  pub makes :
      (s : fs.State) (p : Text)
      → (fs.mkdir s p).0 ≡ created
      → fs.stat (fs.mkdir s p).1 p ≡ directory
  pub was_missing : (s : fs.State) (p : Text) → (fs.mkdir s p).0 ≡ created → fs.stat s p ≢ directory
  pub fails : (s : fs.State) (p : Text) → (fs.mkdir s p).0 ≢ created → (fs.mkdir s p).1 ≡ s
  pub keeps :
      (s : fs.State) (p q : Text) → fs.stat s q ≡ directory → fs.stat (fs.mkdir s p).1 q ≡ directory
  pub keeps_entries :
      (s : fs.State) (p q n : Text) (d : DirStream)
      → fs.opendir s q ≡ opened d
      → Listed n d
      → (d' : DirStream) × (fs.opendir (fs.mkdir s p).1 q ≡ opened d') × Listed n d'
