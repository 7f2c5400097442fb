-- ===== src/Storage/Disk/Files.antt =====
-- The table of open files of src/storage/disk_manager.cpp: two maps that are read with `operator[]`,
-- which adds a missing key with 0 or the empty string. Descriptor 0 and the empty path stand for a
-- file that is closed. What `open` returns and whether it creates a file are arguments; which paths
-- are regular files is a part of the state.
use uni_base.Base.{
  [], none, some, Bool, false, ite, ℤ, pos, ℤ-discrete, if◌then◌else◌, lookup, lookup_or, insert,
}
use uni_base.Errors.{
  Str, Str-discrete, file_not_open, file_not_closed, file_exists, file_not_found, ok, throw, Step,
}
use uni_base.Storage.Disk.{DiskManager}

pub record FileSystem : Type 0 where
  pub disk : DiskManager
  pub is_file : Str → Bool

-- `path2fd_[path]` and `fd2path_[fd]`, as values.
abbrev pub fd_of : DiskManager → Str → ℤ
fd_of d path = lookup_or Str-discrete (pos 0) path d.path2fd

abbrev pub path_of : DiskManager → ℤ → Str
path_of d fd = lookup_or ℤ-discrete [] fd d.fd2path

-- The read of a missing key adds it.
unfoldable pub touch_path : Str → DiskManager → DiskManager
touch_path path d = elim (lookup Str-discrete path d.path2fd) [
  | some fd ↦ d
  | none ↦ record d { path2fd = insert Str-discrete path (pos 0) d.path2fd }
]

unfoldable pub touch_fd : ℤ → DiskManager → DiskManager
touch_fd fd d = elim (lookup ℤ-discrete fd d.fd2path) [
  | some path ↦ d
  | none ↦ record d { fd2path = insert ℤ-discrete fd [] d.fd2path }
]

abbrev pub with_disk : FileSystem → DiskManager → FileSystem
with_disk s d = record s { disk = d }

abbrev pub with_path : FileSystem → Str → Bool → FileSystem
with_path s path b = record s { is_file = λ q. ite (Str-discrete path q) b (s.is_file q) }

-- `created`: whether `open` with O_CREAT made the file.
unfoldable pub create_file : Bool → Str → Step FileSystem (Unit {0})
create_file created path s =
    if s.is_file path then (throw (file_exists path), s) else (ok tt, with_path s path created)

unfoldable pub destroy_file : Str → Step FileSystem (Unit {0})
destroy_file path s =
    if s.is_file path
    then (let u = with_disk s (touch_path path s.disk) in
        ite (ℤ-discrete (fd_of s.disk path) (pos 0)) (ok tt, with_path u path false)
          (throw (file_not_closed path), u))
    else (throw (file_not_found path), s)

-- `fd`: what `open` returns.
unfoldable pub open_file : ℤ → Str → Step FileSystem ℤ
open_file fd path s =
    if s.is_file path
    then ite (ℤ-discrete (fd_of s.disk path) (pos 0))
        (
          ok fd,
          with_disk s (record s.disk {
            path2fd = insert Str-discrete path fd s.disk.path2fd;
            fd2path = insert ℤ-discrete fd path s.disk.fd2path;
          }),
        )
        (throw (file_not_closed path), with_disk s (touch_path path s.disk))
    else (throw (file_not_found path), s)

unfoldable pub close_file : ℤ → Step FileSystem (Unit {0})
close_file fd s =
    let path = path_of s.disk fd in
    ite (Str-discrete path []) (throw (file_not_open fd), with_disk s (touch_fd fd s.disk))
      (
        ok tt,
        with_disk s (record s.disk {
          path2fd = insert Str-discrete path (pos 0) s.disk.path2fd;
          fd2path = insert ℤ-discrete fd [] s.disk.fd2path;
        }),
      )

unfoldable pub get_file_fd : ℤ → Str → Step FileSystem ℤ
get_file_fd fd path s = elim (lookup Str-discrete path s.disk.path2fd) [
  | none ↦ open_file fd path s
  | some old ↦ (ok old, s)
]
