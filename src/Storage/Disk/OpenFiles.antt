-- ===== src/Storage/Disk/OpenFiles.antt =====
-- The two maps of the table of open files are the two directions of one pairing.
use uni_base.Base.{
  ◌≡◌, ◌≢◌, inl, inr, refl, [], none, some, Bool, ite, ℤ, pos, ℤ-discrete, lookup, insert,
  lookup_or-insert, lookup_or-lookup, lookup-insert, Option-cases, Bool-cases, arith,
}
use uni_base.Errors.{Str, Str-discrete, Result, ok, throw, file_not_open}
use uni_base.Storage.Disk.{DiskManager}
use uni_base.Storage.Disk.Files.{
  FileSystem, fd_of, path_of, touch_path, touch_fd, create_file, destroy_file, open_file,
  close_file, get_file_fd,
}

pub record IsTable (d : DiskManager) : Type 0 where
  pub open_path : (p : Str) → fd_of d p ≢ pos 0 → (p ≢ []) × (path_of d (fd_of d p) ≡ p)
  pub open_fd : (fd : ℤ) → path_of d fd ≢ [] → (fd ≢ pos 0) × (fd_of d (path_of d fd) ≡ fd)

-- A descriptor that `open` may return: not 0, and not one of an open file.
abbrev pub IsFresh : ℤ → DiskManager → Type 0
IsFresh fd d = (fd ≢ pos 0) × (path_of d fd ≡ [])

-- Reading the value of a missing key adds a closed file.
touched_path-IsTable :
    (p : Str) (d : DiskManager)
    → IsTable d
    → lookup Str-discrete p d.path2fd ≡ none
    → IsTable (record d { path2fd = insert Str-discrete p (pos 0) d.path2fd })
touched_path-IsTable p d w e = record {
  open_path = λ q m.
      ground (arith, e, lookup_or-insert Str-discrete (pos 0) p q (pos 0) d.path2fd, w.open_path q);
  open_fd = λ fd m. ground (
    arith,
    e,
    lookup_or-insert Str-discrete (pos 0) p (path_of d fd) (pos 0) d.path2fd,
    lookup_or-lookup Str-discrete (pos 0) p d.path2fd,
    w.open_fd fd,
  );
}

touched_fd-IsTable :
    (fd : ℤ) (d : DiskManager)
    → IsTable d
    → lookup ℤ-discrete fd d.fd2path ≡ none
    → IsTable (record d { fd2path = insert ℤ-discrete fd [] d.fd2path })
touched_fd-IsTable fd d w e = record {
  open_path = λ q m. ground (
    arith,
    e,
    lookup_or-insert ℤ-discrete [] fd (fd_of d q) [] d.fd2path,
    lookup_or-lookup ℤ-discrete [] fd d.fd2path,
    w.open_path q,
  );
  open_fd = λ g m. ground (arith, e, lookup_or-insert ℤ-discrete [] fd g [] d.fd2path, w.open_fd g);
}

touch_path-IsTable : (p : Str) (d : DiskManager) → IsTable d → IsTable (touch_path p d)
unfolding touch_path
touch_path-IsTable p d w = elim (Option-cases (lookup Str-discrete p d.path2fd)) [
  | inr (fd, e) ↦ rw (e, touch_path) w
  | inl e ↦ rw (e, touch_path) (touched_path-IsTable p d w e)
]

touch_fd-IsTable : (fd : ℤ) (d : DiskManager) → IsTable d → IsTable (touch_fd fd d)
unfolding touch_fd
touch_fd-IsTable fd d w = elim (Option-cases (lookup ℤ-discrete fd d.fd2path)) [
  | inr (p, e) ↦ rw (e, touch_fd) w
  | inl e ↦ rw (e, touch_fd) (touched_fd-IsTable fd d w e)
]

opened-IsTable :
    (p : Str) (fd : ℤ) (d : DiskManager)
    → IsTable d
    → p ≢ []
    → IsFresh fd d
    → fd_of d p ≡ pos 0
    → IsTable (record d {
      path2fd = insert Str-discrete p fd d.path2fd;
      fd2path = insert ℤ-discrete fd p d.fd2path;
    })
opened-IsTable p fd d w n h z = record {
  open_path = λ q m. ground (
    arith,
    h.0,
    h.1,
    lookup_or-insert Str-discrete (pos 0) p q fd d.path2fd,
    lookup_or-insert ℤ-discrete [] fd (fd_of d q) p d.fd2path,
    lookup_or-insert ℤ-discrete [] fd fd p d.fd2path,
    w.open_path q,
  );
  open_fd = λ g m. ground (
    arith,
    h.0,
    h.1,
    lookup_or-insert ℤ-discrete [] fd g p d.fd2path,
    lookup_or-insert Str-discrete (pos 0) p (path_of d g) fd d.path2fd,
    lookup_or-insert Str-discrete (pos 0) p p fd d.path2fd,
    w.open_fd g,
  );
}

closed-IsTable :
    (fd : ℤ) (d : DiskManager)
    → IsTable d
    → path_of d fd ≢ []
    → IsTable (record d {
      path2fd = insert Str-discrete (path_of d fd) (pos 0) d.path2fd;
      fd2path = insert ℤ-discrete fd [] d.fd2path;
    })
closed-IsTable fd d w n = record {
  open_path = λ q m. ground (
    arith,
    lookup_or-insert Str-discrete (pos 0) (path_of d fd) q (pos 0) d.path2fd,
    lookup_or-insert ℤ-discrete [] fd (fd_of d q) [] d.fd2path,
    w.open_path q,
    w.open_fd fd,
  );
  open_fd = λ g m. ground (
    arith,
    lookup_or-insert ℤ-discrete [] fd g [] d.fd2path,
    lookup_or-insert Str-discrete (pos 0) (path_of d fd) (path_of d g) (pos 0) d.path2fd,
    w.open_fd g,
    w.open_fd fd,
  );
}

-- A test between two outcomes, each of which keeps the table.
test-IsTable :
    {A P : Type 0} (c : Dec P) (x y : Result A × FileSystem)
    → (P → IsTable x.1.disk)
    → ((P → ⊥) → IsTable y.1.disk)
    → IsTable (ite c x y).1.disk
test-IsTable (yes a) x y h k = h a
test-IsTable (no a) x y h k = k a

pub open_file-IsTable :
    (fd : ℤ) (p : Str) (s : FileSystem)
    → IsTable s.disk
    → p ≢ []
    → IsFresh fd s.disk
    → IsTable (open_file fd p s).1.disk
unfolding open_file
open_file-IsTable fd p s w n h = elim (Bool-cases (s.is_file p)) [
  | inr e ↦ rw (e, open_file) w
  | inl e ↦
      rw (e, open_file)
        (test-IsTable (ℤ-discrete (fd_of s.disk p) (pos 0)) _ _
          (λ z. opened-IsTable p fd s.disk w n h z) (λ _. touch_path-IsTable p s.disk w))
]

pub close_file-IsTable :
    (fd : ℤ) (s : FileSystem) → IsTable s.disk → IsTable (close_file fd s).1.disk
unfolding close_file
close_file-IsTable fd s w =
    test-IsTable (Str-discrete (path_of s.disk fd) []) _ _ (λ _. touch_fd-IsTable fd s.disk w)
      (λ n. closed-IsTable fd s.disk w n)

pub destroy_file-IsTable :
    (p : Str) (s : FileSystem) → IsTable s.disk → IsTable (destroy_file p s).1.disk
unfolding destroy_file
destroy_file-IsTable p s w = elim (Bool-cases (s.is_file p)) [
  | inr e ↦ rw (e, destroy_file) w
  | inl e ↦
      rw (e, destroy_file)
        (test-IsTable (ℤ-discrete (fd_of s.disk p) (pos 0)) _ _ (λ _. touch_path-IsTable p s.disk w)
          (λ _. touch_path-IsTable p s.disk w))
]

pub create_file-IsTable :
    (c : Bool) (p : Str) (s : FileSystem) → IsTable s.disk → IsTable (create_file c p s).1.disk
unfolding create_file
create_file-IsTable c p s w = elim (Bool-cases (s.is_file p)) [
  | inl e ↦ rw (e, create_file) w
  | inr e ↦ rw (e, create_file) w
]

pub get_file_fd-IsTable :
    (fd : ℤ) (p : Str) (s : FileSystem)
    → IsTable s.disk
    → p ≢ []
    → IsFresh fd s.disk
    → IsTable (get_file_fd fd p s).1.disk
unfolding get_file_fd
get_file_fd-IsTable fd p s w n h = elim (Option-cases (lookup Str-discrete p s.disk.path2fd)) [
  | inl e ↦ rw (e, get_file_fd) (open_file-IsTable fd p s w n h)
  | inr (g, e) ↦ rw (e, get_file_fd) w
]

-- The calls on the table, with what the operating system answers: `open` returns a fresh descriptor
-- for a path that is not empty.
pub data Reaches (s : FileSystem) : FileSystem → Type 0 where
  start : Reaches s s
  creates : (t : FileSystem) (c : Bool) (p : Str) → Reaches s t → Reaches s (create_file c p t).1
  destroys : (t : FileSystem) (p : Str) → Reaches s t → Reaches s (destroy_file p t).1
  opens :
      (t : FileSystem) (fd : ℤ) (p : Str)
      → p ≢ []
      → IsFresh fd t.disk
      → Reaches s t
      → Reaches s (open_file fd p t).1
  closes : (t : FileSystem) (fd : ℤ) → Reaches s t → Reaches s (close_file fd t).1
  asks :
      (t : FileSystem) (fd : ℤ) (p : Str)
      → p ≢ []
      → IsFresh fd t.disk
      → Reaches s t
      → Reaches s (get_file_fd fd p t).1

-- After any calls of `create_file`, `destroy_file`, `open_file`, `close_file` and `get_file_fd`, those
-- that throw included, on a table whose two maps agree, they agree: an open path has the descriptor
-- that has this path, and an open descriptor the path that has this descriptor. It is supposed that
-- no path is empty, and that `open` returns a descriptor that is neither 0 nor one of an open file.
pub reached-IsTable : (s t : FileSystem) → IsTable s.disk → Reaches s t → IsTable t.disk
reached-IsTable s t w start = w
reached-IsTable s _ w (creates t c p r) = create_file-IsTable c p t (reached-IsTable s t w r)
reached-IsTable s _ w (destroys t p r) = destroy_file-IsTable p t (reached-IsTable s t w r)
reached-IsTable s _ w (opens t fd p n h r) = open_file-IsTable fd p t (reached-IsTable s t w r) n h
reached-IsTable s _ w (closes t fd r) = close_file-IsTable fd t (reached-IsTable s t w r)
reached-IsTable s _ w (asks t fd p n h r) = get_file_fd-IsTable fd p t (reached-IsTable s t w r) n h

get_file_fd-known :
    (g fd : ℤ) (p : Str) (s : FileSystem)
    → lookup Str-discrete p s.disk.path2fd ≡ some fd
    → get_file_fd g p s ≡ (ok fd, s)
unfolding get_file_fd
get_file_fd-known g fd p s e = rw (e, get_file_fd) refl

closed-lookup :
    (fd : ℤ) (s : FileSystem)
    → path_of s.disk fd ≢ []
    → lookup Str-discrete (path_of s.disk fd) (close_file fd s).1.disk.path2fd ≡ some (pos 0)
unfolding close_file
closed-lookup fd s n = go (Str-discrete (path_of s.disk fd) [])
  where
    p : Str
    p = path_of s.disk fd

    go :
        (c : Dec (p ≡ []))
        → let o : Result (Unit {0}) × FileSystem =
            ite c
              (throw (file_not_open fd), record s { disk = touch_fd fd s.disk })
              (
                ok tt,
                record s {
                  disk = record s.disk {
                    path2fd = insert Str-discrete p (pos 0) s.disk.path2fd;
                    fd2path = insert ℤ-discrete fd [] s.disk.fd2path;
                  };
                },
              ) in
          lookup Str-discrete p o.1.disk.path2fd ≡ some (pos 0)
    go (yes z) = absurd (n z)
    go (no _) = ground (arith, lookup-insert Str-discrete p p (pos 0) s.disk.path2fd)

-- After `close_file` of the descriptor of an open file, `get_file_fd` of the file's path returns 0
-- and opens nothing, whatever `open` would return.
pub close_file-get_file_fd :
    (fd g : ℤ) (s : FileSystem)
    → path_of s.disk fd ≢ []
    → get_file_fd g (path_of s.disk fd) (close_file fd s).1 ≡ (ok (pos 0), (close_file fd s).1)
close_file-get_file_fd fd g s n =
    get_file_fd-known g (pos 0) (path_of s.disk fd) (close_file fd s).1 (closed-lookup fd s n)
