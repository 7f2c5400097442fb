-- ===== src/Record/Manager/Steps.antt =====
-- The steps of `create_file` and `open_file`: what `open`, `close` and the header do to the store.
use uni_base.Base.{
  ℕ, ◌+◌, ◌-◌, ◌≤◌, ◌<◌, ◌≡◌, ◌≢◌, refl, sym, ap, ◌∙◌, [], Bool, true, ite, if◌then◌else◌, ℤ, pos,
  ℤ-discrete, insert, ◌==◌, arith,
}
use uni_base.Errors.{Str, Str-discrete, Result, ok, throw, internal_error}
use Prim.Native.Nat.{min}
use uni_base.Storage.Page.{Block, memcpy}
use uni_base.Storage.Disk.{
  File, with_file, page_offset, lseek, os_write, os_read, write_page, write_open, read_open,
  read_page,
}
use uni_base.Storage.Disk.Files.{FileSystem, fd_of, path_of}
use uni_base.Storage.Disk.Files
use uni_base.Record.{RmFileHdr}
use uni_base.Record.Manager.{
  Store, empty_file, put_hdr, hdr_size, with_disk, attach, detach, write_hdr, read_hdr,
}
use uni_base.Record.Manager.Header.{IsHdr, IsBelow-Holds}

-- The file after the header is written.
abbrev pub with_hdr : RmFileHdr → File → File
with_hdr h f = (os_write (lseek f (pos 0)) (put_hdr h) hdr_size).1

module _ {S : Type 0} where
  abbrev pub attached : ℤ → Str → Store S → Store S
  attached fd p s = with_disk s (
      with_file
        (record s.pool.disk {
          path2fd = insert Str-discrete p fd s.pool.disk.path2fd;
          fd2path = insert ℤ-discrete fd p s.pool.disk.fd2path;
        })
        fd (record (s.saved p) { position = 0 }))

  abbrev pub detached : ℤ → Str → Store S → Store S
  detached fd p s =
      record (with_disk s (
        with_file
          (record s.pool.disk {
            path2fd = insert Str-discrete p (pos 0) s.pool.disk.path2fd;
            fd2path = insert ℤ-discrete fd [] s.pool.disk.fd2path;
          })
          fd (empty_file 0))) {
            saved = λ q. ite (Str-discrete p q) (s.pool.disk.file fd) (s.saved q);
          }

  pub attach-eq :
      (fd : ℤ) (p : Str) (s : Store S)
      → s.is_file p ≡ true
      → fd_of s.pool.disk p ≡ pos 0
      → attach fd p s ≡ (ok fd, attached fd p s)
  unfolding attach Files.open_file
  attach-eq fd p s e f = ground (arith, e, f)

  pub detach-eq :
      (fd : ℤ) (p : Str) (s : Store S)
      → path_of s.pool.disk fd ≡ p
      → p ≢ []
      → detach fd s ≡ (ok tt, detached fd p s)
  unfolding detach Files.close_file
  detach-eq fd p s e f =
      let h : detach fd s ≡ (ok tt, detached fd (path_of s.pool.disk fd) s) =
        ground (arith, λ (g : path_of s.pool.disk fd ≡ []). f (sym e ∙ g)) in
      h ∙ ap (λ q. (ok tt, detached fd q s)) e

  pub write_hdr-eq :
      (g : ℕ) (h : RmFileHdr) (s : Store S)
      → let fd = pos g in
        hdr_size ≤ (s.pool.disk.file fd).limit
        → write_hdr fd h s
          ≡ (ok tt, with_disk s (with_file s.pool.disk fd (with_hdr h (s.pool.disk.file fd))))
  unfolding write_hdr write_page write_open page_offset os_write lseek
  write_hdr-eq g h s l =
      let fd = pos g in
      let f = s.pool.disk.file fd in
      let k : ((os_write (lseek f (pos 0)) (put_hdr h) hdr_size).0 == hdr_size) ≡ true =
        ground (arith, l) in
      ap
        (λ (c : Bool).
          let r : Result (Unit {0}) = if c then ok tt else throw internal_error in
          (r, with_disk s (with_file s.pool.disk fd (with_hdr h f))))
        k

  -- The header is read from a file that has its bytes.
  pub read_hdr-eq :
      (g : ℕ) (h : RmFileHdr) (s : Store S)
      → let fd = pos g in
        IsHdr h
        → hdr_size ≤ (s.pool.disk.file fd).size
        → ((i : ℕ) → i < hdr_size → (s.pool.disk.file fd).bytes i ≡ put_hdr h i)
        → read_hdr fd s ≡ (
          ok h,
          with_disk s
              (with_file s.pool.disk fd (record (s.pool.disk.file fd) { position = hdr_size })),
        )
  unfolding read_hdr read_page read_open page_offset os_read lseek
  read_hdr-eq g h s w l e =
      let fd = pos g in
      let f = s.pool.disk.file fd in
      let k : min hdr_size (f.size - 0) ≡ hdr_size = ground (arith, l) in
      let b : Block = memcpy (λ _. 0) (λ i. f.bytes (0 + i)) hdr_size in
      let x = IsBelow-Holds b h w (λ i m. ground (arith, e i m, m)) in
      rw
        (k, x.record_size, x.num_pages, x.num_records_per_page, x.first_free_page_no, x.bitmap_size)
        refl
