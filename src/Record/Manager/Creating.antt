-- ===== src/Record/Manager/Creating.antt =====
-- The steps of `create_file`, and a file that is opened after them.
use uni_base.Base.{
  ℕ, ◌≤◌, ◌<◌, ◌≡◌, ◌≢◌, ap, ◌∙◌, [], true, false, ite, ℤ, pos, ℤ-discrete, lookup_or-insert, arith,
}
use uni_base.Errors.{Str, Str-discrete, ok, Step, ◌>>=◌, bind-of, pure}
use uni_base.Storage.Disk.{File, with_file, set_fd2pageno}
use uni_base.Storage.Disk.Files.{FileSystem, fd_of, path_of}
use uni_base.Storage.Disk.Files
use uni_base.Record.{RmFileHdr, new_file_hdr, get_slot}
use uni_base.Record.Slots.{new_file_hdr-fits}
use uni_base.Record.Manager.{
  Store, Created, RmFileHandle, put_hdr, hdr_size, with_disk, filed, save, attach, detach,
  write_hdr, read_hdr, init_file, create_file, open_file, empty_file, set_pageno,
}
use uni_base.Record.Manager.Header.{IsHdr}
use uni_base.Record.Manager.Steps.{
  attached, detached, with_hdr, attach-eq, detach-eq, write_hdr-eq, read_hdr-eq,
}

module _ {S : Type 0} where
  abbrev registered : Str → Store S → Store S
  registered p s = record s { is_file = λ q. ite (Str-discrete p q) true (s.is_file q) }

  registered-eq :
      (p : Str) (s : Store S)
      → s.is_file p ≡ false
      → filed (Files.create_file true p) s ≡ (ok tt, registered p s)
  unfolding Files.create_file
  registered-eq p s e = ground (arith, e)

  abbrev emptied : ℕ → Str → Store S → Store S
  emptied room p s = record s { saved = λ q. ite (Str-discrete p q) (empty_file room) (s.saved q) }

  abbrev headed : ℤ → RmFileHdr → Store S → Store S
  headed fd h s = with_disk s (with_file s.pool.disk fd (with_hdr h (s.pool.disk.file fd)))

  -- The state after a file is created, by its steps.
  abbrev pub created : ℤ → ℕ → Str → ℕ → Store S → Store S
  created fd room p n s =
      detached fd p (headed fd (new_file_hdr n) (attached fd p (emptied room p (registered p s))))

  pub init_file-eq :
      (g : ℕ) (room : ℕ) (p : Str) (n : ℕ) (s : Store S)
      → let fd = pos g in
        s.is_file p ≡ false
        → fd_of s.pool.disk p ≡ pos 0
        → p ≢ []
        → hdr_size ≤ room
        → init_file (record { made = true; room = room; fd = fd }) p n s
          ≡ (ok tt, created fd room p n s)
  unfolding init_file
  init_file-eq g room p n s e z ne l =
      let fd = pos g in
      let s1 = registered p s in
      let s2 = emptied room p s1 in
      let s3 = attached fd p s2 in
      let s4 = headed fd (new_file_hdr n) s3 in
      let k3 : Unit {0} → Step (Store S) (Unit {0}) = λ _. detach fd in
      let k2 : ℤ → Step (Store S) (Unit {0}) =
        λ y. write_hdr y (new_file_hdr n) >>= λ _. detach y in
      let k1 : Unit {0} → Step (Store S) (Unit {0}) =
        λ _. save p (empty_file room) >>= λ _. attach fd p >>= k2 in
      bind-of (filed (Files.create_file true p)) k1 s s1 tt (registered-eq p s e)
      ∙ bind-of (attach fd p) k2 s2 s3 fd (attach-eq fd p s2 (ground arith) z)
      ∙ bind-of (write_hdr fd (new_file_hdr n)) k3 s3 s4 tt
          (write_hdr-eq g (new_file_hdr n) s3 (ground (arith, l)))
      ∙ detach-eq fd p s4
          (ground (arith, lookup_or-insert ℤ-discrete [] fd fd p s.pool.disk.fd2path)) ne

  pub create_file-eq :
      (os : Created) (p : Str) (n : ℕ) (s : Store S)
      → 1 ≤ n
      → n ≤ 512
      → create_file os p (pos n) s ≡ init_file os p n s
  unfolding create_file
  create_file-eq os p n s l u = ground (arith, l, u)

  -- The state after a file is opened, its number of pages included.
  abbrev pub reopened : ℤ → Str → ℕ → Store S → Store S
  reopened fd p n s =
      let t = attached fd p s in
      let u =
        with_disk t
          (with_file t.pool.disk fd (record (t.pool.disk.file fd) { position = hdr_size })) in
      with_disk u (set_fd2pageno u.pool.disk fd (pos n))

  pub open_file-eq :
      (g : ℕ) (p : Str) (h : RmFileHdr) (s : Store S)
      → let fd = pos g in
        s.is_file p ≡ true
        → fd_of s.pool.disk p ≡ pos 0
        → IsHdr h
        → hdr_size ≤ (s.saved p).size
        → ((i : ℕ) → i < hdr_size → (s.saved p).bytes i ≡ put_hdr h i)
        → open_file fd p s ≡ (ok (record { fd = fd; file_hdr = h }), reopened fd p h.num_pages s)
  unfolding open_file
  open_file-eq g p h s e z w l b =
      let fd = pos g in
      let t = attached fd p s in
      let u =
        with_disk t
          (with_file t.pool.disk fd (record (t.pool.disk.file fd) { position = hdr_size })) in
      let same : (t.pool.disk.file fd) ≡ record (s.saved p) { position = 0 } = ground arith in
      let k2 : ℤ → RmFileHdr → Step (Store S) RmFileHandle =
        λ y x. set_pageno y (pos x.num_pages) >>= λ _. pure (record { fd = y; file_hdr = x }) in
      let k1 : ℤ → Step (Store S) RmFileHandle = λ y. read_hdr y >>= k2 y in
      bind-of (attach fd p) k1 s t fd (attach-eq fd p s e z)
      ∙ bind-of (read_hdr fd) (k2 fd) t u h (
          read_hdr-eq g h t w (ground (arith, same, l))
            (λ i m. ap (λ (f : File). f.bytes i) same ∙ b i m))

pub new_file_hdr-IsHdr : (n : ℕ) → 1 ≤ n → n ≤ 512 → IsHdr (new_file_hdr n)
unfolding new_file_hdr get_slot
new_file_hdr-IsHdr n l u =
    let f = new_file_hdr-fits n l u in
    record {
      record_size = omega (arith, u);
      num_pages = omega arith;
      num_records_per_page = omega (arith, f.1, f.2);
      first_free_page_no = omega arith;
      bitmap_size = omega (arith, f.1, f.2);
    }
