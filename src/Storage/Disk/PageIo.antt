-- ===== src/Storage/Disk/PageIo.antt =====
-- Reading and writing of pages: disjoint pages, what a read returns after a write, short transfers.
use uni_base.Base.{
  ℕ, ◌+◌, ◌-◌, ◌*◌, ◌<◌, ◌≡◌, refl, ap, subst, ◌∙◌, arith, true, ite, ℤ, pos, negsuc, ℤ-discrete,
  ltb, ◌==◌, if◌then◌else◌,
}
use uni_base.Errors.{ok}
use uni_base.Storage.Page.{Block, page_size}
use uni_base.Storage.Disk.{
  DiskManager, File, page_offset, lseek, os_write, os_read, write_open, read_open, write_page,
  read_page,
}

-- The byte of a page in the file behind a descriptor.
unfoldable pub page_byte : DiskManager → ℤ → ℕ → ℕ → ℕ
page_byte d fd n i = (d.file fd).bytes (n * page_size + i)

-- Below 2 GiB the product `page_no * PAGE_SIZE` is an `int`.
abbrev pub max_page_no : ℕ
max_page_no = 524288

pub page_offset_small : (n : ℕ) → n < max_page_no → page_offset (pos n) ≡ pos (n * page_size)
unfolding page_offset
page_offset_small n h = ground arith

-- The product overflows at page 2^19, and 2^20 pages on the offset is the same again.
pub page_offset_alias : (n : ℕ) → page_offset (pos (n + 1048576)) ≡ page_offset (pos n)
unfolding page_offset
page_offset_alias n = ground arith

-- A whole page written at an offset.
abbrev written : File → ℕ → Block → ℕ → ℕ
written f p src j =
    if ltb j p then f.bytes j else if ltb j (p + page_size) then src (j - p) else f.bytes j

bytes-os_write :
    (f : File) (p : ℕ) (src : Block) (j : ℕ)
    → ((os_write (lseek f (pos p)) src page_size).0 == page_size) ≡ true
    → (os_write (lseek f (pos p)) src page_size).1.bytes j ≡ written f p src j
unfolding os_write lseek
bytes-os_write f p src j e = ground arith

write-ok :
    (d : DiskManager) (fd page_no : ℤ) (src : Block) (n : ℕ)
    → (write_open d fd page_no src n).0 ≡ ok tt
    → ((os_write (lseek (d.file fd) (page_offset page_no)) src n).0 == n) ≡ true
unfolding write_open
write-ok d fd page_no src n e = ground arith

file-write :
    (d : DiskManager) (fd page_no : ℤ) (src : Block) (n : ℕ) (g : ℤ)
    → (write_open d fd page_no src n).1.file g
      ≡ ite
          (ℤ-discrete fd g)
          (os_write (lseek (d.file fd) (page_offset page_no)) src n).1
          (d.file g)
unfolding write_open
file-write d fd page_no src n g = refl

written-page :
    (f : File) (n m i : ℕ) (src : Block)
    → i < page_size
    → written f (n * page_size) src (m * page_size + i)
      ≡ (if n == m then src i else f.bytes (m * page_size + i))
written-page f n m i src h = ground arith

-- A write that succeeds puts its bytes into its page, and into no other page of any file.
page_byte-write_open :
    (d : DiskManager) (fd : ℤ) (n : ℕ) (src : Block) (fd' : ℤ) (m i : ℕ)
    → n < max_page_no
    → i < page_size
    → (write_open d fd (pos n) src page_size).0 ≡ ok tt
    → page_byte (write_open d fd (pos n) src page_size).1 fd' m i
      ≡ ite
          (ℤ-discrete fd fd')
          (if n == m then src i else page_byte d fd' m i)
          (page_byte d fd' m i)
unfolding page_byte
page_byte-write_open d fd n src fd' m i hn hi e =
    let ok' =
      subst (λ o. ((os_write (lseek (d.file fd) o) src page_size).0 == page_size) ≡ true)
        (page_offset_small n hn) (write-ok d fd (pos n) src page_size e) in
    ap (λ (f : File). f.bytes (m * page_size + i)) (file-write d fd (pos n) src page_size fd')
    ∙ elim (ℤ-discrete fd fd')
        as (λ x.
          (ite x (os_write (lseek (d.file fd) (page_offset (pos n))) src page_size).1
              (d.file fd')).bytes
            (m * page_size + i)
          ≡ ite x (if n == m then src i else page_byte d fd' m i) (page_byte d fd' m i)) [
            | yes p ↦ rw (page_offset_small n hn) (
                bytes-os_write (d.file fd) (n * page_size) src (m * page_size + i) ok'
                ∙ subst
                    (λ g.
                      written (d.file fd) (n * page_size) src (m * page_size + i)
                      ≡ (if n == m then src i else (d.file g).bytes (m * page_size + i)))
                    p (written-page (d.file fd) n m i src hi))
            | no p ↦ refl
          ]

-- A read that succeeds fills the buffer with the bytes of the page.
read_open-byte :
    (d : DiskManager) (fd : ℤ) (n : ℕ) (buffer : Block) (i : ℕ)
    → n < max_page_no
    → i < page_size
    → (read_open d fd (pos n) buffer page_size).0 ≡ ok tt
    → (read_open d fd (pos n) buffer page_size).1 i ≡ page_byte d fd n i
unfolding read_open page_byte lseek
read_open-byte d fd n buffer i hn hi e = ground (arith, page_offset_small n hn)

bytes-os_read :
    (f : File) (o : ℤ) (buffer : Block) (k j : ℕ)
    → (os_read (lseek f o) buffer k).2.bytes j ≡ f.bytes j
unfolding os_read lseek
bytes-os_read f (pos n) buffer k j = refl
bytes-os_read f (negsuc n) buffer k j = refl

-- A read changes no byte of any file, whether or not it succeeds.
page_byte-read_open :
    (d : DiskManager) (fd page_no : ℤ) (buffer : Block) (k : ℕ) (fd' : ℤ) (m i : ℕ)
    → page_byte (read_open d fd page_no buffer k).2 fd' m i ≡ page_byte d fd' m i
unfolding read_open page_byte
page_byte-read_open d fd page_no buffer k fd' m i =
    elim (ℤ-discrete fd fd')
      as (λ x.
        (ite x (os_read (lseek (d.file fd) (page_offset page_no)) buffer k).2 (d.file fd')).bytes
          (m * page_size + i)
        ≡ page_byte d fd' m i) [
          | yes p ↦
              bytes-os_read (d.file fd) (page_offset page_no) buffer k (m * page_size + i)
              ∙ ap (λ g. (d.file g).bytes (m * page_size + i)) p
          | no p ↦ refl
        ]

-- A read after a write of the same page succeeds, if the write did.
read_open-write_open :
    (d : DiskManager) (fd : ℤ) (n : ℕ) (src buffer : Block)
    → n < max_page_no
    → (write_open d fd (pos n) src page_size).0 ≡ ok tt
    → (read_open (write_open d fd (pos n) src page_size).1 fd (pos n) buffer page_size).0 ≡ ok tt
unfolding read_open write_open os_write os_read lseek
read_open-write_open d fd n src buffer hn e = ground (arith, page_offset_small n hn)

-- A write that succeeds puts its bytes into its page, and into no other page of any file.
pub page_byte-write_page :
    (d : DiskManager) (fd : ℤ) (n : ℕ) (src : Block) (fd' : ℤ) (m i : ℕ)
    → n < max_page_no
    → i < page_size
    → (write_page d fd (pos n) src page_size).0 ≡ ok tt
    → page_byte (write_page d fd (pos n) src page_size).1 fd' m i
      ≡ ite
          (ℤ-discrete fd fd')
          (if n == m then src i else page_byte d fd' m i)
          (page_byte d fd' m i)
unfolding write_page
page_byte-write_page d (pos f) n src fd' m i hn hi e =
    page_byte-write_open d (pos f) n src fd' m i hn hi e
page_byte-write_page d (negsuc f) n src fd' m i hn hi e = absurd (cc)

-- A read that succeeds fills the buffer with the bytes of the page.
pub read_page-byte :
    (d : DiskManager) (fd : ℤ) (n : ℕ) (buffer : Block) (i : ℕ)
    → n < max_page_no
    → i < page_size
    → (read_page d fd (pos n) buffer page_size).0 ≡ ok tt
    → (read_page d fd (pos n) buffer page_size).1 i ≡ page_byte d fd n i
unfolding read_page
read_page-byte d (pos f) n buffer i hn hi e = read_open-byte d (pos f) n buffer i hn hi e
read_page-byte d (negsuc f) n buffer i hn hi e = absurd (cc)

-- A read changes no byte of any file, whether or not it succeeds.
pub page_byte-read_page :
    (d : DiskManager) (fd page_no : ℤ) (buffer : Block) (k : ℕ) (fd' : ℤ) (m i : ℕ)
    → page_byte (read_page d fd page_no buffer k).2 fd' m i ≡ page_byte d fd' m i
unfolding read_page
page_byte-read_page d (pos f) p buffer k fd' m i = page_byte-read_open d (pos f) p buffer k fd' m i
page_byte-read_page d (negsuc f) p buffer k fd' m i = refl

-- A read after a write of the same page succeeds, if the write did.
pub read_page-write_page :
    (d : DiskManager) (fd : ℤ) (n : ℕ) (src buffer : Block)
    → n < max_page_no
    → (write_page d fd (pos n) src page_size).0 ≡ ok tt
    → (read_page (write_page d fd (pos n) src page_size).1 fd (pos n) buffer page_size).0 ≡ ok tt
unfolding read_page write_page
read_page-write_page d (pos f) n src buffer hn e = read_open-write_open d (pos f) n src buffer hn e
read_page-write_page d (negsuc f) n src buffer hn e = absurd (cc)
