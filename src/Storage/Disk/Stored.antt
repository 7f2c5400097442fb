-- ===== src/Storage/Disk/Stored.antt =====
-- The bytes of a page on disk, by the identity of the page.
use uni_base.Base.{ℕ, ◌<◌, ◌≡◌, refl, arith, ite, ℤ, pos, negsuc, ℤ-discrete}
use uni_base.Errors.{ok}
use uni_base.Storage.Page.{Block, PageId, PageId-discrete, page_size}
use uni_base.Storage.Disk.{DiskManager, write_page, read_page}
use uni_base.Storage.Disk.PageIo.{
  page_byte, max_page_no, page_byte-write_page, page_byte-read_page, read_page-byte,
}

-- The page number is not negative, and its offset fits an `int`.
abbrev pub IsPageNo : ℤ → Type 0
IsPageNo (pos n) = n < max_page_no
IsPageNo (negsuc n) = ⊥

abbrev pub stored_at : DiskManager → ℤ → ℤ → ℕ → ℕ
stored_at d fd (pos n) i = page_byte d fd n i
stored_at d fd (negsuc n) i = 0

abbrev pub stored : DiskManager → PageId → ℕ → ℕ
stored d p i = stored_at d p.fd p.page_no i

PageId-ext : (p q : PageId) → p.fd ≡ q.fd → p.page_no ≡ q.page_no → p ≡ q
PageId-ext p q a b = λ i. record { fd = a i; page_no = b i }

stored_at-write :
    (d : DiskManager) (fd n : ℤ) (src : Block) (fd' m : ℤ) (i : ℕ)
    → IsPageNo n
    → IsPageNo m
    → i < page_size
    → (write_page d fd n src page_size).0 ≡ ok tt
    → stored_at (write_page d fd n src page_size).1 fd' m i
      ≡ ite
          (ℤ-discrete fd fd')
          (ite (ℤ-discrete n m) (src i) (stored_at d fd' m i))
          (stored_at d fd' m i)
stored_at-write d fd (pos n) src fd' (pos m) i hn hm hi e =
    ground (arith, page_byte-write_page d fd n src fd' m i hn hi e)
stored_at-write d fd (negsuc n) src fd' m i hn hm hi e = absurd hn
stored_at-write d fd n src fd' (negsuc m) i hn hm hi e = absurd hm

-- After a `write_page` of a whole page below 2 GiB that succeeds, the page on disk has the bytes that
-- were written, and every other page below 2 GiB of any file has what it had.
pub stored-write :
    (d : DiskManager) (p q : PageId) (src : Block) (i : ℕ)
    → IsPageNo p.page_no
    → IsPageNo q.page_no
    → i < page_size
    → (write_page d p.fd p.page_no src page_size).0 ≡ ok tt
    → stored (write_page d p.fd p.page_no src page_size).1 q i
      ≡ ite (PageId-discrete p q) (src i) (stored d q i)
stored-write d p q src i hp hq hi e =
    ground (arith, stored_at-write d p.fd p.page_no src q.fd q.page_no i hp hq hi e, PageId-ext p q)

stored_at-read :
    (d : DiskManager) (fd n : ℤ) (buffer : Block) (k : ℕ) (fd' m : ℤ) (i : ℕ)
    → stored_at (read_page d fd n buffer k).2 fd' m i ≡ stored_at d fd' m i
stored_at-read d fd n buffer k fd' (pos m) i = page_byte-read_page d fd n buffer k fd' m i
stored_at-read d fd n buffer k fd' (negsuc m) i = refl

pub stored-read :
    (d : DiskManager) (p q : PageId) (buffer : Block) (i : ℕ)
    → stored (read_page d p.fd p.page_no buffer page_size).2 q i ≡ stored d q i
stored-read d p q buffer i = stored_at-read d p.fd p.page_no buffer page_size q.fd q.page_no i

read-stored_at :
    (d : DiskManager) (fd n : ℤ) (buffer : Block) (i : ℕ)
    → IsPageNo n
    → i < page_size
    → (read_page d fd n buffer page_size).0 ≡ ok tt
    → (read_page d fd n buffer page_size).1 i ≡ stored_at d fd n i
read-stored_at d fd (pos n) buffer i hn hi e = read_page-byte d fd n buffer i hn hi e
read-stored_at d fd (negsuc n) buffer i hn hi e = absurd hn

pub read-stored :
    (d : DiskManager) (p : PageId) (buffer : Block) (i : ℕ)
    → IsPageNo p.page_no
    → i < page_size
    → (read_page d p.fd p.page_no buffer page_size).0 ≡ ok tt
    → (read_page d p.fd p.page_no buffer page_size).1 i ≡ stored d p i
read-stored d p buffer i hp hi e = read-stored_at d p.fd p.page_no buffer i hp hi e
