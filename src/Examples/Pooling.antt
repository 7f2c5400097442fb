-- ===== src/Examples/Pooling.antt =====
-- A buffer pool of one frame over the LRU replacer.
use uni_base.Base.{
  ℕ, ◌%◌, ◌≡◌, refl, subst, inr, List, [], ◌∷◌, some, true, arith, pos, ℤ-discrete, ℕ_discrete,
  lookup, erase, insert, ◌==◌, if◌then◌else◌,
}
use uni_base.Errors.{ok}
use uni_base.Replacer.Lru.{LruReplacer, init, victim, pin, unpin, erase_node}
use uni_base.Replacer.Lru.Laws
use uni_base.Replacer.Lru.Laws.{lru}
use uni_base.Storage.Page.{Page, PageId, PageId-discrete, new_page_object}
use uni_base.Storage.Disk.{
  DiskManager, write_page, read_page, os_read, os_write, lseek, page_offset, wrap32, allocate_page,
}
use uni_base.Storage.Disk.Stored.{IsPageNo, stored, stored-write}
use uni_base.Storage.Pool.{
  Pool, find_victim_page, take_free, take_victim, load, update_if_dirty, update_page, retarget,
  write_back, write_frame, read_frame, install, fetch_hit, fetch_page, frames_from, delete_page,
  delete_frame, write_if_dirty, release,
}
use uni_base.Storage.Pool
use uni_base.Storage.Pool.Invariant.{IsConsistent}
use uni_base.Storage.Pool.Invariant.History.{Call, run, run-init-IsConsistent}
use uni_base.Storage.Pool.Contents.{IsSettled, IsClean}
use uni_base.Storage.Pool.Contents.Deletion.{delete_page-fetch_page-zeros}
use uni_base.Storage.Pool.Contents.Preserved.{
  Returns, Preserves, fetch_page-Returns, fetch_page-Preserves,
}

disk_program : Unit {0}
unfolding write_page read_page os_read os_write lseek page_offset wrap32 allocate_page ℤ-discrete
    ℕ_discrete
disk_program = tt

pool_program : Unit {0}
unfolding init victim pin unpin erase_node lookup erase insert ℕ_discrete ℤ-discrete PageId-discrete
    disk_program find_victim_page take_free take_victim load update_if_dirty update_page retarget
    write_back write_frame read_frame install fetch_hit fetch_page Pool.init frames_from delete_page
    delete_frame write_if_dirty release
pool_program = tt

-- Every file has three pages of bytes.
abbrev disk : DiskManager
disk = record {
  file = λ _. record { size = 12288; limit = 40960; position = 0; bytes = λ i. i % 251 };
  path2fd = [];
  fd2path = [];
  log_fd = pos 0;
  fd2pageno = λ _. pos 3;
}

abbrev page_at : ℕ → PageId
page_at n = record { fd = pos 5; page_no = pos n }

-- Page 0 of the file is in the frame, changed and unpinned.
abbrev changed : Page
changed = record { id = page_at 0; content = λ _. 7; is_dirty = true; pin_count = 0 }

abbrev lone : LruReplacer
lone = record { lru_list = (0, 0) ∷ []; lru_hash = (0, 0) ∷ []; next_node = 1; max_size = 1 }

abbrev one : Pool LruReplacer
one = record {
  pool_size = 1;
  pages = λ g. if 0 == g then changed else new_page_object (pos 0);
  page_table = (page_at 0, 0) ∷ [];
  free_list = [];
  disk = disk;
  replacer = lone;
}

fetch_other : (fetch_page lru (page_at 1) one).0 ≡ ok (some 0)
unfolding pool_program
fetch_other = refl

lone-IsValid : Laws.IsValid lone
unfolding pool_program
lone-IsValid = record { hashed = λ f. ground arith; chain = (omega arith, refl, tt, tt) }

one-IsConsistent : IsConsistent lru one
unfolding lookup
one-IsConsistent = record {
  mapped_bound = λ p f m. ground arith;
  mapped_id = λ p f m. ground arith;
  evictable_unpinned = λ p f m h. ground arith;
  free_bound = λ f m. ground arith;
  free_unmapped = λ p f m h. ground arith;
  free_once = tt;
  evictable_bound = λ f h. ground arith;
  replacer_valid = lone-IsValid;
}

one-IsSettled : IsSettled lru one
unfolding lookup
one-IsSettled = record {
  dirty_mapped = λ f d. ground arith;
  evictable_mapped = λ f h. inr (ground arith);
  numbered = λ q g m.
      let e : page_at 0 ≡ q = ground arith in
      subst (λ (r : PageId). IsPageNo r.page_no) e (omega arith);
}

one-IsClean : IsClean (page_at 0) one
unfolding lookup
one-IsClean g m d i hi = ground arith

-- The page of the evicted frame is seen as it was, now on disk.
fetch_page-Preserves_example : Preserves lru (page_at 0) one (fetch_page lru (page_at 1) one).1
fetch_page-Preserves_example =
    fetch_page-Preserves lru (page_at 1) one one-IsConsistent one-IsSettled (omega arith) (some 0)
      (page_at 0) fetch_other (omega arith) one-IsClean

fetch_page-Returns_example : Returns lru (page_at 1) one (some 0) (fetch_page lru (page_at 1) one).1
fetch_page-Returns_example =
    fetch_page-Returns lru (page_at 1) one one-IsConsistent one-IsSettled (omega arith) (some 0)
      fetch_other

abbrev calls : List (Call lru)
calls =
    Call.creates (pos 5)
    ∷ Call.marks 0
    ∷ Call.unpins (page_at 3) true
    ∷ Call.fetches (page_at 1)
    ∷ []

run-init-IsConsistent_example : IsConsistent lru (run lru (Pool.init 1 (pos 0) disk (init 1)) calls)
unfolding init
run-init-IsConsistent_example =
    run-init-IsConsistent lru 1 (pos 0) disk (init 1) calls (Laws.init-IsValid 1) refl

delete_page-fetch_page-zeros_example :
    stored (fetch_page lru (page_at 1) (delete_page lru (page_at 0) one).1).1.disk (page_at 0) 9 ≡ 0
unfolding pool_program
delete_page-fetch_page-zeros_example =
    delete_page-fetch_page-zeros lru 0 (page_at 0) (page_at 1) one {o = some 0} 9 refl refl refl
      refl refl (omega arith) refl refl refl (omega arith)

stored-write_example :
    stored (write_page disk (pos 5) (pos 1) (λ _. 9) 4096).1 (page_at 2) 8
    ≡ stored disk (page_at 2) 8
unfolding disk_program PageId-discrete
stored-write_example =
    stored-write disk (page_at 1) (page_at 2) (λ _. 9) 8 (omega arith) (omega arith) (omega arith)
      refl
