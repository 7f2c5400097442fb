-- ===== src/Storage/Pool.antt =====
-- src/storage/buffer_pool_manager.h and buffer_pool_manager.cpp, over any `Replacer`. A method is a
-- step from one pool to the next, as the latch is held throughout; an exception of the disk leaves
-- the pool as it was when it was thrown. A `Page*` is the number of its frame.
pub mod Evictable
pub mod Invariant
pub mod Contents
use uni_base.Base.{
  ℕ, zero, suc, ◌-◌, List, [], ◌∷◌, ◌++◌, Option, none, some, Bool, true, false, ite, ℤ, ℤ-discrete,
  ◌==◌, if◌then◌else◌, lookup, insert, erase,
}
pub use uni_base.Errors.{Result, ok, throw, Step, ◌>>=◌, ◌>>◌, pure}
use uni_base.Replacer.{Replacer}
use uni_base.Storage.Page.{
  Page, PageId, PageId-discrete, page_size, invalid_page_id, reset_memory, new_page_object,
}
use uni_base.Storage.Disk.{DiskManager}
use uni_base.Storage.Disk

pub record Pool (S : Type 0) : Type 0 where
  pub pool_size : ℕ
  pub pages : ℕ → Page
  pub page_table : List (PageId × ℕ)
  pub free_list : List ℕ
  pub disk : DiskManager
  pub replacer : S

-- A computation on the pool that may throw.
abbrev pub M : Type 0 → Type 0 → Type 0
M S A = Step (Pool S) A

-- The frames of a new pool, as the loop of the constructor numbers them.
unfoldable pub frames_from : ℕ → ℕ → List ℕ
frames_from i zero = []
frames_from i (suc n) = i ∷ frames_from (suc i) n

module _ {S : Type 0} where
  abbrev pub with_page : Pool S → ℕ → Page → Pool S
  with_page s f p = record s { pages = λ g. if f == g then p else s.pages g }

  unfoldable pub init : ℕ → ℤ → DiskManager → S → Pool S
  unfolding frames_from
  init n any_fd d r = record {
    pool_size = n;
    pages = λ _. new_page_object any_fd;
    page_table = [];
    free_list = frames_from 0 n;
    disk = d;
    replacer = r;
  }

  abbrev pub mark_dirty : Pool S → ℕ → Pool S
  mark_dirty s f = with_page s f (record (s.pages f) { is_dirty = true })

  -- `disk_manager_->write_page(page->id_.fd, page->id_.page_no, page->data_, PAGE_SIZE)`
  unfoldable pub write_frame : ℕ → M S (Unit {0})
  write_frame f s =
      let p = s.pages f in
      let (r, d) = Disk.write_page s.disk p.id.fd p.id.page_no p.content page_size in
      (r, record s { disk = d })

  abbrev pub clear_dirty : ℕ → M S (Unit {0})
  clear_dirty f s = (ok tt, with_page s f (record (s.pages f) { is_dirty = false }))

  -- `if (page->is_dirty()) { write_page(...); page->is_dirty_ = false; }`
  unfoldable pub write_back : ℕ → M S (Unit {0})
  write_back f s = if (s.pages f).is_dirty then (write_frame f >> clear_dirty f) s else (ok tt, s)

  -- What `update_page` does after the write: the page table, then the page itself.
  unfoldable pub retarget : ℕ → PageId → ℕ → M S (Unit {0})
  retarget f new_page_id new_frame_id s = (
    ok tt,
    with_page
        (record s {
          page_table =
              insert PageId-discrete new_page_id new_frame_id
                (erase PageId-discrete (s.pages f).id s.page_table);
        })
        f (reset_memory (record (s.pages f) { id = new_page_id; pin_count = 0 })),
  )

  unfoldable pub update_page : ℕ → PageId → ℕ → M S (Unit {0})
  update_page f new_page_id new_frame_id = write_back f >> retarget f new_page_id new_frame_id

  -- `disk_manager_->read_page(page_id.fd, page_id.page_no, page->get_data(), PAGE_SIZE)`
  unfoldable pub read_frame : ℕ → PageId → M S (Unit {0})
  read_frame f p s =
      let (r, bytes, d) = Disk.read_page s.disk p.fd p.page_no (s.pages f).content page_size in
      (r, with_page (record s { disk = d }) f (record (s.pages f) { content = bytes }))

module _ (R : Replacer) where
  open R use {S, victim, pin, unpin}

  -- The answer of the replacer: the victim's page leaves the page table.
  unfoldable pub take_victim : Pool S → Option ℕ × S → Option ℕ × Pool S
  take_victim s (none, r) = (none, record s { replacer = r })
  take_victim s (some f, r) = (
    some f,
    record s { replacer = r; page_table = erase PageId-discrete (s.pages f).id s.page_table },
  )

  unfoldable pub take_free : Pool S → List ℕ → Option ℕ × Pool S
  take_free s [] = take_victim s (victim s.replacer)
  take_free s (f ∷ rest) = (some f, record s { free_list = rest })

  unfoldable pub find_victim_page : Pool S → Option ℕ × Pool S
  find_victim_page s = take_free s s.free_list

  -- The end of `fetch_page`: the page is mapped to the frame, pinned once.
  unfoldable pub install : ℕ → PageId → M S (Option ℕ)
  install f page_id s = (
    ok (some f),
    with_page
        (record s {
          page_table = insert PageId-discrete page_id f s.page_table;
          replacer = pin s.replacer f;
        })
        f (record (s.pages f) { id = page_id; pin_count = 1 }),
  )

  unfoldable pub update_if_dirty : ℕ → PageId → M S (Unit {0})
  update_if_dirty f page_id s =
      if (s.pages f).is_dirty then update_page f page_id f s else (ok tt, s)

  -- The page is not in the pool, and a frame was found.
  unfoldable pub load : ℕ → PageId → M S (Option ℕ)
  load f page_id = do update_if_dirty f page_id; read_frame f page_id; install f page_id

  unfoldable pub fetch_hit : ℕ → M S (Option ℕ)
  fetch_hit f s = (
    ok (some f),
    with_page (record s { replacer = pin s.replacer f }) f
        (record (s.pages f) { pin_count = suc (s.pages f).pin_count }),
  )

  unfoldable pub fetch_page : PageId → M S (Option ℕ)
  fetch_page page_id s = elim (lookup PageId-discrete page_id s.page_table) [
    | some f ↦ fetch_hit f s
    | none ↦
        let (found, s') = find_victim_page s in
        elim found [ none ↦ (ok none, s') | some f ↦ load f page_id s' ]
  ]

  unfoldable pub unpin_frame : ℕ → Bool → M S Bool
  unpin_frame f dirty s =
      let p = s.pages f in
      if p.pin_count == 0 then (ok false, s) else (
        ok true,
        with_page
            (record s {
              replacer = if p.pin_count - 1 == 0 then unpin s.replacer f else s.replacer;
            })
            f
            (record p {
              pin_count = p.pin_count - 1;
              is_dirty = if dirty then true else p.is_dirty;
            }),
      )

  unfoldable pub unpin_page : PageId → Bool → M S Bool
  unpin_page page_id dirty s = elim (lookup PageId-discrete page_id s.page_table) [
    | none ↦ (ok false, s)
    | some f ↦ unpin_frame f dirty s
  ]

  -- `flush_page` writes under the identity that it was called with.
  unfoldable pub write_as : ℕ → PageId → M S (Unit {0})
  write_as f p s =
      let (r, d) = Disk.write_page s.disk p.fd p.page_no (s.pages f).content page_size in
      (r, record s { disk = d })

  unfoldable pub flush_frame : ℕ → PageId → M S Bool
  flush_frame f page_id = do write_as f page_id; clear_dirty f; pure true

  unfoldable pub flush_page : PageId → M S Bool
  flush_page page_id s = elim (lookup PageId-discrete page_id s.page_table) [
    | none ↦ (ok false, s)
    | some f ↦
        ite (ℤ-discrete page_id.page_no invalid_page_id) (ok false, s) (flush_frame f page_id s)
  ]

  unfoldable pub allocate : ℤ → M S ℤ
  allocate fd s = let (r, d) = Disk.allocate_page s.disk fd in (r, record s { disk = d })

  unfoldable pub claim : ℕ → PageId → M S (Option (ℕ × PageId))
  claim f page_id s = (
    ok (some (f, page_id)),
    with_page
        (record s {
          page_table = insert PageId-discrete page_id f s.page_table;
          replacer = pin s.replacer f;
        })
        f (record (s.pages f) { id = page_id; pin_count = 1 }),
  )

  unfoldable pub create : ℕ → ℤ → M S (Option (ℕ × PageId))
  create f fd = do n ← allocate fd; write_back f; claim f (record { fd = fd; page_no = n })

  -- The new page's frame, and what `*page_id` is set to.
  unfoldable pub new_page : ℤ → M S (Option (ℕ × PageId))
  new_page fd s =
      let (found, s') = find_victim_page s in
      elim found [ none ↦ (ok none, s') | some f ↦ create f fd s' ]

  -- Here the page is not cleared of its dirty mark, and keeps its `id_`.
  unfoldable pub release : ℕ → PageId → M S Bool
  release f page_id s = (
    ok true,
    with_page
        (record s {
          page_table = erase PageId-discrete page_id s.page_table;
          replacer = unpin s.replacer f;
          free_list = s.free_list ++ f ∷ [];
        })
        f (reset_memory (s.pages f)),
  )

  unfoldable pub write_if_dirty : ℕ → M S (Unit {0})
  write_if_dirty f s = if (s.pages f).is_dirty then write_frame f s else (ok tt, s)

  unfoldable pub delete_frame : ℕ → PageId → M S Bool
  delete_frame f page_id s =
      if (s.pages f).pin_count == 0
      then (write_if_dirty f >> release f page_id) s
      else (ok false, s)

  unfoldable pub delete_page : PageId → M S Bool
  delete_page page_id s = elim (lookup PageId-discrete page_id s.page_table) [
    | none ↦ (ok true, s)
    | some f ↦ delete_frame f page_id s
  ]

  -- The loop of `flush_all_pages` over the entries of the page table.
  unfoldable pub flush_entries : List (PageId × ℕ) → M S (Unit {0})
  flush_entries [] = pure tt
  flush_entries ((p, f) ∷ entries) = do _ ← flush_page p; flush_entries entries

  -- `fd` is not used.
  unfoldable pub flush_all_pages : ℤ → M S (Unit {0})
  flush_all_pages fd s = flush_entries s.page_table s
