-- ===== src/Record/Handle.antt =====
-- The methods of src/record/rm_file_handle.cpp, but for `insert_record`.
use uni_base.Base.{
  ℕ, zero, suc, List, Option, none, some, Bool, ite, if◌then◌else◌, ℤ, pos, negsuc, minus_one,
  ℤ-discrete,
}
use uni_base.Errors.{record_not_found, undefined_behaviour, ok, throw, Step, ◌>>=◌, ◌>>◌, pure}
use uni_base.Replacer.{Replacer}
use uni_base.Bytes.{get_int, put_int}
use uni_base.Storage.Page.{Block}
use uni_base.Storage.Disk.{increment}
use uni_base.Storage.Pool.{Pool, M, with_page}
use uni_base.Storage.Pool
use uni_base.Record.Bitmap
use uni_base.Record.{
  Rid, RmFile, bitmap_at, bytes, check_page_no, decrement, deref, file_name, holds_record,
  next_free_at, num_records_at, page_no_of, pooled, put_slot, rm_no_page, set_first_free,
  set_next_free, slot_bytes, slot_in_page, write_bytes,
}

module _ {S : Type 0} where
  unfoldable pub increment_num_records : ℕ → Step (RmFile S) (Unit {0})
  unfolding increment
  increment_num_records f =
      write_bytes f (λ _ b. put_int b num_records_at (increment (get_int b num_records_at)))

  unfoldable pub decrement_num_records : ℕ → Step (RmFile S) (Unit {0})
  decrement_num_records f =
      write_bytes f (λ _ b. put_int b num_records_at (decrement (get_int b num_records_at)))

  -- `get_record` and `update_record` once they have the page. What they do with a slot that is not in the page, whose
  -- number the code does not check, is undefined.
  unfoldable pub read_slot : ℕ → Rid → Step (RmFile S) (List ℕ)
  read_slot f rid t =
      if holds_record (bytes t f) rid.slot_no
      then (if slot_in_page t.file_hdr rid.slot_no
          then (ok (slot_bytes t.file_hdr (bytes t f) rid.slot_no), t)
          else (throw undefined_behaviour, t))
      else (throw (record_not_found rid.page_no rid.slot_no), t)

  unfoldable pub write_slot : ℕ → ℤ → Block → Step (RmFile S) (Unit {0})
  write_slot f slot_no buf t =
      if slot_in_page t.file_hdr slot_no
      then write_bytes f (λ x b. put_slot x.file_hdr b slot_no buf) t
      else (throw undefined_behaviour, t)

  unfoldable pub check_slot : ℕ → Rid → Step (RmFile S) (Unit {0})
  check_slot f rid t =
      if holds_record (bytes t f) rid.slot_no
      then (ok tt, t)
      else (throw (record_not_found rid.page_no rid.slot_no), t)

  unfoldable pub release_page_handle : ℕ → Step (RmFile S) (Unit {0})
  release_page_handle f t =
      let old = t.file_hdr.first_free_page_no in
      (set_first_free (page_no_of t f) >> set_next_free f old) t

  -- After a deletion: a page that was full has room again.
  unfoldable pub release_if_was_full : ℕ → Step (RmFile S) (Unit {0})
  release_if_was_full f t =
      ite
        (ℤ-discrete (get_int (bytes t f) num_records_at)
          (decrement (pos t.file_hdr.num_records_per_page)))
        (release_page_handle f t) (ok tt, t)

  unfoldable pub clear_slot : ℕ → ℤ → Step (RmFile S) (Unit {0})
  unfolding Bitmap.reset
  clear_slot f (pos k) = write_bytes f (λ _ b. Bitmap.reset b bitmap_at k)
  clear_slot f (negsuc k) = pure tt

  unfoldable pub mark_slot : ℕ → ℤ → Step (RmFile S) (Unit {0})
  unfolding Bitmap.set
  mark_slot f (pos k) = write_bytes f (λ _ b. Bitmap.set b bitmap_at k)
  mark_slot f (negsuc k) = pure tt

  -- After an insertion: a page that has become full leaves the head of the free pages.
  unfoldable pub retire_if_full : ℕ → Step (RmFile S) (Unit {0})
  retire_if_full f t =
      ite (ℤ-discrete (get_int (bytes t f) num_records_at) (pos t.file_hdr.num_records_per_page))
        (set_first_free (get_int (bytes t f) next_free_at) t) (ok tt, t)

  unfoldable pub add_page : Step (RmFile S) (Unit {0})
  add_page t =
      (ok tt, record t { file_hdr = record t.file_hdr { num_pages = suc t.file_hdr.num_pages } })

-- The first slot from `i` on, among `n`, that holds no record.
unfoldable pub free_slot_from : Block → ℕ → ℕ → Option ℕ
free_slot_from b zero i = none
free_slot_from b (suc n) i =
    let rest = free_slot_from b n (suc i) in if holds_record b (pos i) then rest else some i

module _ (R : Replacer) where
  open R use {S}

  unfoldable pub fetch_page_handle : ℤ → Step (RmFile S) ℕ
  fetch_page_handle page_no t =
      (do
        name ← file_name
        check_page_no name page_no
        found ← pooled (Pool.fetch_page R (record { fd = t.fd; page_no = page_no }))
        deref found)
        t

  unfoldable pub is_record : Rid → Step (RmFile S) Bool
  is_record rid t =
      (do f ← fetch_page_handle rid.page_no; λ u. (ok (holds_record (bytes u f) rid.slot_no), u)) t

  unfoldable pub get_record : Rid → Step (RmFile S) (List ℕ)
  get_record rid = do f ← fetch_page_handle rid.page_no; read_slot f rid

  unfoldable pub update_record : Rid → Block → Step (RmFile S) (Unit {0})
  update_record rid buf = do
    f ← fetch_page_handle rid.page_no
    check_slot f rid
    write_slot f rid.slot_no buf

  unfoldable pub delete_record : Rid → Step (RmFile S) (Unit {0})
  delete_record rid = do
    f ← fetch_page_handle rid.page_no
    check_slot f rid
    clear_slot f rid.slot_no
    decrement_num_records f
    release_if_was_full f

  -- The link from the first free page, where there is one, to the new page.
  unfoldable pub link_page : ℤ → Step (RmFile S) (Unit {0})
  link_page page_no t =
      let first = t.file_hdr.first_free_page_no in
      ite (ℤ-discrete first rm_no_page) (set_first_free page_no t)
        ((do g ← fetch_page_handle first; set_next_free g page_no) t)

  unfoldable pub create_new_page_handle : Step (RmFile S) ℕ
  create_new_page_handle t =
      (do
        made ← pooled (Pool.new_page R t.fd)
        (f, page_id) ← deref made
        add_page
        link_page page_id.page_no
        pure f)
        t

  unfoldable pub start_page : Step (RmFile S) ℕ
  start_page = do
    f ← create_new_page_handle
    set_next_free f minus_one
    write_bytes f (λ _ b. put_int b num_records_at (pos 0))
    λ t. set_first_free (page_no_of t f) t
    pure f

  unfoldable pub create_page_handle : Step (RmFile S) ℕ
  create_page_handle t =
      let first = t.file_hdr.first_free_page_no in
      ite (ℤ-discrete first rm_no_page) (start_page t) (fetch_page_handle first t)
