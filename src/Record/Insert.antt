-- ===== src/Record/Insert.antt =====
-- `RmFileHandle::insert_record`. The argument `rounds` bounds its loop over the free pages, which has
-- none of its own; a loop that takes more rounds is reported as `still_running`.
use uni_base.Base.{ℕ, zero, suc, Option, none, some, ite, ℤ, pos, ℤ-discrete}
use uni_base.Errors.{still_running, throw, Step, ◌>>=◌, ◌>>◌, pure, ok}
use uni_base.Replacer.{Replacer}
use uni_base.Bytes.{get_int}
use uni_base.Storage.Page.{Block}
use uni_base.Record.{
  Rid, RmFile, rm_no_page, next_free_at, bytes, page_no_of, set_first_free, set_next_free,
}
use uni_base.Record.Handle.{
  fetch_page_handle, create_page_handle, create_new_page_handle, free_slot_from, write_slot,
  mark_slot, increment_num_records, retire_if_full,
}

-- Where the loop stops: the page handle, `page_no`, and the free slot.
pub record Search : Type 0 where
  pub frame : ℕ
  pub page_no : ℤ
  pub free_slot : Option ℕ

module _ {S : Type 0} where
  unfoldable pub first_free_slot : ℕ → Step (RmFile S) (Option ℕ)
  unfolding free_slot_from
  first_free_slot f t = (ok (free_slot_from (bytes t f) t.file_hdr.num_records_per_page 0), t)

  unfoldable pub follow_link : ℕ → Step (RmFile S) ℤ
  follow_link f t = let n = get_int (bytes t f) next_free_at in (set_first_free n >> pure n) t

  -- The end of `insert_record`, with the slot found.
  unfoldable pub place : Block → ℕ → ℤ → ℕ → Step (RmFile S) Rid
  place buf f page_no k = do
    write_slot f (pos k) buf
    mark_slot f (pos k)
    increment_num_records f
    retire_if_full f
    pure (record { page_no = page_no; slot_no = pos k })

module _ (R : Replacer) where
  open R use {S}

  -- One round: the page's bitmap was looked through, and `rest` goes on with the next page.
  unfoldable pub search_from :
      (ℕ → ℤ → Step (RmFile S) Search) → ℕ → ℤ → Option ℕ → Step (RmFile S) Search
  unfolding follow_link
  search_from rest f page_no (some k) =
      pure (record { frame = f; page_no = page_no; free_slot = some k })
  search_from rest f page_no none = do
    next ← follow_link f
    λ u.
        ite (ℤ-discrete next rm_no_page)
          (ok (record { frame = f; page_no = next; free_slot = none }), u)
          ((do g ← fetch_page_handle R next; rest g next) u)

  unfoldable pub search : ℕ → ℕ → ℤ → Step (RmFile S) Search
  unfolding first_free_slot search_from
  search zero f page_no t = (throw still_running, t)
  search (suc n) f page_no t =
      (do found ← first_free_slot f; search_from (search n) f page_no found) t

  -- No page has room: a new one is linked behind the last page that was looked at.
  unfoldable pub append_page : ℕ → Step (RmFile S) ℕ
  append_page f = do
    g ← create_new_page_handle R
    λ t. (set_next_free f (page_no_of t g) >> set_first_free (page_no_of t g)) t
    pure g

  unfoldable pub place_found : Block → Search → Step (RmFile S) Rid
  unfolding place append_page
  place_found buf s = elim s.free_slot [
    | some k ↦ place buf s.frame s.page_no k
    | none ↦ do g ← append_page s.frame; λ t. place buf g (page_no_of t g) 0 t
  ]

  unfoldable pub insert_record : ℕ → Block → Step (RmFile S) Rid
  unfolding search place_found
  insert_record rounds buf = do
    f ← create_page_handle R
    found ← λ t. search rounds f (page_no_of t f) t
    place_found buf found
