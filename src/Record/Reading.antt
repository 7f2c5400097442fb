-- ===== src/Record/Reading.antt =====
-- What is read of a file after a record was written.
use uni_base.Base.{
  ℕ, suc, ◌≤◌, ◌<◌, ◌≡◌, refl, sym, ap, ◌∙◌, subst, List, Option, none, some, Bool, true, false,
  ◌==◌, if◌then◌else◌, pos,
}
use uni_base.Errors.{Result, ok}
use uni_base.Replacer.{Replacer}
use uni_base.Bytes.{slice}
use uni_base.Storage.Page.{Block}
use uni_base.Record.{Rid, RmFile, RmFileHdr, get_slot}
use uni_base.Record.Handle.{get_record, update_record}
use uni_base.Record.Insert.{insert_record}
use uni_base.Record.Slots.{IsWithin}
use uni_base.Record.Resident.{IsResident, record_at}
use uni_base.Record.Rewrites.{IsUpdate, IsOutcome}
use uni_base.Record.Methods.{rid_of, answer, get_record-answer, update_record-IsOutcome}
use uni_base.Record.Inserting.{insert_record-IsUpdate}

answer-if :
    (r : Rid) (c : Bool) (x : List ℕ) (o : Option (List ℕ))
    → answer r (if c then some x else o) ≡ (if c then ok x else answer r o)
answer-if r true x o = refl
answer-if r false x o = refl

module _ (R : Replacer) where
  open R use {S}

  -- After a record is written, a read of its slot returns it, and a read of another slot what it returned before.
  get_record-IsUpdate :
      (t u : RmFile S) (n j k : ℕ) (x : List ℕ)
      → IsResident t
      → 1 ≤ n
      → n < t.file_hdr.num_pages
      → IsWithin t.file_hdr
      → j < t.file_hdr.num_records_per_page
      → IsUpdate t u n k (some x)
      → (get_record R (rid_of n j) u).0 ≡ (if j == k then ok x else (get_record R (rid_of n j) t).0)
  unfolding get_slot
  get_record-IsUpdate t u n j k x w l h i b c =
      let rid = rid_of n j in
      let (r, _, _) =
        get_record-answer R u n j c.resident l
          (subst (λ (a : RmFileHdr). n < a.num_pages) (sym c.same_hdr) h)
          (subst (λ (a : RmFileHdr). IsWithin a) (sym c.same_hdr) i)
          (subst (λ (a : RmFileHdr). j < a.num_records_per_page) (sym c.same_hdr) b) in
      let (s, _, _) = get_record-answer R t n j w l h i b in
      r
      ∙ ap (answer rid) (c.there j b)
      ∙ answer-if rid (j == k) x (record_at t n j)
      ∙ ap (λ z. if j == k then ok x else z) (sym s)

  -- On an open file whose pages of records are all in the pool, with slots that end within the page, and a slot of a
  -- page of the file that holds a record: `update_record` of it returns, a `get_record` of that slot then returns the
  -- first bytes of the buffer, as many as a record has, and of any other slot of the page what it returned before.
  pub get_record-update_record :
      (t : RmFile S) (n j k : ℕ) (buf : Block) (old : List ℕ)
      → IsResident t
      → 1 ≤ n
      → n < t.file_hdr.num_pages
      → IsWithin t.file_hdr
      → k < t.file_hdr.num_records_per_page
      → j < t.file_hdr.num_records_per_page
      → record_at t n k ≡ some old
      → let u = update_record R (rid_of n k) buf t in
        (u.0 ≡ ok tt)
        × ((get_record R (rid_of n j) u.1).0 ≡ (
            if j == k
            then ok (slice buf 0 t.file_hdr.record_size)
            else (get_record R (rid_of n j) t).0))
  get_record-update_record t n j k buf old w l h i b d e =
      let u = update_record R (rid_of n k) buf t in
      let new = slice buf 0 t.file_hdr.record_size in
      let (r, c) : IsOutcome t n k (some old) (some new) u =
        subst (λ o. IsOutcome t n k o (some new) u) e
          (update_record-IsOutcome R t n k buf w l h i b) in
      (r, get_record-IsUpdate t u.1 n j k new w l h i d c)

  -- A record id of the page is returned, and a read of it returns the first bytes of the buffer, a read of any other
  -- slot of the page what it returned before.
  abbrev pub IsReadBack : RmFile S → ℕ → Block → Result Rid × RmFile S → Type 0
  IsReadBack t n buf (r, u) =
      (k : ℕ) × (r ≡ ok (rid_of n k))
      × ((j : ℕ)
          → j < t.file_hdr.num_records_per_page
          → (get_record R (rid_of n j) u).0 ≡ (
              if j == k
              then ok (slice buf 0 t.file_hdr.record_size)
              else (get_record R (rid_of n j) t).0))

  -- On an open file whose pages of records are all in the pool, with slots that end within the page, if the page at
  -- the head of the free pages is one of them and has a slot without a record: `insert_record`, given one round or
  -- more, returns a record id of that page. A `get_record` of it then returns the first bytes of the buffer, as many as
  -- a record has, and a `get_record` of any other slot of the page what it returned before.
  pub get_record-insert_record :
      (t : RmFile S) (n j rounds : ℕ) (buf : Block)
      → IsResident t
      → t.file_hdr.first_free_page_no ≡ pos n
      → 1 ≤ n
      → n < t.file_hdr.num_pages
      → IsWithin t.file_hdr
      → j < t.file_hdr.num_records_per_page
      → record_at t n j ≡ none
      → IsReadBack t n buf (insert_record R (suc rounds) buf t)
  get_record-insert_record t n j rounds buf w p l h i b d =
      let u = insert_record R (suc rounds) buf t in
      let (k, r, _, _, c) = insert_record-IsUpdate R t n j rounds buf w p l h i b d in
      (
        k,
        r,
        λ m o. get_record-IsUpdate t u.1 n m k (slice buf 0 t.file_hdr.record_size) w l h i o c,
      )
