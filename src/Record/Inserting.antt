-- ===== src/Record/Inserting.antt =====
-- `insert_record` on a file whose first free page has room, and is in the pool.
use uni_base.Base.{
  ℕ, zero, suc, ◌+◌, ◌≤◌, ◌<◌, ◌≡◌, refl, sym, ap, ◌∙◌, subst, Option, none, some, true, false, ℤ,
  pos, arith, ite, ℤ-discrete, Bool-cases, inl, inr,
}
use uni_base.Errors.{Result, ok, Step, ◌>>=◌, ◌>>◌, bind-of, pure}
use uni_base.Replacer.{Replacer}
use uni_base.Bytes.{slice, put_int, get_int}
use uni_base.Storage.Page.{Block}
use uni_base.Storage.Disk.{increment}
use uni_base.Record.{
  Rid, RmFile, RmFileHdr, bytes, page_no_of, bitmap_at, num_records_at, next_free_at, holds_record,
  put_slot, slot_in_page, write_bytes, set_first_free, rm_no_page,
}
use uni_base.Record.Handle.{
  fetch_page_handle, create_page_handle, free_slot_from, write_slot, mark_slot,
  increment_num_records, retire_if_full, start_page,
}
use uni_base.Record.Bitmap
use uni_base.Record.Insert.{search_from, search, place, place_found, insert_record, first_free_slot}
use uni_base.Record.Slots.{slot, IsWithin, slot_in_page-below, slot-put_int}
use uni_base.Record.Resident.{
  IsResident, page_of, frame, record_at, pinned, fetch_page_handle-resident,
}
use uni_base.Record.Touches.{Touches, Touches-trans, write_bytes-Touches, pinned-Touches}
use uni_base.Record.Methods.{rid_of, lacks-pinned, write_slot-eq}
use uni_base.Record.Rewrites.{IsUpdate, rewrite-IsUpdate, set-IsRewrite, record_at-slot}
use uni_base.Record.Deleting.{IsHeaderStep, set_first_free-IsHeaderStep, pass-IsHeaderStep}

-- The loop over the bitmap finds a free slot if there is one.
free_slot_from-found :
    (b : Block) (n i j : ℕ)
    → i ≤ j
    → j < i + n
    → holds_record b (pos j) ≡ false
    → (k : ℕ) × (free_slot_from b n i ≡ some k) × (k < i + n) × (holds_record b (pos k) ≡ false)
unfolding free_slot_from
free_slot_from-found b zero i j l h e = absurd (omega (arith, l, h))
free_slot_from-found b (suc n) i j l h e = elim (Bool-cases (holds_record b (pos i))) [
  | inl m ↦
      let (k, f, u, s) = free_slot_from-found b n (suc i) j (ground arith) (omega arith) e in
      (k, rw m f, omega (arith, u), s)
  | inr m ↦ (i, rw m refl, omega arith, m)
]

slot-empty :
    (h : RmFileHdr) (b : Block) (k : ℕ) → holds_record b (pos k) ≡ false → slot h b k ≡ none
unfolding slot
slot-empty h b k e = rw e refl

module _ {S : Type 0} where
  retire_if_full-IsHeaderStep : (f : ℕ) (t : RmFile S) → IsHeaderStep f t (retire_if_full f t)
  unfolding retire_if_full
  retire_if_full-IsHeaderStep f t =
      elim (ℤ-discrete (get_int (bytes t f) num_records_at) (pos t.file_hdr.num_records_per_page))
        as (λ d.
          IsHeaderStep f t
            (ite d (set_first_free (get_int (bytes t f) next_free_at) t) (ok tt, t))) [
              | yes _ ↦ set_first_free-IsHeaderStep f (get_int (bytes t f) next_free_at) t
              | no _ ↦ pass-IsHeaderStep f t
            ]

  -- The record is stored, marked and counted.
  place-Touches :
      (t v : RmFile S) (buf : Block) (f : ℕ) (p : ℤ) (k : ℕ)
      → Touches f (λ b. b) t v
      → slot_in_page v.file_hdr (pos k) ≡ true
      → let (r, u) = place buf f p k v in
        (r ≡ ok (record { page_no = p; slot_no = pos k }))
        × ((g : Block → Block) × Touches f g t u
            × ((j : ℕ)
                → slot t.file_hdr (g (bytes t f)) j
                  ≡ slot t.file_hdr
                      (Bitmap.set (put_slot v.file_hdr (bytes t f) (pos k) buf) bitmap_at k)
                      j))
  unfolding place mark_slot increment_num_records
  place-Touches t v buf f p k a i =
      let store : Block → Block = λ b. put_slot v.file_hdr b (pos k) buf in
      let mark : Block → Block = λ b. Bitmap.set b bitmap_at k in
      let count : Block → Block =
        λ b. put_int b num_records_at (increment (get_int b num_records_at)) in
      let x = (write_bytes f (λ w b. put_slot w.file_hdr b (pos k) buf) v).1 in
      let y = (mark_slot f (pos k) x).1 in
      let z = (increment_num_records f y).1 in
      let u = retire_if_full f z in
      let (r, (g, c, s)) = retire_if_full-IsHeaderStep f z in
      let to_x =
        Touches-trans f (λ b. b) store t v x a
          (write_bytes-Touches f (λ w b. put_slot w.file_hdr b (pos k) buf) v) in
      let to_y = Touches-trans f store mark t x y to_x (write_bytes-Touches f (λ _. mark) x) in
      let to_z =
        Touches-trans f (λ b. mark (store b)) count t y z to_y
          (write_bytes-Touches f (λ _. count) y) in
      let to_u = Touches-trans f (λ b. count (mark (store b))) g t z u.1 to_z c in
      let rid : Rid = record { page_no = p; slot_no = pos k } in
      let rest : Step (RmFile S) Rid =
        mark_slot f (pos k) >> (increment_num_records f >> (retire_if_full f >> pure rid)) in
      let path : place buf f p k v ≡ (ok rid, u.1) =
        bind-of (write_slot f (pos k) buf) (λ _. rest) v x tt (write_slot-eq f k buf v i)
        ∙ bind-of (retire_if_full f) (λ _. pure rid) z u.1 tt (ap (λ a. (a, u.1)) r) in
      (
        ap (λ (a : Result Rid × RmFile S). a.0) path,
        (
          (λ b. g (count (mark (store b)))),
          subst (λ (a : Result Rid × RmFile S). Touches f (λ b. g (count (mark (store b)))) t a.1)
              (sym path) to_u,
          λ j.
              s t.file_hdr (count (mark (store (bytes t f)))) j
              ∙ slot-put_int t.file_hdr (mark (store (bytes t f))) num_records_at
                  (increment (get_int (mark (store (bytes t f))) num_records_at)) j (omega arith),
        ),
      )

  -- A slot of the page that held no record now holds the first bytes of the buffer, and is returned.
  abbrev pub IsInserted : RmFile S → ℕ → Block → Result Rid × RmFile S → Type 0
  IsInserted t n buf (r, u) =
      (k : ℕ) × (r ≡ ok (rid_of n k))
      × (record_at t n k ≡ none)
      × (k < t.file_hdr.num_records_per_page)
      × IsUpdate t u n k (some (slice buf 0 t.file_hdr.record_size))

module _ (R : Replacer) where
  open R use {S}

  -- The search stops on a page with room.
  search-found :
      (rounds f k : ℕ) (p : ℤ) (v : RmFile S)
      → free_slot_from (bytes v f) v.file_hdr.num_records_per_page 0 ≡ some k
      → search R (suc rounds) f p v
        ≡ (ok (record { frame = f; page_no = p; free_slot = some k }), v)
  unfolding search first_free_slot search_from
  search-found rounds f k p v e =
      bind-of (first_free_slot f) (search_from R (search R rounds) f p) v v (some k)
        (ap (λ (o : Option ℕ). (ok o, v)) e)

  create_page_handle-free :
      (t : RmFile S) (n f : ℕ)
      → IsResident t
      → n < t.file_hdr.num_pages
      → t.file_hdr.first_free_page_no ≡ pos n
      → frame t n ≡ some f
      → create_page_handle R t ≡ (ok f, pinned R f t)
  unfolding create_page_handle ℤ-discrete
  create_page_handle-free t n f w h p e =
      ap (λ x. ite (ℤ-discrete x rm_no_page) (start_page R t) (fetch_page_handle R x t)) p
      ∙ fetch_page_handle-resident R t n f w.path w.named h e

  -- On an open file whose pages of records are all in the pool, with slots that end within the page, if the
  -- page at the head of the free pages is one of them and has a slot without a record, then one round of the
  -- loop is enough, and `insert_record` returns a slot of that page that held no record; the slot then holds
  -- the first bytes of the buffer, as many as a record has, and every other slot of the file what it held. The
  -- header changes in its first free page at most.
  pub insert_record-IsUpdate :
      (t : RmFile S) (n j rounds : ℕ) (buf : Block)
      → IsResident t
      → t.file_hdr.first_free_page_no ≡ pos n
      → 1 ≤ n
      → n < t.file_hdr.num_pages
      → IsWithin t.file_hdr
      → j < t.file_hdr.num_records_per_page
      → record_at t n j ≡ none
      → IsInserted t n buf (insert_record R (suc rounds) buf t)
  unfolding insert_record place_found
  insert_record-IsUpdate t n j rounds buf w p l h i b d =
      let (f, e) = w.resident n l h in
      let v = pinned R f t in
      let a = pinned-Touches R f t in
      let (k, found, m, unmarked) =
        free_slot_from-found (bytes v f) t.file_hdr.num_records_per_page 0 j (omega arith)
          (omega (arith, b)) (lacks-pinned R t n f j e d) in
      let q = page_no_of v f in
      let at_n : q ≡ pos n = ap (λ i. i.page_no) (a.same_id f ∙ w.own (page_of t n) f e) in
      let (r, (g, c, s)) =
        place-Touches t v buf f q k a (slot_in_page-below t.file_hdr k i (omega (arith, m))) in
      let u = (place buf f q k v).1 in
      let then_place : ℕ → Step (RmFile S) Rid =
        λ g. (λ x. search R (suc rounds) g (page_no_of x g) x) >>= place_found R buf in
      let path : insert_record R (suc rounds) buf t ≡ place buf f q k v =
        bind-of (create_page_handle R) then_place t v f (create_page_handle-free t n f w h p e)
        ∙ bind-of (λ x. search R (suc rounds) f (page_no_of x f) x) (place_found R buf) v v
            (record { frame = f; page_no = q; free_slot = some k })
            (search-found rounds f k q v found) in
      let free : record_at t n k ≡ none =
        record_at-slot t n f k e
        ∙ ap (λ b. slot t.file_hdr b k) (sym a.here)
        ∙ slot-empty t.file_hdr (bytes v f) k unmarked in
      (
        k,
        ap (λ (x : Result Rid × RmFile S). x.0) path
            ∙ r
            ∙ ap (λ i. ok (record { page_no = i; slot_no = pos k })) at_n,
        free,
        omega (arith, m),
        subst
            (λ (x : Result Rid × RmFile S).
              IsUpdate t x.1 n k (some (slice buf 0 t.file_hdr.record_size)))
            (sym path)
            (rewrite-IsUpdate t u n f k (some (slice buf 0 t.file_hdr.record_size)) g w e c (λ x o.
              s x ∙ set-IsRewrite t.file_hdr (bytes t f) buf k w.markable (omega (arith, m)) x o)),
      )
