-- ===== src/Storage/Pool/Contents/Fetch.antt =====
-- Reading a page into a frame that was taken and written back.
use uni_base.Base.{
  ℕ, ◌<◌, ◌≡◌, ◌≢◌, refl, sym, ap, subst, ◌∙◌, inl, inr, Option, none, some, true, false, arith,
  lookup, erase, lookup-erase, lookup-insert, Bool-cases, Option-cases,
}
use uni_base.Errors.{Result, ok, bind-ok, bind-of}
use uni_base.Replacer.{Replacer}
use uni_base.Storage.Page.{Page, PageId, PageId-discrete, page_size}
use uni_base.Storage.Disk.Stored.{IsPageNo, stored, stored-read, read-stored}
use uni_base.Storage.Pool.{
  Pool, M, ◌>>=◌, write_back, retarget, update_page, update_if_dirty, read_frame, install, load,
}
use uni_base.Storage.Pool.Invariant.{frame_of}
use uni_base.Storage.Pool.Contents.{content, content_at, IsClean}
use uni_base.Storage.Pool.Contents.Eviction.{
  IsSpare, IsWritten, write_back-IsWritten, write_back-clean,
}

-- The pool when the page `p` has been read into the frame `f`.
pub record IsLoaded (R : Replacer) (f : ℕ) (p : PageId) (w u : Pool R.S) : Type 0 where
  pub here : frame_of u p ≡ some f
  pub others : (q : PageId) → p ≢ q → frame_of u q ≡ frame_of w q
  pub other_pages : (g : ℕ) → f ≢ g → u.pages g ≡ w.pages g
  pub filled :
      (i : ℕ) → IsPageNo p.page_no → i < page_size → (u.pages f).content i ≡ stored w.disk p i
  pub same_disk : (q : PageId) (i : ℕ) → stored u.disk q i ≡ stored w.disk q i
  pub not_dirty : (u.pages f).is_dirty ≡ false
  pub pinned : (u.pages f).pin_count ≡ 1
  pub id : (u.pages f).id ≡ p
  pub same_free : u.free_list ≡ w.free_list
  pub replacer_pinned : u.replacer ≡ R.pin w.replacer f

module _ (R : Replacer) (f : ℕ) (p : PageId) where
  open R use {S}

  abbrev pub finish : M S (Option ℕ)
  finish = read_frame f p >>= λ _. install R f p

  installed : (v : Pool S) → Pool S
  installed v = (install R f p (read_frame f p v).1).1

  installed-IsLoaded :
      (v : Pool S)
      → (v.pages f).is_dirty ≡ false
      → (read_frame f p v).0 ≡ ok tt
      → IsLoaded R f p v (installed v)
  unfolding read_frame install installed
  installed-IsLoaded v d e = record {
    here = ground (arith, lookup-insert PageId-discrete p p f v.page_table);
    others = λ q ne. ground (arith, lookup-insert PageId-discrete p q f v.page_table);
    other_pages = λ g ne. ground arith;
    filled = λ i hp hi. ground (arith, read-stored v.disk p (v.pages f).content i hp hi e);
    same_disk = λ q i. stored-read v.disk p q (v.pages f).content i;
    not_dirty = ground arith;
    pinned = ground arith;
    id = ground arith;
    same_free = refl;
    replacer_pinned = refl;
  }

  install-ok : (v : Pool S) → (install R f p v).0 ≡ ok (some f)
  unfolding install
  install-ok v = refl

  pub finish-IsLoaded :
      (v : Pool S) {o : Option ℕ}
      → (v.pages f).is_dirty ≡ false
      → (finish v).0 ≡ ok o
      → ((finish v).0 ≡ ok (some f)) × IsLoaded R f p v (finish v).1
  unfolding installed
  finish-IsLoaded v d e =
      let (a, h, k) = bind-ok (read_frame f p) (λ _. install R f p) v e in
      (
        ap (λ (r : Result (Option ℕ) × Pool S). r.0) k ∙ install-ok _,
        subst (λ (r : Result (Option ℕ) × Pool S). IsLoaded R f p v r.1) (sym k)
            (installed-IsLoaded v d h),
      )

  -- `load` without `update_page`, and with it.
  load-clean : (t : Pool S) → (t.pages f).is_dirty ≡ false → load R f p t ≡ finish t
  unfolding load update_if_dirty
  load-clean t d =
      bind-of (update_if_dirty R f p) (λ _. finish) t t tt (rw (d, update_if_dirty) refl)

  update_if_dirty-dirty :
      (t : Pool S) → (t.pages f).is_dirty ≡ true → update_if_dirty R f p t ≡ update_page f p f t
  unfolding update_if_dirty
  update_if_dirty-dirty t d = rw (d, update_if_dirty) refl

  pub load-dirty :
      (t : Pool S) {o : Option ℕ}
      → (t.pages f).is_dirty ≡ true
      → (load R f p t).0 ≡ ok o
      → ((write_back f t).0 ≡ ok tt) × (load R f p t ≡ finish (retarget f p f (write_back f t).1).1)
  unfolding load update_page
  load-dirty t d e =
      let (a, h, k) = bind-ok (update_if_dirty R f p) (λ _. finish) t e in
      let u = update_if_dirty-dirty t d in
      let (b, g, l) = bind-ok (write_back f) (λ _. retarget f p f) t (sym (ap (λ r. r.0) u) ∙ h) in
      (g, k ∙ ap (λ (r : Result (Unit {0}) × Pool S). finish r.1) (u ∙ l))

  retarget-others :
      (w : Pool S) (q : PageId)
      → frame_of w (w.pages f).id ≡ none
      → p ≢ q
      → frame_of (retarget f p f w).1 q ≡ frame_of w q
  unfolding retarget
  retarget-others w q m ne = ground (
    arith,
    lookup-insert PageId-discrete p q f (erase PageId-discrete (w.pages f).id w.page_table),
    lookup-erase PageId-discrete (w.pages f).id q w.page_table,
  )

  pub retarget-not_dirty :
      (w : Pool S) → (w.pages f).is_dirty ≡ false → ((retarget f p f w).1.pages f).is_dirty ≡ false
  unfolding retarget
  retarget-not_dirty w d = ground arith

  retarget-IsLoaded :
      (w u : Pool S)
      → frame_of w (w.pages f).id ≡ none
      → IsLoaded R f p (retarget f p f w).1 u
      → IsLoaded R f p w u
  unfolding retarget
  retarget-IsLoaded w u m l = record {
    here = l.here;
    others = λ q ne. l.others q ne ∙ retarget-others w q m ne;
    other_pages = λ g ne. l.other_pages g ne ∙ ground arith;
    filled = l.filled;
    same_disk = l.same_disk;
    not_dirty = l.not_dirty;
    pinned = l.pinned;
    id = l.id;
    same_free = l.same_free;
    replacer_pinned = l.replacer_pinned;
  }

  -- The frame was taken in `t` and written back in `w`; then the page is in `u`, or it throws.
  pub load-IsLoaded :
      (s t : Pool S) {o : Option ℕ}
      → IsSpare f s t
      → (load R f p t).0 ≡ ok o
      → ((load R f p t).0 ≡ ok (some f))
        × (IsWritten f t (write_back f t).1)
        × (IsLoaded R f p (write_back f t).1 (load R f p t).1)
  load-IsLoaded s t sp e = elim (Bool-cases (t.pages f).is_dirty) [
    | inl d ↦
        let (h, k) = load-dirty t d e in
        let w = write_back-IsWritten f t numbered h in
        let (r, l) =
          finish-IsLoaded (retarget f p f (write_back f t).1).1 (retarget-not_dirty _ w.not_dirty)
            (sym (ap (λ r. r.0) k) ∙ e) in
        (
          ap (λ r. r.0) k ∙ r,
          w,
          subst (λ (r : Result (Option ℕ) × Pool S). IsLoaded R f p (write_back f t).1 r.1) (sym k)
              (retarget-IsLoaded _ _ (table w d) l),
        )
    | inr d ↦
        let k = load-clean t d in
        let none_written = write_back-clean f t d in
        let (r, l) = finish-IsLoaded t d (sym (ap (λ r. r.0) k) ∙ e) in
        (
          ap (λ r. r.0) k ∙ r,
          write_back-IsWritten f t numbered (ap (λ r. r.0) none_written),
          subst (λ (a : Result (Unit {0}) × Pool S). IsLoaded R f p a.1 (load R f p t).1)
              (sym none_written)
              (subst (λ (b : Result (Option ℕ) × Pool S). IsLoaded R f p t b.1) (sym k) l),
        )
  ]
    where
      id : (t.pages f).id ≡ (s.pages f).id
      id = ap (λ (h : ℕ → Page). (h f).id) sp.same_pages

      dirty : (t.pages f).is_dirty ≡ (s.pages f).is_dirty
      dirty = ap (λ (h : ℕ → Page). (h f).is_dirty) sp.same_pages

      numbered : (t.pages f).is_dirty ≡ true → IsPageNo (t.pages f).id.page_no
      numbered d = subst (λ (q : PageId). IsPageNo q.page_no) (sym id) (sp.numbered (sym dirty ∙ d))

      table :
          IsWritten f t (write_back f t).1
          → (t.pages f).is_dirty ≡ true
          → frame_of (write_back f t).1 ((write_back f t).1.pages f).id ≡ none
      table w d =
          ap (frame_of (write_back f t).1) (w.same_id f ∙ id)
          ∙ ap (lookup PageId-discrete (s.pages f).id) w.same_table
          ∙ sp.unmapped (sym dirty ∙ d)

  -- A page that was not in the pool before the load, and is seen as it was.
  pub loaded-content :
      (w u : Pool S) (q : PageId) (i : ℕ)
      → IsLoaded R f p w u
      → frame_of w p ≡ none
      → frame_of w q ≢ some f
      → IsPageNo p.page_no
      → i < page_size
      → content u q i ≡ content w q i
  loaded-content w u q i l m ne hp hi = elim (PageId-discrete p q) [
    | yes e ↦
        subst (λ r. content u r i ≡ content w r i) e
          (ap (λ o. content_at u p o i) l.here
            ∙ l.filled i hp hi
            ∙ sym (ap (λ o. content_at w p o i) m))
    | no e ↦ elim (Option-cases (frame_of w q)) [
      | inl k ↦
          ap (λ o. content_at u q o i) (l.others q e ∙ k)
          ∙ l.same_disk q i
          ∙ sym (ap (λ o. content_at w q o i) k)
      | inr (g, k) ↦
          ap (λ o. content_at u q o i) (l.others q e ∙ k)
          ∙ ap (λ (h : Page). h.content i) (l.other_pages g (λ fg. ne (k ∙ ap some (sym fg))))
          ∙ sym (ap (λ o. content_at w q o i) k)
    ]
  ]

  pub loaded-IsClean :
      (w u : Pool S) (q : PageId)
      → IsLoaded R f p w u
      → frame_of w q ≢ some f
      → IsPageNo p.page_no
      → IsClean q w
      → IsClean q u
  loaded-IsClean w u q l ne hp c g m d i hi = elim (PageId-discrete p q) [
    | yes e ↦
        let k : some f ≡ some g = sym l.here ∙ ap (frame_of u) e ∙ m in
        let fg : f ≡ g = cc k in
        subst (λ g. (u.pages g).content i ≡ stored u.disk q i) fg
          (l.filled i hp hi ∙ sym (l.same_disk p i) ∙ ap (λ r. stored u.disk r i) e)
    | no e ↦
        let k : frame_of w q ≡ some g = sym (l.others q e) ∙ m in
        let same : u.pages g ≡ w.pages g = l.other_pages g (λ fg. ne (k ∙ ap some (sym fg))) in
        ap (λ (h : Page). h.content i) same
        ∙ c g k (sym (ap (λ (h : Page). h.is_dirty) same) ∙ d) i hi
        ∙ sym (l.same_disk q i)
  ]
