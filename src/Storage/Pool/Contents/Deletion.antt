-- ===== src/Storage/Pool/Contents/Deletion.antt =====
-- `delete_page` leaves the dirty mark on the frame that it frees, and what follows from that.
use uni_base.Base.{
  ℕ, ◌<◌, ◌≡◌, refl, sym, ap, subst, ◌∙◌, List, [], ◌∷◌, ◌++◌, Option, none, some, Bool, true,
  arith, lookup-erase, ite,
}
use uni_base.Errors.{bind-ok, Result, ok}
use uni_base.Replacer.{Replacer}
use uni_base.Storage.Page.{PageId, PageId-discrete, page_size}
use uni_base.Storage.Disk.{DiskManager}
use uni_base.Storage.Disk.Stored.{IsPageNo, stored}
use uni_base.Storage.Pool.{
  Pool, ◌>>=◌, find_victim_page, take_free, write_back, retarget, load, fetch_page, delete_page,
  delete_frame, write_if_dirty, write_frame, release,
}
use uni_base.Storage.Pool.Invariant.{frame_of}
use uni_base.Storage.Pool.Contents.{IsSettled}
use uni_base.Storage.Pool.Contents.Eviction.{write_back-IsWritten}
use uni_base.Storage.Pool.Contents.Fetch.{finish-IsLoaded, load-dirty, retarget-not_dirty}

module _ (R : Replacer) where
  open R use {S}

  load-writes :
      (f : ℕ) (q : PageId) (t : Pool S) {o : Option ℕ} (i : ℕ)
      → (t.pages f).is_dirty ≡ true
      → IsPageNo (t.pages f).id.page_no
      → (load R f q t).0 ≡ ok o
      → i < page_size
      → stored (load R f q t).1.disk (t.pages f).id i ≡ (t.pages f).content i
  unfolding retarget
  load-writes f q t i d n e hi =
      let (h, k) = load-dirty R f q t d e in
      let w = write_back-IsWritten f t (λ _. n) h in
      let l =
        (finish-IsLoaded R f q (retarget f q f (write_back f t).1).1
          (retarget-not_dirty R f q (write_back f t).1 w.not_dirty)
          (sym (ap (λ r. r.0) k) ∙ e)).1 in
      ap (λ (r : Result (Option ℕ) × Pool S). stored r.1.disk (t.pages f).id i) k
      ∙ l.same_disk (t.pages f).id i
      ∙ w.on_disk (t.pages f).id i n hi
      ∙ ground arith

  first_free :
      (f : ℕ) (rest : List ℕ) (s : Pool S)
      → s.free_list ≡ f ∷ rest
      → find_victim_page R s ≡ (some f, record s { free_list = rest })
  unfolding find_victim_page take_free
  first_free f rest s e = λ i. take_free R s (e i)

  -- A free frame with the dirty mark on: the next page that is read into it first writes the
  -- frame's bytes over whatever the disk holds of the page that was there before.
  pub fetch_page-stale_write :
      (f : ℕ) (rest : List ℕ) (q : PageId) (s : Pool S) {o : Option ℕ} (i : ℕ)
      → s.free_list ≡ f ∷ rest
      → frame_of s q ≡ none
      → (s.pages f).is_dirty ≡ true
      → IsPageNo (s.pages f).id.page_no
      → (fetch_page R q s).0 ≡ ok o
      → i < page_size
      → stored (fetch_page R q s).1.disk (s.pages f).id i ≡ (s.pages f).content i
  unfolding fetch_page
  fetch_page-stale_write f rest q s {o} i e m d n h hi =
      subst
        (λ (r : Result (Option ℕ) × Pool S).
          stored r.1.disk (s.pages f).id i ≡ (s.pages f).content i)
        (sym path)
        (load-writes f q (record s { free_list = rest }) i d n (sym (ap (λ r. r.0) path) ∙ h) hi)
    where
      path : fetch_page R q s ≡ load R f q (record s { free_list = rest })
      path =
          rw (m, fetch_page)
            (λ i.
              let (found, t) = first_free f rest s e i in
              let r : Result (Option ℕ) × Pool S = elim found [
                | none ↦ (ok none, t)
                | some g ↦ load R g q t
              ] in
              r)

  write_if_dirty-disk :
      (f : ℕ) (s : Pool S)
      → (s.pages f).is_dirty ≡ true
      → (d : DiskManager) × ((write_if_dirty R f s).1 ≡ record s { disk = d })
  unfolding write_if_dirty write_frame
  write_if_dirty-disk f s d = ((write_frame f s).1.disk, rw (d, write_if_dirty) refl)

  -- `delete_page` of a dirty page that it deletes: the write, and the release of the frame.
  deleted :
      (f : ℕ) (p : PageId) (s : Pool S)
      → frame_of s p ≡ some f
      → (s.pages f).pin_count ≡ 0
      → (s.pages f).is_dirty ≡ true
      → (delete_page R p s).0 ≡ ok true
      → (d : DiskManager) × (delete_page R p s ≡ release R f p (record s { disk = d }))
  unfolding delete_page delete_frame
  deleted f p s m z d e =
      let path : delete_page R p s ≡ (write_if_dirty R f >>= λ _. release R f p) s =
        rw (m, delete_page) (rw (z, delete_frame) refl) in
      let (a, h, k) =
        bind-ok (write_if_dirty R f) (λ _. release R f p) s (sym (ap (λ r. r.0) path) ∙ e) in
      let (disk, same) = write_if_dirty-disk f s d in (disk, path ∙ k ∙ ap (release R f p) same)

  release-dirty :
      (f : ℕ) (p : PageId) (s : Pool S)
      → (s.pages f).is_dirty ≡ true
      → let u = (release R f p s).1 in
        ((u.pages f).is_dirty ≡ true)
        × ((u.pages f).id ≡ (s.pages f).id)
        × ((i : ℕ) → i < page_size → (u.pages f).content i ≡ 0)
        × (u.free_list ≡ s.free_list ++ f ∷ [])
        × ((q : PageId) → frame_of u q ≡ ite (PageId-discrete p q) none (frame_of s q))
  unfolding release
  release-dirty f p s d = (
    ground arith,
    ground arith,
    λ i hi. ground arith,
    refl,
    λ q. lookup-erase PageId-discrete p q s.page_table,
  )

  -- Deleting a dirty page leaves a frame that is dirty and mapped by no page: the pool is no longer
  -- settled, although the call succeeds.
  pub delete_page-unsettles :
      (f : ℕ) (p : PageId) (s : Pool S)
      → frame_of s p ≡ some f
      → (s.pages f).id ≡ p
      → (s.pages f).pin_count ≡ 0
      → (s.pages f).is_dirty ≡ true
      → (delete_page R p s).0 ≡ ok true
      → ¬ IsSettled R (delete_page R p s).1
  delete_page-unsettles f p s m id z d e c =
      let (disk, path) = deleted f p s m z d e in
      let r = release-dirty f p (record s { disk = disk }) d in
      let c' = subst (λ (r : Result Bool × Pool S). IsSettled R r.1) path c in
      let mapped = c'.dirty_mapped f r.0 in
      absurd (
        ground (
          arith,
          mapped,
          r.1,
          id,
          r.4 p,
          r.4 ((release R f p (record s { disk = disk })).1.pages f).id,
        ))

  -- On a pool without a free frame, when `delete_page` of a dirty unpinned page has succeeded, a
  -- `fetch_page` of a page outside the pool that succeeds replaces the bytes of the deleted page on
  -- disk by zeros.
  pub delete_page-fetch_page-zeros :
      (f : ℕ) (p q : PageId) (s : Pool S) {o : Option ℕ} (i : ℕ)
      → s.free_list ≡ []
      → frame_of s p ≡ some f
      → (s.pages f).id ≡ p
      → (s.pages f).pin_count ≡ 0
      → (s.pages f).is_dirty ≡ true
      → IsPageNo p.page_no
      → (delete_page R p s).0 ≡ ok true
      → frame_of s q ≡ none
      → (fetch_page R q (delete_page R p s).1).0 ≡ ok o
      → i < page_size
      → stored (fetch_page R q (delete_page R p s).1).1.disk p i ≡ 0
  delete_page-fetch_page-zeros f p q s {o} i free m id z d n e absent h hi =
      let (disk, path) = deleted f p s m z d e in
      let u = (release R f p (record s { disk = disk })).1 in
      let r = release-dirty f p (record s { disk = disk }) d in
      let same : (u.pages f).id ≡ p = r.1 ∙ id in
      let w =
        fetch_page-stale_write f [] q u i (r.3 ∙ ap (λ l. l ++ f ∷ []) free)
          (r.4 q ∙ ground (arith, absent)) r.0
          (subst (λ (x : PageId). IsPageNo x.page_no) (sym same) n)
          (subst (λ (x : Result Bool × Pool S). (fetch_page R q x.1).0 ≡ ok o) path h) hi in
      subst (λ (x : Result Bool × Pool S). stored (fetch_page R q x.1).1.disk p i ≡ 0) (sym path)
        (subst (λ x. stored (fetch_page R q u).1.disk x i ≡ 0) same (w ∙ r.2 i hi))
