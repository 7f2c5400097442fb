-- ===== src/Storage/Pool/Invariant/History.antt =====
-- The other methods keep the invariant too, and so does every history of calls on a new pool.
use uni_base.Base.{
  ℕ, zero, suc, ◌+◌, ◌≤◌, ◌<◌, ◌≡◌, refl, ap, inl, inr, List, [], ◌∷◌, Option, none, some, Bool,
  true, false, arith, lookup, mem, IsNodup, ◌==◌, ℤ, ℤ-discrete, Bool-cases, ite,
}
use uni_base.Errors.{ok}
use uni_base.Replacer.{Replacer}
use uni_base.Storage.Page.{PageId, invalid_page_id, Block}
use uni_base.Storage.Disk.{DiskManager}
use uni_base.Storage.Pool.{
  Pool, ◌>>=◌, with_page, frames_from, init, find_victim_page, fetch_page, unpin_page, flush_page,
  flush_frame, write_as, clear_dirty, allocate, claim, create, new_page, write_back, delete_page,
  delete_frame, write_if_dirty, write_frame, release, flush_entries, flush_all_pages, mark_dirty,
  pure,
}
use uni_base.Storage.Pool.Invariant.{IsConsistent, IsTaken, frame_of}
use uni_base.Storage.Pool.Invariant.Steps.{
  after_bind, same_frames, same_frames-IsTaken, pinned_once-IsConsistent, unpinned-IsConsistent,
  release-IsConsistent,
}
use uni_base.Storage.Pool.Invariant.Methods.{
  Found-then, find_victim_page-Found, write_back-IsTaken, fetch_page-IsConsistent,
}

-- The frames 0 .. n - 1 are numbered once each.
mem-frames_from : (i n f : ℕ) → mem f (frames_from i n) ≡ true → (i ≤ f) × (f < i + n)
unfolding frames_from
mem-frames_from i zero f h = absurd (ground arith)
mem-frames_from i (suc n) f h = ground (arith, mem-frames_from (suc i) n f)

frames_from-IsNodup : (i n : ℕ) → IsNodup (frames_from i n)
unfolding frames_from
frames_from-IsNodup i zero = tt
frames_from-IsNodup i (suc n) =
    (ground (arith, mem-frames_from (suc i) n i), frames_from-IsNodup (suc i) n)

module _ (R : Replacer) where
  open R use {S}

  pub init-IsConsistent :
      (n : ℕ) (any_fd : ℤ) (d : DiskManager) (r : S)
      → R.IsValid r
      → R.evictable r ≡ []
      → IsConsistent R (init n any_fd d r)
  unfolding init lookup
  init-IsConsistent n any_fd d r v e = record {
    mapped_bound = λ p f h. cc;
    mapped_id = λ p f h. cc;
    evictable_unpinned = λ p f h k. cc;
    free_bound = λ f m. omega (arith, mem-frames_from 0 n f m);
    free_unmapped = λ p f m h. cc;
    free_once = frames_from-IsNodup 0 n;
    evictable_bound = λ f k. absurd (ground (arith, ap (mem f) e));
    replacer_valid = v;
  }

  unpin_page-IsConsistent :
      (p : PageId) (dirty : Bool) (s : Pool S)
      → IsConsistent R s
      → IsConsistent R (unpin_page R p dirty s).1
  unfolding unpin_page
  unpin_page-IsConsistent p dirty s v = go (frame_of s p) refl
    where
      go : (o : Option ℕ) → frame_of s p ≡ o → IsConsistent R (unpin_page R p dirty s).1
      go none e = rw (e, unpin_page) v
      go (some f) e = rw (e, unpin_page) (unpinned-IsConsistent R f p s dirty v e)

  clear_dirty-IsConsistent :
      (f : ℕ) (s : Pool S) → IsConsistent R s → IsConsistent R (clear_dirty f s).1
  clear_dirty-IsConsistent f s v =
      same_frames R s (clear_dirty f s).1.pages s.disk (λ g. (ground arith, ground arith)) v

  flush_frame-IsConsistent :
      (f : ℕ) (p : PageId) (s : Pool S) → IsConsistent R s → IsConsistent R (flush_frame R f p s).1
  unfolding flush_frame write_as
  flush_frame-IsConsistent f p s v =
      after_bind (IsConsistent R) (IsConsistent R) (write_as R f p)
        (λ _. clear_dirty f >>= λ _. pure true) s (same_frames R s s.pages _ (λ g. (refl, refl)) v)
        (λ _ t w. clear_dirty-IsConsistent f t w) (λ t w. w)

  flush_page-IsConsistent :
      (p : PageId) (s : Pool S) → IsConsistent R s → IsConsistent R (flush_page R p s).1
  unfolding flush_page
  flush_page-IsConsistent p s v = go (frame_of s p) refl
    where
      go : (o : Option ℕ) → frame_of s p ≡ o → IsConsistent R (flush_page R p s).1
      go none e = rw (e, flush_page) v
      go (some f) e =
          rw (e, flush_page)
            (elim (ℤ-discrete p.page_no invalid_page_id)
              as (λ x. IsConsistent R (ite x (ok false, s) (flush_frame R f p s)).1) [
                | yes h ↦ v
                | no h ↦ flush_frame-IsConsistent f p s v
              ])

  flush_entries-IsConsistent :
      (l : List (PageId × ℕ)) (s : Pool S)
      → IsConsistent R s
      → IsConsistent R (flush_entries R l s).1
  unfolding flush_entries
  flush_entries-IsConsistent [] s v = v
  flush_entries-IsConsistent ((p, f) ∷ l) s v =
      after_bind (IsConsistent R) (IsConsistent R) (flush_page R p) (λ _. flush_entries R l) s
        (flush_page-IsConsistent p s v) (λ _ t w. flush_entries-IsConsistent l t w) (λ t w. w)

  claim-IsConsistent :
      (f : ℕ) (p : PageId) (s : Pool S) → IsTaken R f p s → IsConsistent R (claim R f p s).1
  unfolding claim
  claim-IsConsistent f p s t = pinned_once-IsConsistent R f p s t

  allocate-IsTaken :
      (f : ℕ) (fd : ℤ) (s : Pool S)
      → ((p : PageId) → IsTaken R f p s)
      → (p : PageId) → IsTaken R f p (allocate R fd s).1
  unfolding allocate
  allocate-IsTaken f fd s t p = same_frames-IsTaken R f p s s.pages _ (λ g. (refl, refl)) (t p)

  abbrev Nobodys : ℕ → Pool S → Type 0
  Nobodys f s = (p : PageId) → IsTaken R f p s

  create-IsConsistent :
      (f : ℕ) (fd : ℤ) (s : Pool S) → Nobodys f s → IsConsistent R (create R f fd s).1
  unfolding create
  create-IsConsistent f fd s t =
      after_bind (Nobodys f) (IsConsistent R) (allocate R fd)
        (λ n. write_back f >>= λ _. claim R f (record { fd = fd; page_no = n })) s
        (allocate-IsTaken f fd s t)
        (λ n u h.
          after_bind (Nobodys f) (IsConsistent R) (write_back f)
            (λ _. claim R f (record { fd = fd; page_no = n })) u
            (λ p. write_back-IsTaken R f p u (h p))
            (λ _ w k. claim-IsConsistent f (record { fd = fd; page_no = n }) w (k _))
            (λ w k. (k (record { fd = fd; page_no = n })).consistent))
        (λ u h. (h (record { fd = fd; page_no = invalid_page_id })).consistent)

  new_page-IsConsistent :
      (fd : ℤ) (s : Pool S) → IsConsistent R s → IsConsistent R (new_page R fd s).1
  unfolding new_page
  new_page-IsConsistent fd s v =
      Found-then R (find_victim_page R s).1 (find_victim_page R s).0 none (λ f. create R f fd)
        (find_victim_page-Found R s v) (λ f t. create-IsConsistent f fd _ t)

  abbrev Maps : ℕ → PageId → Pool S → Type 0
  Maps f p s = IsConsistent R s × (frame_of s p ≡ some f)

  write_if_dirty-Maps :
      (f : ℕ) (p : PageId) (s : Pool S) → Maps f p s → Maps f p (write_if_dirty R f s).1
  unfolding write_if_dirty write_frame
  write_if_dirty-Maps f p s v = elim (Bool-cases (s.pages f).is_dirty) [
    | inl e ↦ rw (e, write_if_dirty) (same_frames R s s.pages _ (λ g. (refl, refl)) v.0, v.1)
    | inr e ↦ rw (e, write_if_dirty) v
  ]

  delete_frame-IsConsistent :
      (f : ℕ) (p : PageId) (s : Pool S) → Maps f p s → IsConsistent R (delete_frame R f p s).1
  unfolding delete_frame
  delete_frame-IsConsistent f p s v = elim (Bool-cases ((s.pages f).pin_count == 0)) [
    | inl e ↦
        rw (e, delete_frame)
          (after_bind (Maps f p) (IsConsistent R) (write_if_dirty R f) (λ _. release R f p) s
            (write_if_dirty-Maps f p s v) (λ _ t w. release-IsConsistent R f p t w.0 w.1)
            (λ t w. w.0))
    | inr e ↦ rw (e, delete_frame) v.0
  ]

  delete_page-IsConsistent :
      (p : PageId) (s : Pool S) → IsConsistent R s → IsConsistent R (delete_page R p s).1
  unfolding delete_page
  delete_page-IsConsistent p s v = go (frame_of s p) refl
    where
      go : (o : Option ℕ) → frame_of s p ≡ o → IsConsistent R (delete_page R p s).1
      go none e = rw (e, delete_page) v
      go (some f) e = rw (e, delete_page) (delete_frame-IsConsistent f p s (v, e))

  -- The calls on a pool. A client writes into the bytes of a frame that it holds, and may mark it.
  pub data Call : Type 0 where
    fetches deletes flushes : PageId → Call
    unpins : PageId → Bool → Call
    creates flushes_all : ℤ → Call
    writes : ℕ → Block → Call
    marks : ℕ → Call

  unfoldable pub step : Pool S → Call → Pool S
  step s (fetches p) = (fetch_page R p s).1
  step s (deletes p) = (delete_page R p s).1
  step s (flushes p) = (flush_page R p s).1
  step s (unpins p dirty) = (unpin_page R p dirty s).1
  step s (creates fd) = (new_page R fd s).1
  step s (flushes_all fd) = (flush_all_pages R fd s).1
  step s (writes f bytes) = with_page s f (record (s.pages f) { content = bytes })
  step s (marks f) = mark_dirty s f

  unfoldable pub run : Pool S → List Call → Pool S
  run s [] = s
  run s (c ∷ cs) = run (step s c) cs

  pub step-IsConsistent : (s : Pool S) (c : Call) → IsConsistent R s → IsConsistent R (step s c)
  unfolding step flush_all_pages
  step-IsConsistent s (fetches p) v = fetch_page-IsConsistent R p s v
  step-IsConsistent s (deletes p) v = delete_page-IsConsistent p s v
  step-IsConsistent s (flushes p) v = flush_page-IsConsistent p s v
  step-IsConsistent s (unpins p dirty) v = unpin_page-IsConsistent p dirty s v
  step-IsConsistent s (creates fd) v = new_page-IsConsistent fd s v
  step-IsConsistent s (flushes_all fd) v = flush_entries-IsConsistent s.page_table s v
  step-IsConsistent s (writes f bytes) v =
      same_frames R s (step s (writes f bytes)).pages s.disk (λ g. (ground arith, ground arith)) v
  step-IsConsistent s (marks f) v =
      same_frames R s (mark_dirty s f).pages s.disk (λ g. (ground arith, ground arith)) v

  run-IsConsistent : (cs : List Call) (s : Pool S) → IsConsistent R s → IsConsistent R (run s cs)
  unfolding run
  run-IsConsistent [] s v = v
  run-IsConsistent (c ∷ cs) s v = run-IsConsistent cs (step s c) (step-IsConsistent s c v)

  -- After any history of calls on a new pool over an empty, valid replacer, whatever the disk
  -- answers and whichever calls throw, the invariant holds: each mapped frame exists, holds its
  -- page, and is not up for eviction while pinned; free frames are distinct and unmapped.
  pub run-init-IsConsistent :
      (n : ℕ) (any_fd : ℤ) (d : DiskManager) (r : S) (cs : List Call)
      → R.IsValid r
      → R.evictable r ≡ []
      → IsConsistent R (run (init n any_fd d r) cs)
  run-init-IsConsistent n any_fd d r cs v e =
      run-IsConsistent cs _ (init-IsConsistent n any_fd d r v e)
