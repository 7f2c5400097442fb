-- ===== src/Storage/Pool/Invariant/Methods.antt =====
-- Every method keeps the invariant of the pool, and so does every history of calls.
use uni_base.Base.{
  ℕ, ◌≡◌, refl, subst, inl, inr, List, [], ◌∷◌, Option, none, some, true, false, arith, lookup,
  erase, lookup-erase, mem, IsNodup, ◌==◌, if◌then◌else◌, ite, Bool-cases,
}
use uni_base.Errors.{Result, ok}
use uni_base.Replacer.{Replacer}
use uni_base.Storage.Page.{PageId, PageId-discrete}
use uni_base.Storage.Pool.{
  Pool, M, ◌>>=◌, find_victim_page, take_free, take_victim, load, update_if_dirty, update_page,
  retarget, write_back, write_frame, clear_dirty, read_frame, install, fetch_page,
}
use uni_base.Storage.Pool.Evictable.{holds, victim-some, victim-none}
use uni_base.Storage.Pool.Invariant.{IsConsistent, IsTaken, frame_of}
use uni_base.Storage.Pool.Invariant.Steps.{
  after_bind, same_frames-IsTaken, pinned_once-IsConsistent, retarget-IsTaken, hit-IsConsistent,
}

module _ (R : Replacer) where
  open R use {S, victim}

  -- What `find_victim_page` leaves: a frame that is nobody's, or a consistent pool.
  abbrev pub Found : Option ℕ → Pool S → Type 0
  Found none s = IsConsistent R s
  Found (some f) s = (p : PageId) → IsTaken R f p s

  take_free-Found :
      (s : Pool S) (l : List ℕ)
      → s.free_list ≡ l
      → IsConsistent R s
      → Found (take_free R s l).0 (take_free R s l).1
  unfolding take_free take_victim
  take_free-Found s (f ∷ rest) e v = λ p. record {
    consistent = record {
      mapped_bound = v.mapped_bound;
      mapped_id = v.mapped_id;
      evictable_unpinned = v.evictable_unpinned;
      free_bound = λ g m. v.free_bound g (free g m);
      free_unmapped = λ q g m. v.free_unmapped q g (free g m);
      free_once = once.1;
      evictable_bound = v.evictable_bound;
      replacer_valid = v.replacer_valid;
    };
    bound = v.free_bound f (rw e (ground arith));
    not_free = once.0;
    only = λ q h. absurd (v.free_unmapped q f (rw e (ground arith)) h);
  }
    where
      once : IsNodup (f ∷ rest)
      once = subst IsNodup e v.free_once

      free : (g : ℕ) → mem g rest ≡ true → mem g s.free_list ≡ true
      free g m = rw e (ground arith)
  take_free-Found s [] e v = go (victim s.replacer).0 refl
    where
      go :
          (o : Option ℕ)
          → (victim s.replacer).0 ≡ o
          → Found
              (take_victim R s (o, (victim s.replacer).1)).0
              (take_victim R s (o, (victim s.replacer).1)).1
      go none h = record {
        mapped_bound = v.mapped_bound;
        mapped_id = v.mapped_id;
        evictable_unpinned = λ p f m k. ground (arith, none_held f);
        free_bound = v.free_bound;
        free_unmapped = v.free_unmapped;
        free_once = v.free_once;
        evictable_bound = λ f k. ground (arith, none_held f);
        replacer_valid = R.victim-IsValid s.replacer v.replacer_valid;
      }
        where
          none_held :
              (f : ℕ) → (holds R s.replacer f ≡ false) × (holds R (victim s.replacer).1 f ≡ false)
          none_held f = victim-none R s.replacer v.replacer_valid h f
      go (some f) h = λ p. record {
        consistent = record {
          mapped_bound = λ q g m. ground (arith, table q, v.mapped_bound q g);
          mapped_id = λ q g m. ground (arith, table q, v.mapped_id q g);
          evictable_unpinned = λ q g m k. ground (arith, table q, held g, v.evictable_unpinned q g);
          free_bound = v.free_bound;
          free_unmapped = λ q g m k. ground (arith, table q, v.free_unmapped q g m);
          free_once = v.free_once;
          evictable_bound = λ g k. ground (arith, held g, v.evictable_bound g);
          replacer_valid = R.victim-IsValid s.replacer v.replacer_valid;
        };
        bound = v.evictable_bound f (held f).0;
        not_free = rw e refl;
        only = λ q m. absurd (ground (arith, table q, v.mapped_id q f));
      }
        where
          table :
              (q : PageId)
              → lookup PageId-discrete q (erase PageId-discrete (s.pages f).id s.page_table)
                ≡ ite (PageId-discrete (s.pages f).id q) none (frame_of s q)
          table q = lookup-erase PageId-discrete (s.pages f).id q s.page_table

          held :
              (g : ℕ)
              → (holds R s.replacer f ≡ true)
                × (holds R (victim s.replacer).1 g
                    ≡ (if f == g then false else holds R s.replacer g))
          held g = victim-some R s.replacer f v.replacer_valid h g

  pub find_victim_page-Found :
      (s : Pool S) → IsConsistent R s → Found (find_victim_page R s).0 (find_victim_page R s).1
  unfolding find_victim_page
  find_victim_page-Found s v = take_free-Found s s.free_list refl v

  -- What happens with a frame that was found, and what if there is none.
  pub Found-then :
      {A : Type 0} (s : Pool S) (o : Option ℕ) (a : A) (k : ℕ → M S A)
      → Found o s
      → ((f : ℕ) → ((p : PageId) → IsTaken R f p s) → IsConsistent R (k f s).1)
      → IsConsistent R
          (let r : Result A × Pool S = elim o [ none ↦ (ok a, s) | some f ↦ k f s ] in r).1
  Found-then s none a k v next = v
  Found-then s (some f) a k t next = next f t

  module _ (f : ℕ) where
    pub write_frame-IsTaken :
        (p : PageId) (s : Pool S) → IsTaken R f p s → IsTaken R f p (write_frame f s).1
    unfolding write_frame
    write_frame-IsTaken p s t = same_frames-IsTaken R f p s s.pages _ (λ g. (refl, refl)) t

    clear_dirty-IsTaken :
        (p : PageId) (s : Pool S) → IsTaken R f p s → IsTaken R f p (clear_dirty f s).1
    clear_dirty-IsTaken p s t =
        same_frames-IsTaken R f p s (clear_dirty f s).1.pages s.disk
          (λ g. (ground arith, ground arith)) t

    pub write_back-IsTaken :
        (p : PageId) (s : Pool S) → IsTaken R f p s → IsTaken R f p (write_back f s).1
    unfolding write_back
    write_back-IsTaken p s t = elim (Bool-cases (s.pages f).is_dirty) [
      | inl e ↦
          rw (e, write_back)
            (after_bind (IsTaken R f p) (IsTaken R f p) (write_frame f) (λ _. clear_dirty f) s
              (write_frame-IsTaken p s t) (λ _ u. clear_dirty-IsTaken p u) (λ u h. h))
      | inr e ↦ rw (e, write_back) t
    ]

    read_frame-IsTaken :
        (p : PageId) (s : Pool S) → IsTaken R f p s → IsTaken R f p (read_frame f p s).1
    unfolding read_frame
    read_frame-IsTaken p s t =
        same_frames-IsTaken R f p s (read_frame f p s).1.pages _ (λ g. (ground arith, ground arith))
          t

    update_if_dirty-IsTaken :
        (p : PageId) (s : Pool S) → IsTaken R f p s → IsTaken R f p (update_if_dirty R f p s).1
    unfolding update_if_dirty update_page
    update_if_dirty-IsTaken p s t = elim (Bool-cases (s.pages f).is_dirty) [
      | inl e ↦
          rw (e, update_if_dirty)
            (after_bind (IsTaken R f p) (IsTaken R f p) (write_back f) (λ _. retarget f p f) s
              (write_back-IsTaken p s t) (λ _ u. retarget-IsTaken R f p u) (λ u h. h))
      | inr e ↦ rw (e, update_if_dirty) t
    ]

    load-IsConsistent :
        (p : PageId) (s : Pool S) → IsTaken R f p s → IsConsistent R (load R f p s).1
    unfolding load install
    load-IsConsistent p s t =
        after_bind (IsTaken R f p) (IsConsistent R) (update_if_dirty R f p)
          (λ _. read_frame f p >>= λ _. install R f p) s (update_if_dirty-IsTaken p s t)
          (λ _ u h.
            after_bind (IsTaken R f p) (IsConsistent R) (read_frame f p) (λ _. install R f p) u
              (read_frame-IsTaken p u h) (λ _ w. pinned_once-IsConsistent R f p w)
              (λ w k. k.consistent))
          (λ u h. h.consistent)

  -- `fetch_page` keeps the invariant, also when it throws.
  pub fetch_page-IsConsistent :
      (p : PageId) (s : Pool S) → IsConsistent R s → IsConsistent R (fetch_page R p s).1
  unfolding fetch_page
  fetch_page-IsConsistent p s v = go (frame_of s p) refl
    where
      go : (o : Option ℕ) → frame_of s p ≡ o → IsConsistent R (fetch_page R p s).1
      go (some f) e = rw (e, fetch_page) (hit-IsConsistent R f s v)
      go none e =
          rw (e, fetch_page)
            (Found-then (find_victim_page R s).1 (find_victim_page R s).0 none (λ f. load R f p)
              (find_victim_page-Found s v) (λ f t. load-IsConsistent f p _ (t p)))
