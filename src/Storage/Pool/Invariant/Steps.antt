-- ===== src/Storage/Pool/Invariant/Steps.antt =====
-- Every piece of a method keeps the invariant of the pool.
use uni_base.Base.{
  ℕ, ◌≡◌, ap, ◌∙◌, inl, inr, Bool-cases, [], ◌∷◌, none, some, Bool, true, false, arith, lookup,
  insert, erase, lookup-insert, lookup-erase, mem, mem-append, IsNodup-append_one, ◌==◌,
  if◌then◌else◌, ite,
}
use uni_base.Errors.{Result, ok, throw}
use uni_base.Replacer.{Replacer}
use uni_base.Storage.Page.{PageId, PageId-discrete, Page}
use uni_base.Storage.Disk.{DiskManager}
use uni_base.Storage.Pool.{Pool, M, ◌>>=◌, with_page, retarget, unpin_frame, fetch_hit, release}
use uni_base.Storage.Pool.Evictable.{holds, holds-pin, holds-unpin}
use uni_base.Storage.Pool.Invariant.{IsConsistent, IsTaken, frame_of}

-- A property of the state after each part of a computation holds after the whole, thrown or not.
pub after_bind :
    {S A B : Type 0} (Q P : Pool S → Type 0) (m : M S A) (f : A → M S B) (s : Pool S)
    → Q (m s).1
    → ((a : A) (t : Pool S) → Q t → P (f a t).1)
    → ((t : Pool S) → Q t → P t)
    → P ((m >>= f) s).1
after_bind {S} {A} {B} Q P m f s q next stop = go (m s).0
  where
    go :
        (r : Result A)
        → P
            (let o : Result B × Pool S = elim r [
              | ok a ↦ f a (m s).1
              | throw e ↦ (throw e, (m s).1)
            ] in
              o).1
    go (ok a) = next a (m s).1 q
    go (throw e) = stop (m s).1 q

module _ (R : Replacer) where
  open R use {S, pin, unpin}

  -- Bytes, dirty marks and the disk are of no concern to the invariant.
  pub same_frames :
      (s : Pool S) (pages : ℕ → Page) (d : DiskManager)
      → ((g : ℕ) → ((pages g).id ≡ (s.pages g).id) × ((pages g).pin_count ≡ (s.pages g).pin_count))
      → IsConsistent R s
      → IsConsistent R (record s { pages = pages; disk = d })
  same_frames s pages d same v = record {
    mapped_bound = v.mapped_bound;
    mapped_id = λ p f e. (same f).0 ∙ v.mapped_id p f e;
    evictable_unpinned = λ p f e h. (same f).1 ∙ v.evictable_unpinned p f e h;
    free_bound = v.free_bound;
    free_unmapped = v.free_unmapped;
    free_once = v.free_once;
    evictable_bound = v.evictable_bound;
    replacer_valid = v.replacer_valid;
  }

  -- `install` and `claim`: the taken frame becomes the page's, pinned once.
  pub pinned_once-IsConsistent :
      (f : ℕ) (p : PageId) (s : Pool S)
      → IsTaken R f p s
      → IsConsistent R (
          with_page
            (record s {
              page_table = insert PageId-discrete p f s.page_table;
              replacer = pin s.replacer f;
            })
            f
            (record (s.pages f) { id = p; pin_count = 1 }))
  pinned_once-IsConsistent f p s t = record {
    mapped_bound = λ q g e. ground (arith, table q, v.mapped_bound q g, t.bound);
    mapped_id = λ q g e. ground (arith, table q, v.mapped_id q g, t.only q);
    evictable_unpinned =
        λ q g e h. ground (arith, table q, held g, v.evictable_unpinned q g, t.only q);
    free_bound = v.free_bound;
    free_unmapped = λ q g m e. ground (arith, table q, v.free_unmapped q g m, t.not_free);
    free_once = v.free_once;
    evictable_bound = λ g h. ground (arith, held g, v.evictable_bound g);
    replacer_valid = R.pin-IsValid s.replacer f v.replacer_valid;
  }
    where
      v : IsConsistent R s
      v = t.consistent

      table :
          (q : PageId)
          → lookup PageId-discrete q (insert PageId-discrete p f s.page_table)
            ≡ ite (PageId-discrete p q) (some f) (frame_of s q)
      table q = lookup-insert PageId-discrete p q f s.page_table

      held :
          (g : ℕ) → holds R (pin s.replacer f) g ≡ (if f == g then false else holds R s.replacer g)
      held g = holds-pin R s.replacer f g v.replacer_valid

  pub same_frames-IsTaken :
      (f : ℕ) (p : PageId) (s : Pool S) (pages : ℕ → Page) (d : DiskManager)
      → ((g : ℕ) → ((pages g).id ≡ (s.pages g).id) × ((pages g).pin_count ≡ (s.pages g).pin_count))
      → IsTaken R f p s
      → IsTaken R f p (record s { pages = pages; disk = d })
  same_frames-IsTaken f p s pages d same t = record {
    consistent = same_frames s pages d same t.consistent;
    bound = t.bound;
    not_free = t.not_free;
    only = t.only;
  }

  -- `update_page` maps the taken frame before its bytes are read.
  pub retarget-IsTaken :
      (f : ℕ) (p : PageId) (s : Pool S) → IsTaken R f p s → IsTaken R f p (retarget f p f s).1
  unfolding retarget
  retarget-IsTaken f p s t = record {
    consistent = record {
      mapped_bound = λ q g e. ground (arith, table q, v.mapped_bound q g, t.bound);
      mapped_id = λ q g e. ground (arith, table q, v.mapped_id q g, t.only q);
      evictable_unpinned = λ q g e h. ground (arith, table q, v.evictable_unpinned q g, t.only q);
      free_bound = v.free_bound;
      free_unmapped = λ q g m e. ground (arith, table q, v.free_unmapped q g m, t.not_free);
      free_once = v.free_once;
      evictable_bound = v.evictable_bound;
      replacer_valid = v.replacer_valid;
    };
    bound = t.bound;
    not_free = t.not_free;
    only = λ q e. ground (arith, table q, t.only q);
  }
    where
      v : IsConsistent R s
      v = t.consistent

      old : PageId
      old = (s.pages f).id

      table :
          (q : PageId)
          → lookup PageId-discrete q
              (insert PageId-discrete p f (erase PageId-discrete old s.page_table))
            ≡ ite (PageId-discrete p q) (some f) (ite (PageId-discrete old q) none (frame_of s q))
      table q =
          lookup-insert PageId-discrete p q f (erase PageId-discrete old s.page_table)
          ∙ ap (ite (PageId-discrete p q) (some f))
              (lookup-erase PageId-discrete old q s.page_table)

  -- Unpinning a mapped frame, which becomes evictable with its last pin.
  pub unpinned-IsConsistent :
      (f : ℕ) (p : PageId) (s : Pool S) (dirty : Bool)
      → IsConsistent R s
      → frame_of s p ≡ some f
      → IsConsistent R (unpin_frame R f dirty s).1
  unfolding unpin_frame
  unpinned-IsConsistent f p s dirty v m = elim (Bool-cases ((s.pages f).pin_count == 0)) [
    | inl e ↦ rw (e, unpin_frame) v
    | inr e ↦
        rw (e, unpin_frame)
          (record {
            mapped_bound = v.mapped_bound;
            mapped_id = λ q g h. ground (arith, v.mapped_id q g h);
            evictable_unpinned = λ q g h k. ground (arith, v.evictable_unpinned q g h, held g);
            free_bound = v.free_bound;
            free_unmapped = v.free_unmapped;
            free_once = v.free_once;
            evictable_bound =
                λ g k. ground (arith, held g, v.evictable_bound g, v.mapped_bound p f m);
            replacer_valid =
                ground (arith, R.unpin-IsValid s.replacer f v.replacer_valid, v.replacer_valid);
          })
  ]
    where
      held :
          (g : ℕ) → holds R (unpin s.replacer f) g ≡ (if f == g then true else holds R s.replacer g)
      held g = holds-unpin R s.replacer f g v.replacer_valid

  pub hit-IsConsistent :
      (f : ℕ) (s : Pool S) → IsConsistent R s → IsConsistent R (fetch_hit R f s).1
  unfolding fetch_hit
  hit-IsConsistent f s v = record {
    mapped_bound = v.mapped_bound;
    mapped_id = λ q g h. ground (arith, v.mapped_id q g h);
    evictable_unpinned = λ q g h k.
        ground (arith, v.evictable_unpinned q g h, holds-pin R s.replacer f g v.replacer_valid);
    free_bound = v.free_bound;
    free_unmapped = v.free_unmapped;
    free_once = v.free_once;
    evictable_bound =
        λ g k. ground (arith, holds-pin R s.replacer f g v.replacer_valid, v.evictable_bound g);
    replacer_valid = R.pin-IsValid s.replacer f v.replacer_valid;
  }

  -- `delete_page` frees the frame and also hands it to the replacer.
  pub release-IsConsistent :
      (f : ℕ) (p : PageId) (s : Pool S)
      → IsConsistent R s
      → frame_of s p ≡ some f
      → IsConsistent R (release R f p s).1
  unfolding release
  release-IsConsistent f p s v m = record {
    mapped_bound = λ q g h. ground (arith, table q, v.mapped_bound q g);
    mapped_id = λ q g h. ground (arith, table q, v.mapped_id q g);
    evictable_unpinned = λ q g h k.
        ground
          (arith, table q, held g, v.evictable_unpinned q g, v.mapped_id q g, v.mapped_id p f m);
    free_bound = λ g k.
        ground (arith, mem-append g s.free_list (f ∷ []), v.free_bound g, v.mapped_bound p f m);
    free_unmapped = λ q g k h. ground (
      arith,
      table q,
      mem-append g s.free_list (f ∷ []),
      v.free_unmapped q g,
      v.mapped_id q g,
      v.mapped_id p f m,
    );
    free_once = IsNodup-append_one s.free_list f not_free v.free_once;
    evictable_bound = λ g k. ground (arith, held g, v.evictable_bound g, v.mapped_bound p f m);
    replacer_valid = R.unpin-IsValid s.replacer f v.replacer_valid;
  }
    where
      table :
          (q : PageId)
          → lookup PageId-discrete q (erase PageId-discrete p s.page_table)
            ≡ ite (PageId-discrete p q) none (frame_of s q)
      table q = lookup-erase PageId-discrete p q s.page_table

      held :
          (g : ℕ) → holds R (unpin s.replacer f) g ≡ (if f == g then true else holds R s.replacer g)
      held g = holds-unpin R s.replacer f g v.replacer_valid

      not_free : mem f s.free_list ≡ false
      not_free = elim (Bool-cases (mem f s.free_list)) [
        | inl e ↦ absurd (v.free_unmapped p f e m)
        | inr e ↦ e
      ]
