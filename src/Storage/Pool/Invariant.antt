-- ===== src/Storage/Pool/Invariant.antt =====
-- The page table, the free list and the replacer agree, after every call and every exception.
pub mod Steps
pub mod Methods
pub mod History
use uni_base.Base.{
  ℕ, zero, suc, ◌≤◌, ◌<◌, ◌≡◌, ◌≢◌, refl, List, [], ◌∷◌, Option, some, Bool, true, false, arith,
  lookup, mem, IsNodup, ◌==◌,
}
use uni_base.Replacer.{Replacer}
use uni_base.Storage.Page.{PageId, PageId-discrete}
use uni_base.Storage.Pool.{Pool}
use uni_base.Storage.Pool.Evictable.{holds}

abbrev pub frame_of : {S : Type 0} → Pool S → PageId → Option ℕ
frame_of s p = lookup PageId-discrete p s.page_table

module _ (R : Replacer) where
  open R use {S}

  pub record IsConsistent (s : Pool S) : Type 0 where
    -- A mapped frame exists, and holds the page that is mapped to it.
    pub mapped_bound : (p : PageId) (f : ℕ) → frame_of s p ≡ some f → f < s.pool_size
    pub mapped_id : (p : PageId) (f : ℕ) → frame_of s p ≡ some f → (s.pages f).id ≡ p
    -- A page that is in use is not up for eviction.
    pub evictable_unpinned :
        (p : PageId) (f : ℕ)
        → frame_of s p ≡ some f
        → holds R s.replacer f ≡ true
        → (s.pages f).pin_count ≡ 0
    -- A free frame exists, is free once, and no page is mapped to it.
    pub free_bound : (f : ℕ) → mem f s.free_list ≡ true → f < s.pool_size
    pub free_unmapped : (p : PageId) (f : ℕ) → mem f s.free_list ≡ true → frame_of s p ≢ some f
    pub free_once : IsNodup s.free_list
    pub evictable_bound : (f : ℕ) → holds R s.replacer f ≡ true → f < s.pool_size
    pub replacer_valid : R.IsValid s.replacer

  -- A frame that a caller has taken for the page `p`: not free, and mapped by no other page.
  pub record IsTaken (f : ℕ) (p : PageId) (s : Pool S) : Type 0 where
    pub consistent : IsConsistent s
    pub bound : f < s.pool_size
    pub not_free : mem f s.free_list ≡ false
    pub only : (q : PageId) → frame_of s q ≡ some f → q ≡ p
