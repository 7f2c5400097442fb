-- ===== src/Storage/Pool/Contents.antt =====
-- What a reader of the database sees of a page: the bytes of its frame, or those on disk.
pub mod Eviction
pub mod Fetch
pub mod Preserved
pub mod Deletion
use uni_base.Base.{ℕ, ◌<◌, ◌≡◌, ◌⊎◌, Option, none, some, true, false, mem}
use uni_base.Replacer.{Replacer}
use uni_base.Storage.Page.{PageId, page_size}
use uni_base.Storage.Disk.Stored.{IsPageNo, stored}
use uni_base.Storage.Pool.{Pool}
use uni_base.Storage.Pool.Evictable.{holds}
use uni_base.Storage.Pool.Invariant.{frame_of}

abbrev pub content_at : {S : Type 0} → Pool S → PageId → Option ℕ → ℕ → ℕ
content_at s q none i = stored s.disk q i
content_at s q (some g) i = (s.pages g).content i

abbrev pub content : {S : Type 0} → Pool S → PageId → ℕ → ℕ
content s q i = content_at s q (frame_of s q) i

-- If the frame of a page is not marked dirty, it agrees with the disk.
abbrev pub IsClean : {S : Type 0} → PageId → Pool S → Type 0
IsClean q s =
    (g : ℕ)
    → frame_of s q ≡ some g
    → (s.pages g).is_dirty ≡ false
    → (i : ℕ) → i < page_size
    → (s.pages g).content i ≡ stored s.disk q i

module _ (R : Replacer) where
  open R use {S}

  -- No frame keeps a stale page that could be written or unmapped in another's place.
  pub record IsSettled (s : Pool S) : Type 0 where
    pub dirty_mapped : (f : ℕ) → (s.pages f).is_dirty ≡ true → frame_of s (s.pages f).id ≡ some f
    pub evictable_mapped :
        (f : ℕ)
        → holds R s.replacer f ≡ true
        → (mem f s.free_list ≡ true) ⊎ (frame_of s (s.pages f).id ≡ some f)
    pub numbered : (q : PageId) (g : ℕ) → frame_of s q ≡ some g → IsPageNo q.page_no
