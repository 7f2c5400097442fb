-- ===== src/Replacer.antt =====
-- src/replacer/replacer.h: the abstract class `Replacer`, as operations with the laws that the
-- buffer pool relies on. `evictable` lists the unpinned frames, the next victim first.
pub mod Lru
use uni_base.Base.{
  ℕ, ◌≡◌, List, [], ◌∷◌, ◌++◌, Option, none, some, IsNodup, mem, remove, length, if◌then◌else◌,
}

pub record Replacer : Type 1 where
  pub S : Type 0
  pub IsValid : S → Type 0
  pub evictable : S → List ℕ
  -- The frame that `*frame_id` receives, if `victim` returns true.
  pub victim : S → Option ℕ × S
  pub pin : S → ℕ → S
  pub unpin : S → ℕ → S
  pub size : S → ℕ
  pub victim-IsValid : (s : S) → IsValid s → IsValid (victim s).1
  pub pin-IsValid : (s : S) (f : ℕ) → IsValid s → IsValid (pin s f)
  pub unpin-IsValid : (s : S) (f : ℕ) → IsValid s → IsValid (unpin s f)
  pub evictable-IsNodup : (s : S) → IsValid s → IsNodup (evictable s)
  pub victim-empty : (s : S) → evictable s ≡ [] → victim s ≡ (none, s)
  pub victim-oldest :
      (s : S) (f : ℕ) (fs : List ℕ)
      → IsValid s
      → evictable s ≡ f ∷ fs
      → ((victim s).0 ≡ some f) × (evictable (victim s).1 ≡ fs)
  pub evictable-pin : (s : S) (f : ℕ) → IsValid s → evictable (pin s f) ≡ remove f (evictable s)
  pub evictable-unpin :
      (s : S) (f : ℕ)
      → IsValid s
      → evictable (unpin s f) ≡ (if mem f (evictable s) then evictable s else evictable s ++ f ∷ [])
  pub size-evictable : (s : S) → size s ≡ length (evictable s)
