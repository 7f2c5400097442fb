-- ===== src/Replacer/Lru.antt =====
-- src/replacer/lru_replacer.h and lru_replacer.cpp. A `std::list` is its nodes in order, each with
-- an identity that stands for the iterator; `LRUhash_` maps a frame to its node. The latch is held
-- for each whole method, so a method is one step.
pub mod Nodes
pub mod Laws
pub mod Refines
use uni_base.Base.{
  ℕ, suc, ◌≡◌, List, [], ◌∷◌, ◌++◌, Option, none, some, ℕ_discrete, lookup, erase, insert, length,
  ◌==◌, if◌then◌else◌,
}

-- `list.erase(it)`: the node with that identity goes.
unfoldable pub erase_node : ℕ → List (ℕ × ℕ) → List (ℕ × ℕ)
erase_node n [] = []
erase_node n ((m, g) ∷ l) = if m == n then l else (m, g) ∷ erase_node n l

pub record LruReplacer : Type 0 where
  pub lru_list : List (ℕ × ℕ)
  pub lru_hash : List (ℕ × ℕ)
  -- The identity of the next node that is allocated.
  pub next_node : ℕ
  pub max_size : ℕ

unfoldable pub init : ℕ → LruReplacer
init num_pages = record { lru_list = []; lru_hash = []; next_node = 0; max_size = num_pages }

unfoldable pub victim_front : LruReplacer → List (ℕ × ℕ) → Option ℕ × LruReplacer
victim_front s [] = (none, s)
victim_front s ((n, f) ∷ rest) =
    (some f, record s { lru_list = rest; lru_hash = erase ℕ_discrete f s.lru_hash })

unfoldable pub victim : LruReplacer → Option ℕ × LruReplacer
unfolding victim_front
victim s = victim_front s s.lru_list

unfoldable pub pin : LruReplacer → ℕ → LruReplacer
pin s frame_id = elim (lookup ℕ_discrete frame_id s.lru_hash) [
  | none ↦ s
  | some it ↦ record s {
    lru_list = erase_node it s.lru_list;
    lru_hash = erase ℕ_discrete frame_id s.lru_hash;
  }
]

unfoldable pub unpin : LruReplacer → ℕ → LruReplacer
unpin s frame_id = elim (lookup ℕ_discrete frame_id s.lru_hash) [
  | none ↦ record s {
    lru_list = s.lru_list ++ (s.next_node, frame_id) ∷ [];
    lru_hash = insert ℕ_discrete frame_id s.next_node s.lru_hash;
    next_node = suc s.next_node;
  }
  | some _ ↦ s
]

unfoldable pub size : LruReplacer → ℕ
size s = length s.lru_list
