-- ===== src/Index.antt =====
-- The search within one node of the B+ tree, src/index/ix_index_handle.h and ix_index_handle.cpp. A
-- node is the bytes of its page. A comparison returns its sign. That of two `float`s is an argument;
-- it is taken on their four bytes. The count of keys of a node is never negative.
pub mod Search
pub mod Children
pub mod Header
use uni_base.Base.{
  ℕ, zero, suc, ◌+◌, ◌-◌, ◌*◌, ◌/◌, List, [], ◌∷◌, Option, none, some, ltb, ◌==◌, if◌then◌else◌, ℤ,
  pos, negsuc,
}
use uni_base.Bytes.{slice, get_int}
use uni_base.Storage.Page.{Block}
use uni_base.Record.{Rid}
use uni_base.Defs.{ColType, type_int, type_float, type_string}
use Prim.Native.Nat.{compare, Ordering}

-- The part of the index file's header that the search reads.
pub record IxFileHdr : Type 0 where
  -- The types and lengths of the columns, in order.
  pub cols : List (ColType × ℕ)
  pub col_tot_len : ℕ
  pub keys_size : ℕ

pub record IxNodeHandle : Type 0 where
  pub file_hdr : IxFileHdr
  pub bytes : Block

-- `sizeof(IxPageHdr)`, and where `num_key` stands in it.
abbrev pub ix_page_hdr_size : ℕ
ix_page_hdr_size = 24

abbrev pub num_key_at : ℕ
num_key_at = 8

abbrev pub count : ℤ → ℕ
count (pos n) = n
count (negsuc n) = 0

unfoldable pub num_key : IxNodeHandle → ℕ
num_key node = count (get_int node.bytes num_key_at)

-- The offset of a key in the page.
unfoldable pub get_key : IxNodeHandle → ℕ → ℕ
get_key node i = ix_page_hdr_size + i * node.file_hdr.col_tot_len

unfoldable pub get_rid : IxNodeHandle → ℕ → Rid
get_rid node i =
    let at = ix_page_hdr_size + node.file_hdr.keys_size + i * 8 in
    record { page_no = get_int node.bytes at; slot_no = get_int node.bytes (at + 4) }

unfoldable pub compare_int : ℤ → ℤ → Ordering
compare_int (pos a) (pos b) = compare a b
compare_int (pos a) (negsuc b) = Ordering.gt
compare_int (negsuc a) (pos b) = Ordering.lt
compare_int (negsuc a) (negsuc b) = compare b a

-- The first of two comparisons that is not equal.
abbrev pub first_difference : Ordering → Ordering → Ordering
first_difference Ordering.lt r = Ordering.lt
first_difference Ordering.eq r = r
first_difference Ordering.gt r = Ordering.gt

unfoldable pub memcmp : Block → ℕ → Block → ℕ → ℕ → Ordering
memcmp a i b j zero = Ordering.eq
memcmp a i b j (suc n) = first_difference (compare (a i) (b j)) (memcmp a (suc i) b (suc j) n)

module _ (compare_float : List ℕ → List ℕ → Ordering) where
  -- One column, at an offset in each key.
  unfoldable pub ix_compare_col : Block → ℕ → Block → ℕ → ColType → ℕ → Ordering
  unfolding compare_int memcmp slice
  ix_compare_col a i b j type_int len = compare_int (get_int a i) (get_int b j)
  ix_compare_col a i b j type_float len = compare_float (slice a i 4) (slice b j 4)
  ix_compare_col a i b j type_string len = memcmp a i b j len

  unfoldable pub ix_compare : Block → ℕ → Block → ℕ → List (ColType × ℕ) → Ordering
  unfolding ix_compare_col
  ix_compare a i b j [] = Ordering.eq
  ix_compare a i b j ((type, len) ∷ cols) =
      first_difference (ix_compare_col a i b j type len) (ix_compare a (i + len) b (j + len) cols)

  -- The target against the key at an index.
  unfoldable pub compare_key : IxNodeHandle → Block → ℕ → Ordering
  compare_key node target i = ix_compare target 0 node.bytes (get_key node i) node.file_hdr.cols

-- The loop of `lower_bound`, in which `after` is `right + 1`. It returns `none` when it has ended.
-- The first argument bounds the rounds.
unfoldable pub halve : ℕ → (ℕ → Ordering) → ℕ → ℕ → Option ℕ
halve zero cmp left after = none
halve (suc rounds) cmp left after =
    let mid = (left + (after - 1)) / 2 in
    let below = halve rounds cmp left mid in
    let above = halve rounds cmp (suc mid) after in
    if ltb left after
    then (elim (cmp mid) [ Ordering.lt ↦ below | Ordering.eq ↦ some mid | Ordering.gt ↦ above ])
    else none

module _ (compare_float : List ℕ → List ℕ → Ordering) where
  -- Each round shortens what is left, at first `num_key + 1` positions.
  unfoldable pub lower_bound : IxNodeHandle → Block → ℕ
  unfolding halve
  lower_bound node target =
      let n = num_key node in
      elim (halve (suc n) (compare_key compare_float node target) 0 (suc n)) [
        | some mid ↦ mid
        | none ↦ n
      ]

  unfoldable pub leaf_lookup : IxNodeHandle → Block → Option Rid
  unfolding lower_bound
  leaf_lookup node target =
      let it = lower_bound node target in
      if it == num_key node then none else some (get_rid node it)
