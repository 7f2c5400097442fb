-- ===== src/Index/Header/Sizes.antt =====
-- src/index/ix_manager.h: the sizes of a new index.
use uni_base.Base.{ℕ, ◌+◌, ◌-◌, ◌*◌, ◌/◌, ◌≤◌, ◌<◌, ◌≡◌, arith}
use uni_base.Storage.Page.{page_size}
use uni_base.Index.Header.{btree_order, page_hdr_size, rid_size, ix_max_col_len}
use native.Mathlib.Nat.{div-mul-le_self, le-div_iff_mul-le}

four_keys : (len : ℕ) → len ≤ 512 → 4 ≤ 4072 / (len + 8)
four_keys len h = (le-div_iff_mul-le (omega arith)).1 (omega (arith, h))

-- For columns of at most 512 bytes together, the order of the tree of a new index is more than 2, as
-- `create_index` asserts, and one key and record id more than the order, with the header of the page,
-- fit into a page.
pub btree_order-fits :
    (len : ℕ)
    → len ≤ ix_max_col_len
    → (2 < btree_order len) × (page_hdr_size + (btree_order len + 1) * (len + rid_size) ≤ page_size)
unfolding btree_order
btree_order-fits len h =
    let four = four_keys len h in
    let above : 4072 / (len + 8) * (len + 8) ≤ 4072 = div-mul-le_self 4072 (len + 8) in
    let same : 4072 / (len + 8) - 1 + 1 ≡ 4072 / (len + 8) = omega (arith, four) in
    (omega (arith, four), rw (same) omega (arith, above))
