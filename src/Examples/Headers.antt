-- ===== src/Examples/Headers.antt =====
-- The header of an index of a number and a name.
use uni_base.Base.{◌+◌, ◌*◌, ◌≤◌, ◌<◌, [], ◌∷◌, pos, minus_one, arith, ◌≡◌, refl}
use uni_base.Errors.{ok}
use uni_base.Outcome.{◌>>=◌}
use uni_base.Defs.{type_int, type_string}
use uni_base.Storage.Page.{page_size}
use uni_base.Index.Header.{IxHeader, serialize, deserialize, btree_order, page_hdr_size, rid_size}
use uni_base.Index.Header.RoundTrip.{AreInts, IsComplete, serialize-deserialize}
use uni_base.Index.Header.Sizes.{btree_order-fits}

abbrev header : IxHeader
header = record {
  first_free_page_no = minus_one;
  num_pages = pos 3;
  root_page = pos 2;
  col_num = pos 2;
  col_types = type_int ∷ type_string ∷ [];
  col_lens = pos 4 ∷ pos 8 ∷ [];
  col_tot_len = pos 12;
  btree_order = pos 202;
  keys_size = pos 2436;
  first_leaf = pos 2;
  last_leaf = pos 2;
  tot_len = pos 56;
}

header-IsComplete : IsComplete header
unfolding IsComplete AreInts
header-IsComplete = (
  refl,
  refl,
  refl,
  (omega arith, (omega arith, (omega arith, (omega arith, (omega arith, tt))))),
  (omega arith, (omega arith, tt)),
  (omega arith, (omega arith, (omega arith, (omega arith, (omega arith, tt))))),
)

serialize-deserialize_example : (serialize header (λ _. 9) >>= deserialize) ≡ ok header
serialize-deserialize_example = serialize-deserialize header (λ _. 9) header-IsComplete

btree_order-fits_example :
    (2 < btree_order 12) × (page_hdr_size + (btree_order 12 + 1) * (12 + rid_size) ≤ page_size)
btree_order-fits_example = btree_order-fits 12 (omega arith)
