-- ===== src/Index/Header.antt =====
-- src/index/ix_defs.h and ix_manager.h: the header of an index file as it stands in the file, its bytes, and
-- the sizes that a new index is given.
pub mod RoundTrip
pub mod Sizes
use uni_base.Base.{
  ℕ, zero, suc, ◌+◌, ◌-◌, ◌*◌, ◌/◌, List, [], ◌∷◌, map, ℤ, pos, negsuc, minus_one, length, ltb,
  ◌==◌, ite, if◌then◌else◌, ℤ-discrete,
}
use uni_base.Errors.{Result, ok, throw, assertion_failed, undefined_behaviour, invalid_col_length}
use uni_base.Outcome.{◌>>=◌, collect}
use uni_base.Defs.{ColType, type_int, type_float, type_string}
use uni_base.Meta.{ColMeta}
use uni_base.Bytes.{get_int, put_int}
use uni_base.Storage.Page.{Block, page_size}

pub record IxHeader : Type 0 where
  pub first_free_page_no : ℤ
  pub num_pages : ℤ
  pub root_page : ℤ
  pub col_num : ℤ
  pub col_types : List ColType
  pub col_lens : List ℤ
  pub col_tot_len : ℤ
  pub btree_order : ℤ
  pub keys_size : ℤ
  pub first_leaf : ℤ
  pub last_leaf : ℤ
  pub tot_len : ℤ

-- A count as the loops use it, which make no round for a negative one.
abbrev pub rounds : ℤ → ℕ
rounds (pos n) = n
rounds (negsuc n) = 0

-- A `ColType` as an `int`, and back.
abbrev pub type_code : ColType → ℤ
type_code type_int = pos 0
type_code type_float = pos 1
type_code type_string = pos 2

unfoldable pub type_of : ℤ → Result ColType
type_of (pos n) =
    if n == 0
    then ok type_int
    else if n == 1
    then ok type_float
    else if n == 2
    then ok type_string
    else throw undefined_behaviour
type_of (negsuc n) = throw undefined_behaviour

-- Consecutive `memcpy`s and reads of an `int`.
unfoldable pub put_ints : Block → ℕ → List ℤ → Block
put_ints b i [] = b
put_ints b i (x ∷ xs) = put_ints (put_int b i x) (i + 4) xs

unfoldable pub get_ints : Block → ℕ → ℕ → List ℤ
get_ints b i zero = []
get_ints b i (suc n) = get_int b i ∷ get_ints b (i + 4) n

-- The length of the header for a number of columns.
abbrev pub header_len : ℕ → ℕ
header_len n = 40 + 8 * n

unfoldable pub update_tot_len : IxHeader → IxHeader
update_tot_len h = record h { tot_len = pos (header_len (rounds h.col_num)) }

-- The number of columns is that of the types, and of the lengths.
unfoldable pub serialize : IxHeader → Block → Result Block
unfolding put_ints ℤ-discrete
serialize h dest =
    let n = length h.col_types in
    let b1 =
      put_ints dest 0
        (h.tot_len ∷ h.first_free_page_no ∷ h.num_pages ∷ h.root_page ∷ h.col_num ∷ []) in
    let b2 = put_ints b1 20 (map type_code h.col_types) in
    let b3 = put_ints b2 (20 + 4 * n) h.col_lens in
    let b4 =
      put_ints b3 (20 + 8 * n)
        (h.col_tot_len ∷ h.btree_order ∷ h.keys_size ∷ h.first_leaf ∷ h.last_leaf ∷ []) in
    ite (ℤ-discrete (pos (header_len n)) h.tot_len) (ok b4) (throw assertion_failed)

-- Into a header without columns. The count that is read is also printed.
unfoldable pub deserialize : Block → Result IxHeader
unfolding get_ints collect type_of ℤ-discrete
deserialize src =
    let n = rounds (get_int src 16) in
    let i = 20 + 8 * n in
    (collect type_of (get_ints src 20 n) >>= λ types.
    ite (ℤ-discrete (pos (header_len n)) (get_int src 0))
      (ok (record {
        tot_len = get_int src 0;
        first_free_page_no = get_int src 4;
        num_pages = get_int src 8;
        root_page = get_int src 12;
        col_num = get_int src 16;
        col_types = types;
        col_lens = get_ints src (20 + 4 * n) n;
        col_tot_len = get_int src i;
        btree_order = get_int src (i + 4);
        keys_size = get_int src (i + 4 + 4);
        first_leaf = get_int src (i + 4 + 4 + 4);
        last_leaf = get_int src (i + 4 + 4 + 4 + 4);
      }))
      (throw assertion_failed))

-- The sizes of an index file: the page header and the record id, and the longest key.
abbrev pub page_hdr_size : ℕ
page_hdr_size = 24

abbrev pub rid_size : ℕ
rid_size = 8

abbrev pub ix_max_col_len : ℕ
ix_max_col_len = 512

unfoldable pub col_tot_len : List ColMeta → ℕ
col_tot_len [] = 0
col_tot_len (c ∷ cs) = c.len + col_tot_len cs

unfoldable pub btree_order : ℕ → ℕ
btree_order col_tot_len = (page_size - page_hdr_size) / (col_tot_len + rid_size) - 1

abbrev col_type : ColMeta → ColType
col_type c = c.type

abbrev col_len : ColMeta → ℤ
col_len c = pos c.len

-- The header that `create_index` writes.
unfoldable pub new_header : List ColMeta → Result IxHeader
unfolding col_tot_len btree_order update_tot_len
new_header index_cols =
    let len = col_tot_len index_cols in
    let order = btree_order len in
    if ltb ix_max_col_len len
    then throw (invalid_col_length (pos len))
    else if ltb 2 order
    then ok (
        update_tot_len (record {
          first_free_page_no = minus_one;
          num_pages = pos 3;
          root_page = pos 2;
          col_num = pos (length index_cols);
          col_types = map col_type index_cols;
          col_lens = map col_len index_cols;
          col_tot_len = pos len;
          btree_order = pos order;
          keys_size = pos ((order + 1) * len);
          first_leaf = pos 2;
          last_leaf = pos 2;
          tot_len = pos 0;
        }))
    else throw assertion_failed
