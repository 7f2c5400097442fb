-- ===== src/Storage/Page.antt =====
-- src/storage/page.h and src/common/config.h. The bytes of a page or of a buffer are a function of
-- the offset, of which the program reads the first PAGE_SIZE. A pin count is never negative.
use uni_base.Base.{ℕ, ℤ, minus_one, ℤ-discrete, Bool, false, ltb, if◌then◌else◌}

abbrev pub page_size : ℕ
page_size = 4096

abbrev pub Block : Type 0
Block = ℕ → ℕ

-- `memcpy(dst, src, n)`
abbrev pub memcpy : Block → Block → ℕ → Block
memcpy dst src n i = if ltb i n then src i else dst i

abbrev pub invalid_page_id : ℤ
invalid_page_id = minus_one

pub record PageId : Type 0 where
  pub fd : ℤ
  pub page_no : ℤ

page_id_dec : Discrete PageId
page_id_dec = hlevel ℤ-discrete

unfoldable pub PageId-discrete : Discrete PageId
unfolding page_id_dec ℤ-discrete
PageId-discrete = page_id_dec

pub record Page : Type 0 where
  pub id : PageId
  pub content : Block
  pub is_dirty : Bool
  pub pin_count : ℕ

-- `reset_memory`: the PAGE_SIZE bytes are set to 0.
abbrev pub reset_memory : Page → Page
reset_memory p = record p { content = memcpy p.content (λ _. 0) page_size }

-- A page as `new Page[pool_size_]` builds it. `fd` is not initialised there: `any_fd` is what it holds.
abbrev pub new_page_object : ℤ → Page
new_page_object any_fd = record {
  id = record { fd = any_fd; page_no = invalid_page_id };
  content = λ _. 0;
  is_dirty = false;
  pin_count = 0;
}
