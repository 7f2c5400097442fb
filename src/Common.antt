-- ===== src/Common.antt =====
-- src/common/common.h: column names, values and conditions. The two numbers of the union in a `Value`
-- are one word of 32 bits, and a `float` is its bits. What C++ leaves uninitialised is 0 or the first
-- constructor, and is not read.
use uni_base.Base.{
  ℕ, zero, suc, ◌-◌, ◌/◌, ◌%◌, List, [], ◌∷◌, ◌++◌, Option, none, some, Bool, ltb, ◌==◌,
  if◌then◌else◌, ℤ, length,
}
use uni_base.Errors.{Str, assertion_failed, string_overflow, Result, ok, throw}
use uni_base.Bytes.{bits32}
use uni_base.Defs.{ColType, type_int, type_float, type_string}

pub record TabCol : Type 0 where
  pub tab_name : Str
  pub col_name : Str

pub record Value : Type 0 where
  pub type : ColType
  pub word : ℕ
  pub str_val : Str
  -- The record buffer, or none for a null pointer.
  pub raw : Option (List ℕ)

abbrev pub new_value : Value
new_value = record { type = type_int; word = 0; str_val = []; raw = none }

unfoldable pub set_int : ℤ → Value → Value
set_int n v = record v { type = type_int; word = bits32 n }

unfoldable pub set_float : ℕ → Value → Value
set_float bits v = record v { type = type_float; word = bits }

unfoldable pub set_str : Str → Value → Value
set_str s v = record v { type = type_string; str_val = s }

-- The bytes of a word in memory, the lowest first.
abbrev pub word_bytes : ℕ → List ℕ
word_bytes n = n % 256 ∷ n / 256 % 256 ∷ n / 65536 % 256 ∷ n / 16777216 % 256 ∷ []

unfoldable pub zeros : ℕ → List ℕ
zeros zero = []
zeros (suc n) = 0 ∷ zeros n

-- The buffer that `init_raw` fills; a `len` is never negative.
unfoldable pub raw_of : Value → ℕ → Result (List ℕ)
unfolding zeros
raw_of v len = elim v.type [
  | type_int ↦ if len == 4 then ok (word_bytes v.word) else throw assertion_failed
  | type_float ↦ if len == 4 then ok (word_bytes v.word) else throw assertion_failed
  | type_string ↦
      if ltb len (length v.str_val)
      then throw string_overflow
      else ok (v.str_val ++ zeros (len - length v.str_val))
]

unfoldable pub init_raw : Value → ℕ → Result Value
unfolding raw_of
init_raw v len = elim v.raw [
  | some bytes ↦ throw assertion_failed
  | none ↦ elim (raw_of v len) [ ok bytes ↦ ok (record v { raw = some bytes }) | throw e ↦ throw e ]
]

pub data CompOp : Type 0 where
  op_eq op_ne op_lt op_gt op_le op_ge : CompOp

pub record Condition : Type 0 where
  pub lhs_col : TabCol
  pub op : CompOp
  pub is_rhs_val : Bool
  pub rhs_col : TabCol
  pub rhs_val : Value

pub record SetClause : Type 0 where
  pub lhs : TabCol
  pub rhs : Value
