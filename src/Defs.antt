-- ===== src/Defs.antt =====
-- src/defs.h: the types of columns.
use uni_base.Base.{[], ◌∷◌}
use uni_base.Errors.{Str}

pub data ColType : Type 0 where
  type_int type_float type_string : ColType

type_dec : Discrete ColType
type_dec = hlevel

unfoldable pub ColType-discrete : Discrete ColType
unfolding type_dec
ColType-discrete = type_dec

-- `INT`, `FLOAT`, `STRING`.
unfoldable pub coltype2str : ColType → Str
coltype2str type_int = 73 ∷ 78 ∷ 84 ∷ []
coltype2str type_float = 70 ∷ 76 ∷ 79 ∷ 65 ∷ 84 ∷ []
coltype2str type_string = 83 ∷ 84 ∷ 82 ∷ 73 ∷ 78 ∷ 71 ∷ []
