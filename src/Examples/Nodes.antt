-- ===== src/Examples/Nodes.antt =====
-- A leaf with the keys 2 and 6 of one `int` column.
use uni_base.Base.{ℕ, ◌≡◌, ◌≢◌, subst, refl, List, [], ◌∷◌, pos, some, arith, ◌==◌, if◌then◌else◌}
use uni_base.Bytes.{get_int}
use uni_base.Storage.Disk.{wrap32}
use uni_base.Storage.Page.{Block}
use uni_base.Defs.{type_int}
use uni_base.Index.{
  IxNodeHandle, num_key, get_key, get_rid, compare_key, ix_compare, ix_compare_col, compare_int,
  leaf_lookup,
}
use uni_base.Errors.{ok, throw, undefined_behaviour}
use uni_base.Base.{ℤ-discrete, ℕ_discrete}
use uni_base.Index.Children.{
  IsFirstChild, value_at, find_child, internal_lookup, find_child-IsFirstChild,
}
use uni_base.Index.Search.{leaf_lookup-equal_below, equal_below}
use Prim.Native.Nat.{Ordering}

abbrev any_order : List ℕ → List ℕ → Ordering
any_order a b = Ordering.eq

abbrev leaf : IxNodeHandle
leaf = record {
  file_hdr = record { cols = (type_int, 4) ∷ []; col_tot_len = 4; keys_size = 12 };
  -- The count of keys, the two keys, and the record ids behind the space of three keys.
  bytes = λ i.
      if i == 8
      then 2
      else if i == 24
      then 2
      else if i == 28
      then 6
      else if i == 36
      then 1
      else if i == 44
      then 1
      else if i == 48
      then 3
      else 0;
}

abbrev six : Block
six i = if i == 0 then 6 else 0

leaf_lookup-equal_below_example :
    leaf_lookup any_order leaf six ≡ some (record { page_no = pos 1; slot_no = pos 3 })
unfolding num_key get_key get_rid get_int wrap32 compare_key ix_compare ix_compare_col compare_int
    equal_below
leaf_lookup-equal_below_example = leaf_lookup-equal_below any_order leaf six (λ i j l m n.
    let first : i ≡ 0 = omega (arith, l, m) in
    let below : compare_key any_order leaf six 0 ≢ Ordering.gt =
      subst (λ k. compare_key any_order leaf six k ≢ Ordering.gt) first n in
    absurd (below refl))

-- The record ids of the node, as children: both stand on page 1.
find_child-IsFirstChild_example :
    IsFirstChild leaf (pos 1) 0 (num_key leaf) (find_child leaf (pos 1))
find_child-IsFirstChild_example = find_child-IsFirstChild leaf (pos 1)

first_child : find_child leaf (pos 1) ≡ ok 0
unfolding find_child value_at num_key get_rid get_int wrap32 ℤ-discrete ℕ_discrete
first_child = refl

-- The second key is compared by the type of a second column, which there is not.
behind_columns : internal_lookup any_order leaf six ≡ throw undefined_behaviour
unfolding internal_lookup num_key get_key get_int wrap32 ix_compare_col compare_int
behind_columns = refl
