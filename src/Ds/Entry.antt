-- ===== src/Ds/Entry.antt =====
-- The data node that the trees store: `struct stree_data_node` of fram/module/ds/inc/stree.h, which
-- `struct rbtree_data_node` of rbtree.h repeats field by field, and the copy that an insertion makes.
use my_resource.Base.{
  ℕ, ◌+◌, ◌-◌, ◌%◌, ◌≤◌, ◌≡◌, Bool, true, List, ◌++◌, arith, length, take, replicate, length-append,
  length-replicate, length-take_le, take-append_take,
}

-- `value` is the memory behind the pointer, byte by byte.
pub record DataNode : Type 0 where
  pub key : ℕ
  pub value_size : ℕ
  pub value : List ℕ

-- What the three calls of `malloc` in an insertion return: true for memory, false for NULL.
pub record Mallocs : Type 0 where
  pub node : Bool
  pub data_node : Bool
  pub value : Bool

abbrev pub all_mallocs : Mallocs
all_mallocs = record { node = true; data_node = true; value = true }

-- 0 and -1.
pub data Status : Type 0 where
  success error : Status

-- The size that is asked for: up to the next multiple of four, and four more if it is one already.
unfoldable pub padded_size : ℕ → ℕ
padded_size n = n + (4 - n % 4)

-- The block is zeroed, and `value_size` bytes are copied into it.
unfoldable pub copy_value : ℕ → List ℕ → List ℕ
copy_value n bytes = take n bytes ++ replicate (4 - n % 4) 0

unfoldable pub copy_node : DataNode → DataNode
unfolding copy_value
copy_node d = record d { value = copy_value d.value_size d.value }

pub copy_value_lem :
    (n : ℕ) (bytes : List ℕ)
    → n ≤ length bytes
    → (take n (copy_value n bytes) ≡ take n bytes)
      × (length (copy_value n bytes) ≡ padded_size n)
      × (padded_size n % 4 ≡ 0)
unfolding copy_value padded_size
copy_value_lem n bytes h = (
  take-append_take n bytes _ h,
  omega (
    arith,
    length-append (take n bytes) (replicate (4 - n % 4) 0),
    length-take_le n bytes h,
    length-replicate (4 - n % 4) (let z : ℕ = 0 in z),
  ),
  omega arith,
)
