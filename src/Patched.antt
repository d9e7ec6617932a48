-- ===== src/Patched.antt =====
-- crates/lib/src/processor/functions.rs, `patch_insert_fn`, `create_loop`, `patch_get_fn` and
-- `patch_drop_fn`: the local functions that replace the imports `insert`, `get` and `drop`.
-- The builder's closures are the nested sequences; the builder's ids of locals and sequences are
-- the numbers named here. The code's one table is the only one that these functions name.
pub mod Loop
pub mod Slots
pub mod Insert
pub mod Access
pub mod Effects
pub mod Runs
pub mod Typed
use externref.Prelude.{ℕ, Option, none, some}
use externref.Processor.Ir.{ValType}
use externref.Wasm.{
  Code, nop, ◌⨾◌, local_get, local_set, i32_const, i32_sub, i32_eq, ref_null, ref_is_null,
  table_size, table_get, table_set, table_grow, call, br, return_, unreachable, block, loop,
  if_else, minus_one,
}

-- The locals of the insertion: its argument, and the counter.
abbrev pub value : ℕ
value = 0

abbrev pub free_idx : ℕ
free_idx = 1

-- `create_loop`: the sequence in the block `break_id`.
abbrev pub break_id : ℕ
break_id = 1

abbrev pub loop_id : ℕ
loop_id = 2

unfoldable pub loop_body : Code
loop_body =
    local_get free_idx
    ⨾ table_get
    ⨾ ref_is_null
    ⨾ if_else none (br break_id ⨾ nop) (
        local_get free_idx
        ⨾ if_else none
            (local_get free_idx ⨾ i32_const 1 ⨾ i32_sub ⨾ local_set free_idx ⨾ br loop_id ⨾ nop)
            (table_size ⨾ local_set free_idx ⨾ br break_id ⨾ nop)
        ⨾ nop)
    ⨾ nop

unfoldable pub create_loop : Code
create_loop = loop none loop_id loop_body ⨾ nop

-- The three parts of the body of `patch_insert_fn`, each in front of what follows it.
unfoldable pub null_check : Code → Code
null_check rest =
    local_get value ⨾ ref_is_null ⨾ if_else none (i32_const minus_one ⨾ return_ ⨾ nop) nop ⨾ rest

unfoldable pub find_free : Code → Code
unfolding create_loop
find_free rest =
    table_size
    ⨾ if_else none
        (table_size
          ⨾ i32_const 1
          ⨾ i32_sub
          ⨾ local_set free_idx
          ⨾ block none break_id create_loop
          ⨾ nop)
        nop
    ⨾ rest

unfoldable pub store_value : Code → Code
store_value rest =
    local_get free_idx
    ⨾ table_size
    ⨾ i32_eq
    ⨾ if_else none
        (local_get value
          ⨾ i32_const 1
          ⨾ table_grow
          ⨾ i32_const minus_one
          ⨾ i32_eq
          ⨾ if_else none (unreachable ⨾ nop) nop
          ⨾ nop)
        (local_get free_idx ⨾ local_get value ⨾ table_set ⨾ nop)
    ⨾ rest

unfoldable pub patch_insert_fn : Code
patch_insert_fn = null_check (find_free (store_value (local_get free_idx ⨾ nop)))

unfoldable pub patch_get_fn : Code
patch_get_fn =
    local_get 0
    ⨾ i32_const minus_one
    ⨾ i32_eq
    ⨾ if_else (some ValType.extern_ref) (ref_null ⨾ nop) (local_get 0 ⨾ table_get ⨾ nop)
    ⨾ nop

unfoldable pub patch_drop_fn : Option ℕ → Code
patch_drop_fn none = local_get 0 ⨾ ref_null ⨾ table_set ⨾ nop
patch_drop_fn (some drop_fn_id) =
    local_get 0 ⨾ table_get ⨾ call drop_fn_id ⨾ local_get 0 ⨾ ref_null ⨾ table_set ⨾ nop
