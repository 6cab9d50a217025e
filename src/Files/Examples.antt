-- ===== src/Files/Examples.antt =====
-- The functions of kernel/proc/fd.c at a concrete table, and their theorems there.
use orion_final.Base.{ℕ, ◌+◌, ◌≤◌, ◌<◌, ◌^◌, ◌≡◌, arith, ◌==◌, if◌then◌else◌, none, some}
use orion_final.Files.{Files, Backend, Table, fd_max, fd_table_clone, fd_table_close_all}
use orion_final.Files.Refs.{refs, count, close_all-clone}

-- Nothing is kept of the vnodes.
abbrev backend : Backend ℕ
backend = record { close = λ r v. r; kfree = λ r a. r + 1 }

-- File 100 stands in slots 0 and 1, and every file has two references.
abbrev opened : Files ℕ
opened = record {
  files = λ f. record { vnode = 7; offset = 0; flags = 0; refcount = 2 };
  vnode_refcount = λ v. 1;
  resources = 0;
}

abbrev table : Table
table i = if i == 0 then some 100 else if i == 1 then some 100 else none

abbrev empty : Table
empty i = none

within_counts : (f : ℕ) → (refs table f 0 fd_max ≤ 2) × (2 < 2 ^ 32)
unfolding refs
within_counts f = ground arith

close_all-clone_example :
    let (shared, child) = fd_table_clone opened table empty in
    let (s', t) = fd_table_close_all backend shared child in
    ((f : ℕ) → count s' f ≡ 2) × ((j : ℕ) → j < fd_max → t j ≡ none)
close_all-clone_example =
    close_all-clone backend opened table empty (λ f. omega (arith, within_counts f))
