-- ===== src/Ob/Handle/Examples.antt =====
-- Handle tables whose slot 0 holds object 100.
use kaush_os.Base.{ℕ, ◌≡◌, refl, true, false, some, arith, ◌==◌, if◌then◌else◌}
use kaush_os.Base.Outcome.{ok}
use kaush_os.Ob.Object.{Objects, reference_object}
use kaush_os.Ob.Handle.{
  success, too_many_opened_files, HandleTable, put, invalid_handle, first_free, insert_handle,
  remove_handle, lookup_object_by_handle, allocate_handle_table, inherit_from, inherit_slot,
  is_inherited,
}
use kaush_os.Ob.Handle.Slots.{remove_handle-insert_handle}
use kaush_os.Ob.Handle.Inherit.{clone_table-full}

abbrev table : HandleTable
table j = if j == 0 then 100 else invalid_handle

-- Memory that is cleared.
abbrev cleared : HandleTable
cleared j = 0

abbrev objects : Objects
objects = record {
  current_irql = 0;
  header = λ o. record {
    ref_count = 1;
    open_handle_count = 1;
    permanent = false;
    inherit = true;
    named = false;
    object_type = 7;
    valid = true;
  };
}

inserted : insert_handle 200 table ≡ ok (success, 1, put 1 200 table)
unfolding insert_handle first_free
inserted = refl

remove_handle-insert_handle_example :
    (lookup_object_by_handle 1 (put 1 200 table) ≡ ok 200)
    × ((t2 : HandleTable) × (remove_handle 1 (put 1 200 table) 200 ≡ ok t2)
        × ((j : ℕ) → t2 j ≡ table j))
remove_handle-insert_handle_example =
    remove_handle-insert_handle 200 1 table (put 1 200 table) inserted

abbrev referenced : Objects
referenced = record objects {
  header =
      λ o. if o == 100 then record (objects.header 100) { ref_count = 2 } else objects.header o;
}

cloned :
    allocate_handle_table (some cleared) (some table) true objects
    ≡ ok (success, some (put 0 100 cleared), referenced)
unfolding allocate_handle_table inherit_from inherit_slot is_inherited reference_object
cloned = refl

clone_table-full_example :
    insert_handle 200 (put 0 100 cleared)
    ≡ ok (too_many_opened_files, invalid_handle, put 0 100 cleared)
clone_table-full_example =
    clone_table-full cleared table objects referenced (put 0 100 cleared) 200 cloned
      (λ j. omega arith) (omega arith)
