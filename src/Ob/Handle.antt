-- ===== src/Ob/Handle.antt =====
-- KaushOS/kern/ob/obhandle.c: the handle table of a process, one page of EX_MAX_HANDLE slots, and
-- ObInsertObject and ObClose of ob.c on it. The table's memory comes from MmAllocateSystemPtes: what
-- it holds at first, or that there is none, is an argument.
pub mod Slots
pub mod Inherit
mod Examples
use kaush_os.Base.{
  ℕ, zero, suc, ◌+◌, ◌-◌, ◌^◌, Bool, true, false, ◌||◌, Option, none, some, ◌==◌, ◌!=◌, ltb,
  if◌then◌else◌,
}
use kaush_os.Base.Outcome.{Outcome, ok, bug_check, assert, ◌>>=◌, ◌>>◌}
use kaush_os.Ob.Object.{
  Objects, dereference_object, reference_object, is_object_inheritable, increment_handle_count,
  close_object, reference_object_by_pointer,
}

abbrev pub ex_max_handle : ℕ
ex_max_handle = 1024

-- OB_INVALID_HANDLE, which also marks a slot without an object; NULL is 0.
abbrev pub invalid_handle : ℕ
invalid_handle = 2 ^ 32 - 1

pub data Status : Type 0 where
  success insufficient_resources too_many_opened_files : Status

-- HANDLE_TABLE: the Object of each HANDLE_TABLE_ENTRY.
abbrev pub HandleTable : Type 0
HandleTable = ℕ → ℕ

abbrev pub put : ℕ → ℕ → HandleTable → HandleTable
put i o t = λ j. if j == i then o else t j

-- The loop of ObInsertHandle over `k` slots from slot `i`.
unfoldable pub first_free : ℕ → ℕ → HandleTable → Option ℕ
first_free zero i t = none
first_free (suc k) i t =
    let rest = first_free k (suc i) t in if t i == invalid_handle then some i else rest

-- ObInsertHandle: the status, the handle, and the table.
unfoldable pub insert_handle : ℕ → HandleTable → Outcome (Status × ℕ × HandleTable)
insert_handle o t = do
  assert (o != 0)
  elim (first_free ex_max_handle 0 t) [
    | some i ↦ ok (success, i, put i o t)
    | none ↦ ok (too_many_opened_files, invalid_handle, t)
  ]

-- ObRemoveHandle.
unfoldable pub remove_handle : ℕ → HandleTable → ℕ → Outcome HandleTable
remove_handle handle t o = do
  assert (ltb handle ex_max_handle)
  assert (handle != invalid_handle)
  assert (t handle == o)
  ok (put handle invalid_handle t)

-- ObLookupObjectByHandle.
unfoldable pub lookup_object_by_handle : ℕ → HandleTable → Outcome ℕ
lookup_object_by_handle handle t = do
  assert (ltb handle ex_max_handle)
  assert (handle != invalid_handle)
  ok (t handle)

-- The loop of ObDerefAllHandleTableObjects over `k` slots from slot `i`.
unfoldable pub deref_from : ℕ → ℕ → HandleTable → Objects → Outcome (HandleTable × Objects)
deref_from zero i t s = ok (t, s)
deref_from (suc k) i t s = elim (t i != invalid_handle) [
  | true ↦ do s1 ← dereference_object (t i) s; deref_from k (suc i) (put i invalid_handle t) s1
  | false ↦ deref_from k (suc i) t s
]

-- ObDerefAllHandleTableObjects.
unfoldable pub deref_all_handle_table_objects :
    HandleTable → Objects → Outcome (HandleTable × Objects)
deref_all_handle_table_objects t s = deref_from ex_max_handle 0 t s

-- Whether the slot's object is handed on: all are to a clone, else the inheritable ones.
unfoldable pub is_inherited : Bool → ℕ → Objects → Outcome Bool
is_inherited true o s = ok true
is_inherited false o s = is_object_inheritable o s

-- One round of the loop of ObAllocateHandleTable with a table to inherit from.
unfoldable pub inherit_slot :
    Bool → ℕ → HandleTable → HandleTable → Objects → Outcome (HandleTable × Objects)
inherit_slot is_clone i parent t s =
    if parent i == invalid_handle || parent i == 0 then ok (t, s) else (do
      inherited ← is_inherited is_clone (parent i) s
      if inherited
          then (do s1 ← reference_object (parent i) s; ok (put i (parent i) t, s1))
          else ok (put i invalid_handle t, s))

unfoldable pub inherit_from :
    Bool → ℕ → ℕ → HandleTable → HandleTable → Objects → Outcome (HandleTable × Objects)
inherit_from is_clone zero i parent t s = ok (t, s)
inherit_from is_clone (suc k) i parent t s = do
  (t1, s1) ← inherit_slot is_clone i parent t s
  inherit_from is_clone k (suc i) parent t1 s1

unfoldable pub fill_from : ℕ → ℕ → HandleTable → HandleTable
fill_from zero i t = t
fill_from (suc k) i t = fill_from k (suc i) (put i invalid_handle t)

-- ObAllocateHandleTable on the memory that it was given, if any: the status, the table if there is
-- one, and the objects.
unfoldable pub allocate_handle_table :
    Option HandleTable
    → Option HandleTable
    → Bool
    → Objects
    → Outcome (Status × Option HandleTable × Objects)
allocate_handle_table none inherit is_clone s = ok (insufficient_resources, none, s)
allocate_handle_table (some memory) none is_clone s = do
  assert (if is_clone then false else true)
  ok (success, some (fill_from ex_max_handle 0 memory), s)
allocate_handle_table (some memory) (some parent) is_clone s = do
  (t, s1) ← inherit_from is_clone ex_max_handle 0 parent memory s
  ok (success, some t, s1)

-- ObInsertObject on the table of the current process.
unfoldable pub insert_object :
    ℕ → HandleTable → Objects → Outcome (Status × ℕ × HandleTable × Objects)
insert_object o t s = do
  (status, handle, t1) ← insert_handle o t
  elim status [
    | success ↦ do s1 ← increment_handle_count o s; ok (success, handle, t1, s1)
    | other ↦ ok (other, handle, t1, s)
  ]

-- ObReferenceObjectByHandle on the table of the current process: the object and the objects.
unfoldable pub reference_object_by_handle : ℕ → ℕ → HandleTable → Objects → Outcome (ℕ × Objects)
reference_object_by_handle handle object_type t s = do
  o ← lookup_object_by_handle handle t
  s1 ← reference_object_by_pointer o object_type s
  ok (o, s1)

-- ObClose, which asks for an object of type NULL. The slot of the handle stays as it is.
unfoldable pub close : ℕ → HandleTable → Objects → Outcome Objects
close handle t s = do
  (o, s1) ← reference_object_by_handle handle 0 t s
  s2 ← dereference_object o s1
  close_object o 1 s2
