-- ===== src/Ob/Create.antt =====
-- KaushOS/kern/ob/ob.c, obdir.c and obsym.c: the creation of objects, directories and symbolic links,
-- and the counted strings of lib/unicode.c that it uses. What the pool gives is an argument, and so
-- is the OpenProcedure of a type. The spin lock of a type's list is taken and given back inside.
pub mod Space
pub mod Named
pub mod Directories
pub mod Existing
pub mod Links
mod Examples
use kaush_os.Base.{
  ℕ, suc, ◌/◌, ◌%◌, ◌^◌, Bool, true, false, ◌&&◌, Option, none, some, List, [], ◌∷◌, ◌==◌, ◌!=◌,
  ltb, leb, if◌then◌else◌,
}
use kaush_os.Base.Outcome.{Outcome, ok, bug_check, assert, ◌>>=◌, ◌>>◌}
use kaush_os.Strings.{Text, strlen}
use kaush_os.Ob.Object.{Header, Objects, set_header, reference_object, dereference_object}
use kaush_os.Ob.Handle.{HandleTable, Status, insert_object, reference_object_by_handle}
use kaush_os.Ob.Names.{
  Name, NameSpace, ObjectType, directory, symbolic_link, device, other, Context, initial_context,
  KStatus, success, name_not_found, name_collision, insufficient_resources, too_many_opened_files,
  max_object_name_size, compare_unicode_string, lookup_object_by_name,
}
use kaush_os.Ob.Names.Devices.{is_success}
use kaush_os.Printf.Format.{take}

-- The state of the object manager and the handle table of the current process. `type_list` is the
-- Object_List_Head of each type, `is_type` says which address is its own place in ObjectTypeList.
-- Of `names`, the validity and the types of objects are those that their headers say.
pub record Manager : Type 0 where
  pub objects : Objects
  pub names : NameSpace
  pub handle_table : HandleTable
  pub type_list : ℕ → List ℕ
  pub is_type : ℕ → Bool
  pub directory_type : ℕ
  pub link_type : ℕ
  pub device_type : ℕ

abbrev pub type_kind : ℕ → Manager → ObjectType
type_kind t m =
    if t == m.directory_type
    then directory
    else if t == m.link_type
    then symbolic_link
    else if t == m.device_type
    then device
    else other

-- The name space as the lookup sees it.
abbrev pub name_space : Manager → NameSpace
name_space m = record m.names {
  valid = λ o. (m.objects.header o).valid;
  object_type = λ o. type_kind (m.objects.header o).object_type m;
}

-- OBJECT_ATTRIBUTES; `attribute_bits` is its field Attributes.
pub record Attributes : Type 0 where
  pub object_name : Option Name
  pub root_handle : ℕ
  pub attribute_bits : ℕ

-- InitializeObjectAttributes.
abbrev pub initialize_object_attributes : Option Name → ℕ → ℕ → Attributes
initialize_object_attributes name bits handle = record {
  object_name = name;
  root_handle = handle;
  attribute_bits = bits;
}

abbrev pub has_bit : ℕ → ℕ → Bool
has_bit n k = n / 2 ^ k % 2 == 1

-- Whether all bits are in OBJ_VALID_ATTRIBUTES.
abbrev pub are_valid_attributes : ℕ → Bool
are_valid_attributes n = ltb n (2 ^ 11) && (n % 2 == 0 && n / 4 % 4 == 0)

-- RtlInitUnicodeString, whose string NULL is `none`.
abbrev pub init_unicode_string : Option Text → Name
init_unicode_string none = record { size = 0; buffer = [] }
init_unicode_string (some s) = record { size = strlen s % 2 ^ 16; buffer = s }

-- RtlCopyUnicodeString into a buffer of MAX_OBJECT_NAME_SIZE bytes.
abbrev pub copy_unicode_string : Name → Name
copy_unicode_string source =
    let size = if leb max_object_name_size source.size then max_object_name_size else source.size in
    record { size = size; buffer = take size source.buffer }

-- What the pool gives during a call: the buffers for names, and the memory of an object.
pub record Supply : Type 0 where
  pub first_buffer : Bool
  pub second_buffer : Bool
  pub memory : Option ℕ

abbrev pub OpenProcedure : Type 0
OpenProcedure = Option (ℕ → Manager → Outcome (KStatus × Manager))

-- ObpLookupObjectByName on the manager.
unfoldable pub lookup_in :
    Bool → ℕ → Name → Context → Option ℕ → Manager → Outcome (KStatus × Context × Manager)
lookup_in has_buffer root name c insert m = do
  (status, c1, s) ← lookup_object_by_name has_buffer root name.buffer c insert (name_space m)
  ok (status, c1, record m { names = s })

-- The directory that a name starts from.
abbrev pub start_of : Attributes → Manager → Outcome (ℕ × Manager)
start_of a m = elim (a.root_handle == 0) [
  | true ↦ do assert (m.names.root_directory != 0); ok (m.names.root_directory, m)
  | false ↦ do
    (o, s) ← reference_object_by_handle a.root_handle m.directory_type m.handle_table m.objects
    ok (o, record m { objects = s })
]

-- What the search for the name of a new object ends in: where it goes, or what the call returns.
pub data Search : Type 0 where
  place : Option (ℕ × Name × Context) → Manager → Search
  answer : KStatus → ℕ → Manager → Search

-- The name is there. With OBJ_OPENIF, the reference is taken on the variable of the caller, whose
-- value, the object found, was written before; a header that ended at the variable would not change.
unfoldable pub existing : ℕ → ℕ → Context → Manager → Outcome Search
existing variable bits c m = elim (has_bit bits 7) [
  | true ↦ do
    assert (m.objects.header c.object).valid
    s ← reference_object variable m.objects
    ok (answer success c.object (record m { objects = s }))
  | false ↦ ok (answer name_collision 0 m)
]

unfoldable pub search_name : Bool → ℕ → Attributes → Option Name → Manager → Outcome Search
search_name has_buffer variable a none m = ok (place none m)
search_name has_buffer variable a (some name) m = do
  (root, m1) ← start_of a m
  (status, c, m2) ← lookup_in has_buffer root name initial_context none m1
  elim status [
    | success ↦ existing variable a.attribute_bits c m2
    | name_not_found ↦ ok (place (some (root, name, c)) m2)
    | failure ↦ ok (answer failure 0 m2)
  ]

unfoldable pub search_attributes : Bool → ℕ → Option Attributes → Manager → Outcome Search
search_attributes has_buffer variable none m = ok (place none m)
search_attributes has_buffer variable (some a) m = do
  assert (are_valid_attributes a.attribute_bits)
  search_name has_buffer variable a a.object_name m

-- New memory that is cleared, but for Magic.
abbrev pub blank : Header
blank = record {
  ref_count = 0;
  open_handle_count = 0;
  permanent = false;
  inherit = false;
  named = false;
  object_type = 0;
  valid = true;
}

abbrev pub cleared : ℕ → NameSpace → NameSpace
cleared o s = record s {
  object_name = λ p. if p == o then record { size = 0; buffer = [] } else s.object_name p;
  children = λ p. if p == o then [] else s.children p;
  linked = λ p. if p == o then false else s.linked p;
  mount_point = λ p. if p == o then false else s.mount_point p;
  device_object = λ p. if p == o then 0 else s.device_object p;
  link_target = λ p. if p == o then 0 else s.link_target p;
}

abbrev pub with_memory : ℕ → Manager → Manager
with_memory o m = record m { objects = set_header o blank m.objects; names = cleared o m.names }

abbrev pub give_back : ℕ → Manager → Manager
give_back o m = record m {
  objects = set_header o (record (m.objects.header o) { valid = false }) m.objects;
}

-- The new object is put under its name, if it has one.
unfoldable pub insert_new :
    Bool → ℕ → Option (ℕ × Name × Context) → Manager → Outcome (KStatus × Manager)
insert_new has_buffer o none m = ok (success, m)
insert_new has_buffer o (some (root, name, c)) m = do
  assert (leb name.size 1024)
  (status, _, m1) ← lookup_in has_buffer root name c (some o) m
  ok (status, m1)

abbrev pub bits_of : Option Attributes → ℕ
bits_of none = 0
bits_of (some a) = a.attribute_bits

-- The header of a new object; it has a name where it is linked into a directory.
abbrev pub new_header : ℕ → ℕ → Bool → Header
new_header t bits linked = record {
  ref_count = 1;
  open_handle_count = 0;
  permanent = has_bit bits 4;
  inherit = has_bit bits 1;
  named = linked;
  object_type = t;
  valid = true;
}

abbrev pub enlist : ℕ → ℕ → Manager → Manager
enlist t o m = record m { type_list = λ u. if u == t then o ∷ m.type_list t else m.type_list u }

-- The OpenProcedure, and the list of the type.
unfoldable pub open_new : OpenProcedure → ℕ → ℕ → Manager → Outcome (KStatus × ℕ × Manager)
open_new none t o m = ok (success, o, enlist t o m)
open_new (some procedure) t o m = do
  (status, m1) ← procedure o m
  elim (is_success status) [
    | true ↦ ok (success, o, enlist t o m1)
    | false ↦ ok (status, 0, give_back o m1)
  ]

unfoldable pub make_object :
    Supply
    → OpenProcedure
    → ℕ
    → ℕ
    → Option ℕ
    → Option (ℕ × Name × Context)
    → Manager
    → Outcome (KStatus × ℕ × Manager)
make_object supply procedure t bits none where_to m = ok (insufficient_resources, 0, m)
make_object supply procedure t bits (some o) where_to m = do
  (status, m1) ← insert_new supply.second_buffer o where_to (with_memory o m)
  elim (is_success status) [
    | false ↦ ok (status, 0, give_back o m1)
    | true ↦
        let h = new_header t bits (m1.names.linked o) in
        open_new procedure t o (record m1 { objects = set_header o h m1.objects })
  ]

-- ObCreateObject. `variable` is where the caller wants the object's address.
unfoldable pub create_object :
    Supply
    → OpenProcedure
    → ℕ
    → Option Attributes
    → ℕ
    → ℕ
    → Manager
    → Outcome (KStatus × ℕ × Manager)
create_object supply procedure t a size variable m = do
  assert (variable != 0)
  assert (ltb 0 size)
  assert (t != 0)
  assert (m.is_type t)
  found ← search_attributes supply.first_buffer variable a m
  elim found [
    | answer status o m1 ↦ ok (status, o, m1)
    | place where_to m1 ↦ make_object supply procedure t (bits_of a) supply.memory where_to m1
  ]
