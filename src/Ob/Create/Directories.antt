-- ===== src/Ob/Create/Directories.antt =====
-- KaushOS/kern/ob/obdir.c, obsym.c and ob.c: ObCreateDirectoryObject, the creation of symbolic links,
-- and Ob_init. A new spin lock is not modelled.
use kaush_os.Base.{ℕ, Bool, true, false, none, some, [], ◌∷◌, ◌==◌, ◌!=◌, if◌then◌else◌}
use kaush_os.Base.Outcome.{Outcome, ok, bug_check, assert, ◌>>=◌, ◌>>◌}
use kaush_os.Strings.{Text}
use kaush_os.Ob.Object.{set_header, reference_object, dereference_object}
use kaush_os.Ob.Handle.{Status, insert_object}
use kaush_os.Ob.Names.{
  Name, NameSpace, KStatus, success, insufficient_resources, too_many_opened_files,
  compare_unicode_string,
}
use kaush_os.Ob.Names.Devices.{is_success, object_at}
use kaush_os.Ob.Create.{
  Manager, name_space, Attributes, initialize_object_attributes, init_unicode_string,
  copy_unicode_string, Supply, create_object,
}

-- The name of the root directory, and the size of OBJECT_DIRECTORY.
abbrev pub root_name : Name
root_name = init_unicode_string (some (b'\\' ∷ []))

abbrev pub sizeof_directory : ℕ
sizeof_directory = 28

abbrev pub handle_status : Status → KStatus
handle_status Status.success = success
handle_status Status.insufficient_resources = insufficient_resources
handle_status Status.too_many_opened_files = too_many_opened_files

-- The handle to a new object, if the caller wants one.
unfoldable pub hand_out : Bool → ℕ → Manager → Outcome (KStatus × ℕ × Manager)
hand_out false o m = ok (success, 0, m)
hand_out true o m = do
  (status, handle, t, s) ← insert_object o m.handle_table m.objects
  let m1 = record m { handle_table = t; objects = s }
  elim (is_success (handle_status status)) [
    | true ↦ ok (success, handle, m1)
    | false ↦ do
      s1 ← dereference_object o s
      ok (handle_status status, handle, record m1 { objects = s1 })
  ]

-- The first directory has to be the root directory, and is created without a name.
unfoldable pub directory_attributes : Attributes → Name → Manager → Outcome (Bool × Attributes)
directory_attributes a name m = elim (m.names.root_directory == 0) [
  | false ↦ ok (false, a)
  | true ↦ elim (compare_unicode_string name root_name == 0) [
    | true ↦ ok (true, record a { object_name = none })
    | false ↦ bug_check
  ]
]

abbrev pub empty_directory : ℕ → Manager → Manager
empty_directory o m = record m {
  names = record m.names {
    mount_point = λ p. if p == o then false else m.names.mount_point p;
    children = λ p. if p == o then [] else m.names.children p;
  };
}

-- The root directory gets its name.
unfoldable pub name_root : Bool → Bool → ℕ → Manager → Outcome Manager
name_root false has_buffer o m = ok m
name_root true false o m = bug_check
name_root true true o m =
    let name = copy_unicode_string root_name in
    ok (record m {
      objects = set_header o (record (m.objects.header o) { named = true }) m.objects;
      names = record m.names { object_name = λ p. if p == o then name else m.names.object_name p };
    })

-- What is done to a directory that ObCreateObject gave.
unfoldable pub init_directory :
    Bool → Bool → Bool → ℕ → Manager → Outcome (KStatus × ℕ × ℕ × Manager)
init_directory is_root has_buffer wants_handle o m = do
  m1 ← name_root is_root has_buffer o (empty_directory o m)
  (status, handle, m2) ← hand_out wants_handle o m1
  ok (status, o, handle, m2)

-- ObCreateDirectoryObject: the status, the object, the handle, and the manager. `variable` is the
-- variable that ObCreateObject writes, and `has_buffer` says whether the root's name gets memory.
unfoldable pub create_directory_object :
    Supply → Bool → Bool → ℕ → Attributes → Manager → Outcome (KStatus × ℕ × ℕ × Manager)
create_directory_object supply has_buffer wants_handle variable a m = elim a.object_name [
  | none ↦ bug_check
  | some name ↦ do
    (is_root, a1) ← directory_attributes a name m
    (status, o, m1) ←
        create_object supply none m.directory_type (some a1) sizeof_directory variable m
    elim (is_success status) [
      | false ↦ ok (status, 0, 0, m1)
      | true ↦ init_directory is_root has_buffer wants_handle o m1
    ]
]

abbrev pub set_link_target : ℕ → ℕ → NameSpace → NameSpace
set_link_target o target s = record s {
  link_target = λ p. if p == o then target else s.link_target p;
}

-- ObGetTargetFromSymbolicLink.
abbrev pub target_from_symbolic_link : ℕ → Manager → ℕ
target_from_symbolic_link o m = m.names.link_target o

-- What is done to a link that ObCreateObject gave.
unfoldable pub init_link : Bool → ℕ → ℕ → Manager → Outcome (KStatus × ℕ × ℕ × Manager)
init_link wants_handle target o m = do
  s ← reference_object target m.objects
  (status, handle, m1) ←
      hand_out wants_handle o (record m { objects = s; names = set_link_target o target m.names })
  ok (status, o, handle, m1)

-- ObpCreateSymbolicLinkObject.
unfoldable pub create_symbolic_link_object :
    Supply → Bool → ℕ → ℕ → Attributes → Manager → Outcome (KStatus × ℕ × ℕ × Manager)
create_symbolic_link_object supply wants_handle variable target a m = elim a.object_name [
  | none ↦ bug_check
  | some name ↦ do
    assert (m.names.root_directory != 0)
    (status, o, m1) ← create_object supply none m.link_type (some a) sizeof_directory variable m
    elim (is_success status) [
      | false ↦ ok (status, 0, 0, m1)
      | true ↦ init_link wants_handle target o m1
    ]
]

-- ObCreateSymbolicLink; `has_buffer` is for the lookup of the target.
unfoldable pub create_symbolic_link :
    Supply → Bool → ℕ → Name → Name → Manager → Outcome (KStatus × Manager)
create_symbolic_link supply has_buffer variable link_name target_name m = do
  target ← object_at has_buffer target_name.buffer (name_space m)
  (status, _, _, m1) ←
      create_symbolic_link_object supply false variable target
        (initialize_object_attributes (some link_name) 0 0) m
  ok (status, m1)

-- A directory that Ob_init creates: its flags are OBJ_PERMANENT and OBJ_KERNEL_HANDLE, and a failure
-- stops the kernel. The buffer for the root's name is the second one, which a call without a name
-- does not use.
unfoldable pub init_step : Supply → ℕ → Text → ℕ → Manager → Outcome (ℕ × Manager)
init_step supply variable path handle m = do
  (status, o, _, m1) ←
      create_directory_object supply supply.second_buffer false variable
        (initialize_object_attributes (some (init_unicode_string (some path))) 528 handle) m
  assert (is_success status)
  ok (o, m1)

-- "\\GLOBAL??", "\\Driver" and "\\Device".
abbrev pub global_path : Text
global_path = b'\\' ∷ b'G' ∷ b'L' ∷ b'O' ∷ b'B' ∷ b'A' ∷ b'L' ∷ b'?' ∷ b'?' ∷ []

abbrev pub driver_path : Text
driver_path = b'\\' ∷ b'D' ∷ b'r' ∷ b'i' ∷ b'v' ∷ b'e' ∷ b'r' ∷ []

abbrev pub device_path : Text
device_path = b'\\' ∷ b'D' ∷ b'e' ∷ b'v' ∷ b'i' ∷ b'c' ∷ b'e' ∷ []

-- Ob_init behind the creation of the types: `supply` is for each of the four calls, and
-- `dir_handle` is what the variable DirHandle holds, which the code never sets.
unfoldable pub ob_init : (ℕ → Supply) → ℕ → ℕ → Manager → Outcome Manager
ob_init supply variable dir_handle m = do
  (root, m1) ← init_step (supply 0) variable (b'\\' ∷ []) 0 m
  let m2 = record m1 { names = record m1.names { root_directory = root } }
  (global, m3) ← init_step (supply 1) variable global_path 0 m2
  let m4 = record m3 { names = record m3.names { global_directory = global } }
  (_, m5) ← init_step (supply 2) variable driver_path dir_handle m4
  (_, m6) ← init_step (supply 3) variable device_path dir_handle m5
  ok m6
