-- ===== src/Ob/Names.antt =====
-- KaushOS/kern/ob/obname.c and obdir.c, and the comparison of lib/unicode.c: the name space of
-- objects. An object is its address, 0 is NULL, and a path is the list of its characters before the
-- NUL. The spin lock of a directory is taken and given back inside each operation, and whether the
-- pool has a buffer for a name is an argument. A name of 128 characters fills its buffer, and the
-- NUL that the code writes behind it is not modelled.
pub mod Parts
pub mod Walk
pub mod Resolve
pub mod Lookup
pub mod Insert
pub mod RoundTrip
pub mod Reopen
pub mod Devices
pub mod Mount
pub mod Away
pub mod Same
mod Examples
use kaush_os.Base.{
  ℕ, zero, suc, ◌+◌, ◌-◌, ◌%◌, ◌^◌, Bool, true, false, not, ◌&&◌, ◌||◌, Option, none, some, List,
  [], ◌∷◌, ◌++◌, ◌==◌, ◌!=◌, ltb, leb, if◌then◌else◌,
}
use kaush_os.Base.Outcome.{Outcome, ok, bug_check, spin, assert, ◌>>=◌, ◌>>◌}
use kaush_os.Strings.{Text, strlen, strncmp}

-- UNICODE_STRING; a MaximumLength is MAX_OBJECT_NAME_SIZE.
pub record Name : Type 0 where
  pub size : ℕ
  pub buffer : Text

abbrev pub max_object_name_size : ℕ
max_object_name_size = 128

-- The types that the name space tells apart.
pub data ObjectType : Type 0 where
  directory symbolic_link device other : ObjectType

-- `children` are the objects of a directory's list, in its order; `linked` says that an object's
-- DirEntryLink is not NULL; `mount_point` is OB_DIRECTORY_MOUNTPOINT and `device_object` the device
-- that is mounted; `link_target` is LinkTargetObject; `valid` is the test of Magic.
pub record NameSpace : Type 0 where
  pub root_directory : ℕ
  pub global_directory : ℕ
  pub valid : ℕ → Bool
  pub object_type : ℕ → ObjectType
  pub object_name : ℕ → Name
  pub children : ℕ → List ℕ
  pub linked : ℕ → Bool
  pub mount_point : ℕ → Bool
  pub device_object : ℕ → ℕ
  pub link_target : ℕ → ℕ

-- OBP_LOOKUP_CONTEXT without the lock.
pub record Context : Type 0 where
  pub found_in : ℕ
  pub object : ℕ
  pub last_mount_point : ℕ
  pub parsed_till : Text

-- ObInitializeLookupContext.
abbrev pub initial_context : Context
initial_context = record { found_in = 0; object = 0; last_mount_point = 0; parsed_till = [] }

pub data KStatus : Type 0 where
  success insufficient_resources name_not_found path_not_found name_exists : KStatus
  invalid_device name_collision too_many_opened_files : KStatus

abbrev pub is_directory : ObjectType → Bool
is_directory directory = true
is_directory t = false

abbrev pub is_link : ObjectType → Bool
is_link symbolic_link = true
is_link t = false

abbrev pub is_device : ObjectType → Bool
is_device device = true
is_device t = false

-- ObIsDirectoryObject, ObIsMountpointObject, ObIsSymbolicLinkObject and ObIsDeviceObject.
abbrev pub is_directory_object : ℕ → NameSpace → Outcome Bool
is_directory_object o s = do assert (s.valid o); ok (is_directory (s.object_type o))

abbrev pub is_mountpoint_object : ℕ → NameSpace → Outcome Bool
is_mountpoint_object o s = do
  assert (s.valid o)
  ok (is_directory (s.object_type o) && s.mount_point o)

abbrev pub is_symbolic_link_object : ℕ → NameSpace → Outcome Bool
is_symbolic_link_object o s = do assert (s.valid o); ok (is_link (s.object_type o))

abbrev pub is_device_object : ℕ → NameSpace → Outcome Bool
is_device_object o s = do assert (s.valid o); ok (is_device (s.object_type o))

-- RtlCompareUnicodeString.
unfoldable pub compare_unicode_string : Name → Name → ℕ
compare_unicode_string s1 s2 =
    if ltb s2.size s1.size
    then 2 ^ 32 - 1
    else if ltb s1.size s2.size
    then 1
    else strncmp s1.buffer s2.buffer s1.size

-- IsPathSeperator.
abbrev pub is_path_separator : ℕ → Bool
is_path_separator c = c == b'\\' || c == b'/'

-- The two loops of ObParseDirectoryPath.
unfoldable pub skip_separators : Text → Text
skip_separators [] = []
skip_separators (c ∷ path) = if is_path_separator c then skip_separators path else c ∷ path

unfoldable pub take_name : Text → Text × Text
take_name [] = ([], [])
take_name (c ∷ path) =
    let (name, rest) = take_name path in
    if is_path_separator c then ([], c ∷ path) else (c ∷ name, rest)

-- ObParseDirectoryPath from the first character of a name on.
abbrev pub parse_name : Text → Outcome (Option (Name × Text))
parse_name [] = ok none
parse_name (c ∷ path) = do
  let (name, rest) = take_name path
  let length = suc (strlen name)
  assert (leb length max_object_name_size)
  ok (some (record { size = length; buffer = c ∷ name }, rest))

-- ObParseDirectoryPath.
unfoldable pub parse_directory_path : Text → Outcome (Option (Name × Text))
parse_directory_path path = parse_name (skip_separators path)

-- The loop of ObpLookupEntryDirectory.
unfoldable pub find_entry : List ℕ → Name → NameSpace → Option ℕ
find_entry [] name s = none
find_entry (o ∷ os) name s =
    if compare_unicode_string name (s.object_name o) == 0 then some o else find_entry os name s

-- What a found entry does to the context.
abbrev pub entered : ℕ → Context → ℕ → Bool → Context
entered dir context o false = record context { found_in = dir; object = o }
entered dir context o true = record context { found_in = dir; object = o; last_mount_point = o }

-- ObpLookupEntryDirectory.
unfoldable pub lookup_entry_directory : ℕ → Name → Context → NameSpace → Outcome (KStatus × Context)
lookup_entry_directory dir name context s = elim (find_entry (s.children dir) name s) [
  | none ↦ ok (name_not_found, context)
  | some o ↦ do mount ← is_mountpoint_object o s; ok (success, entered dir context o mount)
]

-- ObpInsertEntryDirectory.
unfoldable pub insert_entry_directory : ℕ → Context → ℕ → NameSpace → Outcome NameSpace
insert_entry_directory parent context o s = do
  is_dir ← is_directory_object parent s
  assert is_dir
  assert (not (s.linked o))
  assert (context.found_in == parent)
  ok (record s {
    children = λ d. if d == parent then s.children d ++ (o ∷ []) else s.children d;
    linked = λ p. if p == o then true else s.linked p;
  })

abbrev pub Lookup : Type 0
Lookup = KStatus × Context × NameSpace

abbrev pub set_name : ℕ → Name → NameSpace → NameSpace
set_name o name s = record s { object_name = λ p. if p == o then name else s.object_name p }

-- The last name of a path is not there: the object that the caller wants to insert gets it.
abbrev pub insert_missing : Option ℕ → ℕ → Name → Context → NameSpace → Outcome Lookup
insert_missing none dir name context s = ok (name_not_found, context, s)
insert_missing (some o) dir name context s = do
  s1 ← insert_entry_directory dir context o (set_name o name s)
  ok (success, context, s1)

-- A name of the path is not there.
unfoldable pub lookup_missing : Option ℕ → ℕ → Name → Text → Context → NameSpace → Outcome Lookup
lookup_missing insert dir name rest context s = do
  let context1 = record context { found_in = dir; object = 0 }
  next ← parse_directory_path rest
  elim next [
    | some _ ↦ ok (path_not_found, context1, s)
    | none ↦ insert_missing insert dir name context1 s
  ]

-- The loop of ObpLookupObjectByName, with a round for each name.
unfoldable pub lookup_from :
    ℕ → Option ℕ → ℕ → Text → KStatus → Context → NameSpace → Outcome Lookup
lookup_from zero insert dir path status context s = spin
lookup_from (suc fuel) insert dir path status context0 s = do
  let context = record context0 { parsed_till = path }
  is_dir ← is_directory_object dir s
  elim is_dir [
    | false ↦ ok (path_not_found, record context { found_in = dir; object = 0 }, s)
    | true ↦ do
      parsed ← parse_directory_path path
      elim parsed [
        | none ↦ ok (status, context, s)
        | some (name, rest) ↦ do
          (result, context1) ← lookup_entry_directory dir name context s
          elim result [
            | success ↦ elim rest [
              | [] ↦ ok (success, context1, s)
              | c ∷ cs ↦ lookup_from fuel insert context1.object (c ∷ cs) success context1 s
            ]
            | _ ↦ lookup_missing insert dir name rest context1 s
          ]
      ]
  ]

-- ObpLookupObjectByName; `has_buffer` says whether the pool has memory for a name.
unfoldable pub lookup_object_by_name :
    Bool → ℕ → Text → Context → Option ℕ → NameSpace → Outcome Lookup
lookup_object_by_name has_buffer parent path context insert s = do
  assert (s.root_directory != 0)
  assert (parent != 0)
  elim has_buffer [
    | true ↦ lookup_from (suc (strlen path)) insert parent path success context s
    | false ↦ ok (insufficient_resources, context, s)
  ]
