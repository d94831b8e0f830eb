-- ===== src/Ob/Names/Devices.antt =====
-- KaushOS/kern/ob/obname.c and obdir.c: from a path to a device, by mount points and symbolic
-- links. The logging of the tree is not modelled.
use kaush_os.Base.{
  ℕ, suc, ◌≡◌, refl, ap, ◌∙◌, Bool, true, false, Option, none, some, [], ◌∷◌, ◌==◌, ◌!=◌,
  if◌then◌else◌, arith,
}
use kaush_os.Base.Outcome.{Outcome, ok, assert, ◌>>=◌, ◌>>◌, assert-pass}
use kaush_os.Strings.{Text, strlen}
use kaush_os.Strings.Texts.{IsText}
use kaush_os.Ob.Names.{
  ObjectType, NameSpace, Context, KStatus, success, name_not_found, path_not_found, name_exists,
  invalid_device, initial_context, is_directory, is_device, is_directory_object,
  is_mountpoint_object, is_symbolic_link_object, is_device_object, parse_directory_path,
  skip_separators, lookup_object_by_name, find_entry, entered, lookup_from,
}
use kaush_os.Ob.Names.Parts.{name_of}
use kaush_os.Ob.Names.Walk.{at_path, is_mount, lookup_from_file, lookup_from_next, lookup_from_last}
use kaush_os.Ob.Names.Resolve.{named, named-mem, WellFormed, find_entry-named}

-- The object that ObGetDeviceObject goes by; without a buffer for a name it has none.
abbrev pub device_base : KStatus → Context → Option ℕ
device_base success c = some c.object
device_base name_not_found c = some c.found_in
device_base path_not_found c = some c.found_in
device_base status c = none

-- What ObGetDeviceObject gives: a device and the path that remains; `none` where C leaves undefined
-- what it does or returns.
abbrev pub Device : Type 0
Device = Option (ℕ × Text)

unfoldable pub device_of : ℕ → Text → NameSpace → Outcome Device
device_of o remaining s = do
  is_dir ← is_directory_object o s
  elim is_dir [
    | true ↦ do
      mount ← is_mountpoint_object o s
      assert mount
      ok (some (s.device_object o, remaining))
    | false ↦ do
      link ← is_symbolic_link_object o s
      elim link [
        | true ↦ do
          dev ← is_device_object (s.link_target o) s
          assert dev
          ok (some (s.link_target o, remaining))
        | false ↦ ok none
      ]
  ]

abbrev pub device_from : Option ℕ → Text → NameSpace → Outcome Device
device_from none remaining s = ok none
device_from (some o) remaining s = device_of o remaining s

-- ObGetDeviceObject.
unfoldable pub get_device_object : Bool → Text → NameSpace → Outcome Device
get_device_object has_buffer path s = do
  (status, c, s1) ← lookup_object_by_name has_buffer s.global_directory path initial_context none s
  device_from (device_base status c) c.parsed_till s1

abbrev pub is_success : KStatus → Bool
is_success success = true
is_success status = false

-- The object at a path below the root; where there is none, ASSERT1(0) stops the kernel.
unfoldable pub object_at : Bool → Text → NameSpace → Outcome ℕ
object_at has_buffer path s = do
  (status, c, s1) ← lookup_object_by_name has_buffer s.root_directory path initial_context none s
  assert (is_success status)
  ok c.object

-- ObMountFileSystem. That the object at the mount point is a directory is not tested; the fields
-- of one that is none are not modelled.
unfoldable pub mount_file_system : Bool → Text → Text → NameSpace → Outcome (KStatus × NameSpace)
mount_file_system has_buffer mount_path target s = do
  target_object ← object_at has_buffer target s
  dev ← is_device_object target_object s
  elim dev [
    | false ↦ ok (invalid_device, s)
    | true ↦ do
      dir ← object_at has_buffer mount_path s
      mounted ← is_mountpoint_object dir s
      elim mounted [
        | true ↦ ok (name_exists, s)
        | false ↦ ok (
          success,
          record s {
            mount_point = λ o. if o == dir then true else s.mount_point o;
            device_object = λ o. if o == dir then target_object else s.device_object o;
          },
        )
      ]
  ]

-- The rest of a path, or all of it where its only name ends it.
abbrev pub remaining_path : Text → Text → Text
remaining_path path [] = path
remaining_path path (c ∷ rest) = c ∷ rest

module _ (s : NameSpace) (w : WellFormed s) (p : Text) (link : ℕ)
    (root : (s.root_directory == 0) ≡ false) (global : (s.global_directory == 0) ≡ false)
    (valid : s.valid s.global_directory ≡ true)
    (is_dir : is_directory (s.object_type s.global_directory) ≡ true) (text : IsText p)
    (there : named (s.children s.global_directory) p s ≡ some link)
    (linked : s.object_type link ≡ ObjectType.symbolic_link)
    (target : s.valid (s.link_target link) ≡ true)
    (is_dev : is_device (s.object_type (s.link_target link)) ≡ true) where
  valid_link : s.valid link ≡ true
  valid_link =
      w.entries s.global_directory link (named-mem (s.children s.global_directory) p s link there)

  device_of-link :
      (remaining : Text) → device_of link remaining s ≡ ok (some (s.link_target link, remaining))
  unfolding device_of
  device_of-link remaining =
      let no_dir : is_directory_object link s ≡ ok false = rw valid_link (rw linked refl) in
      let is_sym : is_symbolic_link_object link s ≡ ok true = rw valid_link (rw linked refl) in
      let dev : is_device_object (s.link_target link) s ≡ ok true = rw target (rw is_dev refl) in
      rw (no_dir, device_of) (rw is_sym (rw dev refl))

  no_mount : is_mount link s ≡ false
  no_mount = rw linked refl

  -- The context behind the name of the link.
  abbrev at_link : Text → Context
  at_link path = entered s.global_directory (at_path path initial_context) link false

  abbrev entry : find_entry (s.children s.global_directory) (name_of p) s ≡ some link
  entry = find_entry-named (s.children s.global_directory) p s w text ∙ there

  lookup_link :
      (fuel : ℕ) (path : Text)
      → parse_directory_path path ≡ ok (some (name_of p, []))
      → lookup_from (suc fuel) none s.global_directory path success initial_context s
        ≡ ok (success, at_link path, s)
  lookup_link fuel path e =
      lookup_from_last fuel none s.global_directory path success initial_context s valid is_dir
        (name_of p) link entry valid_link e
      ∙ ap
          (λ (b : Bool).
            ok (success, entered s.global_directory (at_path path initial_context) link b, s))
          no_mount

  lookup_behind_link :
      (fuel : ℕ) (path : Text) (x : ℕ) (xs : Text)
      → parse_directory_path path ≡ ok (some (name_of p, x ∷ xs))
      → lookup_from (suc (suc fuel)) none s.global_directory path success initial_context s
        ≡ ok (
          path_not_found,
          record (at_path (x ∷ xs) (at_link path)) { found_in = link; object = 0 },
          s,
        )
  lookup_behind_link fuel path x xs e =
      let file : is_directory (s.object_type link) ≡ false = rw linked refl in
      lookup_from_next (suc fuel) none s.global_directory path success initial_context s valid
        is_dir (name_of p) link entry valid_link x xs e
      ∙ ap
          (λ (b : Bool).
            let c = entered s.global_directory (at_path path initial_context) link b in
            lookup_from (suc fuel) none c.object (x ∷ xs) success c s)
          no_mount
      ∙ lookup_from_file fuel none link (x ∷ xs) success (at_link path) s valid_link file

  started :
      (path : Text)
      → lookup_object_by_name true s.global_directory path initial_context none s
        ≡ lookup_from (suc (strlen path)) none s.global_directory path success initial_context s
  unfolding lookup_object_by_name
  started path =
      assert-pass {b = s.root_directory != 0} _ (ground (arith, root))
      ∙ assert-pass {b = s.global_directory != 0} _ (ground (arith, global))

  -- ObGetDeviceObject, for a path whose first name is, in the global directory, that of a symbolic
  -- link to a device: it gives the device, with what stands behind the name as the path that remains;
  -- for a path that the name ends, what remains is not empty but all of the path.
  pub get_device_object-link :
      (path rest : Text)
      → parse_directory_path path ≡ ok (some (name_of p, rest))
      → get_device_object true path s ≡ ok (some (s.link_target link, remaining_path path rest))
  unfolding get_device_object strlen parse_directory_path skip_separators
  get_device_object-link [] rest e = cc
  get_device_object-link (y ∷ ys) [] e =
      rw (started (y ∷ ys) ∙ lookup_link (suc (strlen ys)) (y ∷ ys) e, get_device_object)
        (device_of-link (y ∷ ys))
  get_device_object-link (y ∷ ys) (x ∷ xs) e =
      rw (started (y ∷ ys) ∙ lookup_behind_link (strlen ys) (y ∷ ys) x xs e, get_device_object)
        (device_of-link (x ∷ xs))
