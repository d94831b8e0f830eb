-- ===== src/Ob/Names/Mount.antt =====
-- KaushOS/kern/ob/obdir.c and obname.c: ObMountFileSystem, and the paths that lead to a mounted
-- device.
use kaush_os.Base.{
  ℕ, ◌≡◌, ◌≢◌, refl, ap, ◌∙◌, subst, inl, inr, ◌⊎◌, ◌&&◌, true, false, none, some, [], ◌==◌,
  if◌then◌else◌, arith,
}
use kaush_os.Base.Outcome.{ok}
use kaush_os.Strings.{Text}
use kaush_os.Ob.Names.{
  NameSpace, success, initial_context, is_directory, is_device, is_directory_object,
  is_mountpoint_object, lookup_object_by_name,
}
use kaush_os.Ob.Names.Parts.{parts, trailing, Short}
use kaush_os.Ob.Names.Resolve.{WellFormed, Resolved, found, no_name, resolve, Resolves}
use kaush_os.Ob.Names.Same.{Same, resolve-Same, WellFormed-Same}
use kaush_os.Ob.Names.Lookup.{lookup_object_by_name-Resolves}
use kaush_os.Ob.Names.Devices.{device_of, get_device_object, object_at, mount_file_system}

-- What ObMountFileSystem makes of a name space.
abbrev mounted : ℕ → ℕ → NameSpace → NameSpace
mounted dir dev s = record s {
  mount_point = λ o. if o == dir then true else s.mount_point o;
  device_object = λ o. if o == dir then dev else s.device_object o;
}

-- A path that names something, and whose names fit into their buffer.
abbrev pub Usable : Text → Type 0
Usable path = Short (parts path) × (parts path ≢ [])

mounted-Same : (dir dev : ℕ) (s : NameSpace) → Same s (mounted dir dev s)
mounted-Same dir dev s = record {
  same_children = λ p. refl;
  same_type = λ p. refl;
  same_name = λ p. refl;
  same_valid = λ p. refl;
}

-- A path leads to a directory, or to a name that the directory lacks.
abbrev pub LeadsTo : NameSpace → Text → ℕ → Type 0
LeadsTo s path dir =
    let r = resolve s s.global_directory (parts path) (trailing path) in
    (r ≡ found dir) ⊎ (r ≡ no_name dir)

-- The object at the end of a path of the root directory.
pub object_at-found :
    (s : NameSpace) (path : Text) (o : ℕ)
    → WellFormed s
    → (s.root_directory == 0) ≡ false
    → s.valid s.root_directory ≡ true
    → Usable path
    → resolve s s.root_directory (parts path) (trailing path) ≡ found o
    → object_at true path s ≡ ok o
unfolding object_at
object_at-found s path o w root valid_root (short, has_part) e =
    let (c, there, at) =
      subst
        (λ (r : Resolved).
          Resolves (lookup_object_by_name true s.root_directory path initial_context none s) r s)
        e
        (lookup_object_by_name-Resolves s s.root_directory path initial_context w root root
          valid_root short has_part) in
    rw there (ap (λ (p : ℕ). ok p) at)

module _ (s : NameSpace) (w : WellFormed s) (root : (s.root_directory == 0) ≡ false)
    (global : (s.global_directory == 0) ≡ false) (valid_root : s.valid s.root_directory ≡ true)
    (valid_global : s.valid s.global_directory ≡ true) (dir dev : ℕ)
    (valid_dir : s.valid dir ≡ true) (valid_dev : s.valid dev ≡ true) where
  mount_file_system-mounted :
      (mount_path target : Text)
      → Usable mount_path
      → Usable target
      → resolve s s.root_directory (parts target) (trailing target) ≡ found dev
      → is_device (s.object_type dev) ≡ true
      → resolve s s.root_directory (parts mount_path) (trailing mount_path) ≡ found dir
      → s.mount_point dir ≡ false
      → mount_file_system true mount_path target s ≡ ok (success, mounted dir dev s)
  unfolding mount_file_system
  mount_file_system-mounted mount_path target usable usable_target at_target is_dev at_dir free =
      rw (object_at-found s target dev w root valid_root usable_target at_target, mount_file_system)
        (rw valid_dev (
          rw is_dev (
            rw (object_at-found s mount_path dir w root valid_root usable at_dir)
              (rw valid_dir (rw (unmounted free) refl)))))
    where
      unmounted :
          s.mount_point dir ≡ false
          → (is_directory (s.object_type dir) && s.mount_point dir) ≡ false
      unmounted e = ground (arith, e)

  device_of-mounted :
      (rest : Text)
      → is_directory (s.object_type dir) ≡ true
      → device_of dir rest (mounted dir dev s) ≡ ok (some (dev, rest))
  unfolding device_of
  device_of-mounted rest is_dir =
      let s1 = mounted dir dev s in
      let here : (dir == dir) ≡ true = ground arith in
      let dir_object : is_directory_object dir s1 ≡ ok true = rw valid_dir (rw is_dir refl) in
      let mount : is_mountpoint_object dir s1 ≡ ok true = rw valid_dir (rw is_dir (rw here refl)) in
      rw (dir_object, device_of) (rw mount (rw here refl))

  get_device_object-mounted :
      (path : Text)
      → Usable path
      → is_directory (s.object_type dir) ≡ true
      → LeadsTo s path dir
      → (rest : Text) × (get_device_object true path (mounted dir dev s) ≡ ok (some (dev, rest)))
  unfolding get_device_object
  get_device_object-mounted path (short, has_part) is_dir leads =
      let s1 = mounted dir dev s in
      let looking = lookup_object_by_name true s.global_directory path initial_context none s1 in
      let looked_up : Resolves looking (resolve s1 s.global_directory (parts path) (trailing path))
          s1 =
        lookup_object_by_name-Resolves s1 s.global_directory path initial_context
          (WellFormed-Same s (mounted dir dev s) (mounted-Same dir dev s) w) root global
          valid_global short has_part in
      let same =
        resolve-Same s (mounted dir dev s) (mounted-Same dir dev s) s.global_directory (parts path)
          (trailing path) in
      elim leads [
        | inl e ↦
            let (c, there, at) =
              subst (λ (r : Resolved). Resolves looking r s1) (same ∙ e) looked_up in
            (
              c.parsed_till,
              rw (there, get_device_object) (rw at (device_of-mounted c.parsed_till is_dir)),
            )
        | inr e ↦
            let (c, there, (at, _)) =
              subst (λ (r : Resolved). Resolves looking r s1) (same ∙ e) looked_up in
            (
              c.parsed_till,
              rw (there, get_device_object) (rw at (device_of-mounted c.parsed_till is_dir)),
            )
      ]

-- ObMountFileSystem, in a well-formed name space with valid root and global directories, for a path
-- of the root to a device and a path to a valid directory where nothing is mounted yet, returns
-- STATUS_SUCCESS; ObGetDeviceObject behind it gives the device for every path of the global
-- directory that leads to the directory, or to a last name that the directory lacks.
pub get_device_object-mount_file_system :
    (s : NameSpace) (dir dev : ℕ) (mount_path target path : Text)
    → WellFormed s
    → (s.root_directory == 0) ≡ false
    → (s.global_directory == 0) ≡ false
    → s.valid s.root_directory ≡ true
    → s.valid s.global_directory ≡ true
    → (s.valid dir ≡ true) × (is_directory (s.object_type dir) ≡ true)
    → (s.valid dev ≡ true) × (is_device (s.object_type dev) ≡ true)
    → Usable mount_path × Usable target × Usable path
    → resolve s s.root_directory (parts target) (trailing target) ≡ found dev
    → resolve s s.root_directory (parts mount_path) (trailing mount_path) ≡ found dir
    → s.mount_point dir ≡ false
    → LeadsTo s path dir
    → (s' : NameSpace) × (mount_file_system true mount_path target s ≡ ok (success, s'))
      × (rest : Text) × (get_device_object true path s' ≡ ok (some (dev, rest)))
get_device_object-mount_file_system s dir dev mount_path target path w root global valid_root
      valid_global (valid_dir, is_dir) (valid_dev, is_dev) (usable_mount, usable_target, usable)
      at_target at_dir free leads =
    let (rest, given) =
      get_device_object-mounted s w root global valid_root valid_global dir dev valid_dir valid_dev
        path usable is_dir leads in
    (
      mounted dir dev s,
      mount_file_system-mounted s w root global valid_root valid_global dir dev valid_dir valid_dev
          mount_path target usable_mount usable_target at_target is_dev at_dir free,
      rest,
      given,
    )
