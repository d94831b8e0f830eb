-- ===== src/Ob/Names/Examples.antt =====
-- A root directory, object 1, with the global directory, object 2, which has a link, object 3, to a
-- device, object 4. Object 5 is in no directory.
use kaush_os.Base.{
  ℕ, ◌≡◌, ◌||◌, refl, true, false, none, some, List, [], ◌∷◌, ◌==◌, if◌then◌else◌, arith, inr,
}
use kaush_os.Base.Outcome.{ok}
use kaush_os.Strings.{Text, strlen, strncmp}
use kaush_os.Ob.Names.{
  NameSpace, ObjectType, directory, symbolic_link, device, other, Context, success, name_not_found,
  initial_context, lookup_object_by_name, lookup_from, lookup_entry_directory, lookup_missing,
  find_entry, compare_unicode_string, parse_directory_path, skip_separators, take_name,
}
use kaush_os.Ob.Names.Parts.{parts, parts_from, trailing, name_of}
use kaush_os.Ob.Names.Resolve.{WellFormed, Resolves, resolve, named}
use kaush_os.Ob.Names.Lookup.{lookup_object_by_name-Resolves}
use kaush_os.Ob.Names.Reopen.{Reopened, lookup_object_by_name-Reopened}
use kaush_os.Ob.Names.Devices.{get_device_object, mount_file_system, get_device_object-link}
use kaush_os.Ob.Names.Mount.{get_device_object-mount_file_system}

abbrev type_of : ℕ → ObjectType
type_of o =
    if o == 3 then symbolic_link else if o == 4 then device else if o == 5 then other else directory

abbrev name_text : ℕ → Text
name_text o = if o == 2 then b'G' ∷ [] else if o == 3 then b'C' ∷ [] else []

abbrev entries_of : ℕ → List ℕ
entries_of d = if d == 1 then 2 ∷ [] else if d == 2 then 3 ∷ [] else []

abbrev names : NameSpace
names = record {
  root_directory = 1;
  global_directory = 2;
  valid = λ o. true;
  object_type = type_of;
  object_name = λ o. name_of (name_text o);
  children = entries_of;
  linked = λ o. o == 2 || o == 3;
  mount_point = λ o. false;
  device_object = λ o. 0;
  link_target = λ o. if o == 3 then 4 else 0;
}

-- The device as an entry of the root directory too.
abbrev with_device : NameSpace
with_device = record names {
  children = λ d. if d == 1 then 2 ∷ 4 ∷ [] else entries_of d;
  object_name = λ o. if o == 4 then name_of (b'D' ∷ []) else name_of (name_text o);
}

with_device-WellFormed : WellFormed with_device
with_device-WellFormed = record {
  entries = λ d o h. refl;
  names = λ o. ground arith;
  texts = λ o. ground arith;
}

names-WellFormed : WellFormed names
names-WellFormed = record { entries = λ d o h. refl; names = λ o. refl; texts = λ o. ground arith }

-- "\G\C".
abbrev link_path : Text
link_path = b'\\' ∷ b'G' ∷ b'\\' ∷ b'C' ∷ []

lookup_object_by_name-Resolves_example :
    Resolves
      (lookup_object_by_name true 1 link_path initial_context none names)
      (resolve names 1 (parts link_path) (trailing link_path))
      names
unfolding parts_from strlen
lookup_object_by_name-Resolves_example =
    lookup_object_by_name-Resolves names 1 link_path initial_context names-WellFormed refl refl refl
      (omega arith) (λ e. cc)

-- "\G\D".
abbrev new_path : Text
new_path = b'\\' ∷ b'G' ∷ b'\\' ∷ b'D' ∷ []

abbrev missing_context : Context
missing_context = record {
  found_in = 2;
  object = 0;
  last_mount_point = 0;
  parsed_till = b'\\' ∷ b'D' ∷ [];
}

lacks_D :
    lookup_object_by_name true 1 new_path initial_context none names
    ≡ ok (name_not_found, missing_context, names)
unfolding lookup_object_by_name lookup_from lookup_entry_directory lookup_missing find_entry
    compare_unicode_string parse_directory_path skip_separators take_name strlen strncmp
lacks_D = refl

lookup_object_by_name-Reopened_example : Reopened 1 5 new_path initial_context names
unfolding parts_from strlen
lookup_object_by_name-Reopened_example =
    lookup_object_by_name-Reopened names 1 5 new_path initial_context missing_context names
      names-WellFormed refl refl refl (omega arith) (λ e. cc) refl lacks_D (λ d. ground arith) refl
      refl

get_device_object-link_example :
    get_device_object true (b'C' ∷ b'/' ∷ b'f' ∷ []) names ≡ ok (some (4, b'/' ∷ b'f' ∷ []))
unfolding parse_directory_path skip_separators take_name strlen named
get_device_object-link_example =
    get_device_object-link names names-WellFormed (b'C' ∷ []) 3 refl refl refl refl (omega arith)
      refl refl refl refl (b'C' ∷ b'/' ∷ b'f' ∷ []) (b'/' ∷ b'f' ∷ []) refl

-- The device is mounted on the global directory by its path "\G"; "x" is not in that directory.
get_device_object-mount_file_system_example :
    (s' : NameSpace) × (mount_file_system true (b'\\' ∷ b'G' ∷ []) (b'\\' ∷ b'D' ∷ []) with_device
      ≡ ok (success, s'))
    × (rest : Text) × (get_device_object true (b'x' ∷ []) s' ≡ ok (some (4, rest)))
unfolding parts_from strlen resolve named
get_device_object-mount_file_system_example =
    get_device_object-mount_file_system with_device 2 4 (b'\\' ∷ b'G' ∷ []) (b'\\' ∷ b'D' ∷ [])
      (b'x' ∷ []) with_device-WellFormed refl refl refl refl (refl, refl) (refl, refl)
      ((omega arith, λ e. cc), (omega arith, λ e. cc), (omega arith, λ e. cc)) refl refl refl
      (inr refl)
