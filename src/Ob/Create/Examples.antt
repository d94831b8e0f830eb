-- ===== src/Ob/Create/Examples.antt =====
-- A manager without objects, whose types stand at the addresses 100, 104 and 108, and one with a root
-- directory, object 16.
use kaush_os.Base.{
  if◌then◌else◌, ◌||◌, refl, none, [], arith, ℕ, ◌+◌, ◌*◌, ◌≡◌, true, false, some, List, ◌∷◌, ◌==◌,
}
use kaush_os.Base.Outcome.{bug_check, Outcome, ok}
use kaush_os.Ob.Handle.{reference_object_by_handle, lookup_object_by_handle}
use kaush_os.Ob.Names.Parts.{parts_from, name_of}
use kaush_os.Ob.Names.Resolve.{WellFormed, resolve, named, found}
use kaush_os.Ob.Create.Named.{Created, plenty, create_object-Created}
use kaush_os.Ob.Create.Existing.{create_object-refused, create_object-bug_check}
use kaush_os.Ob.Create.Links.{Linked, create_symbolic_link-Linked}
use kaush_os.Ob.Object.{reference_object_by_pointer, Header}
use kaush_os.Strings.{strlen, strncmp}
use kaush_os.Ob.Names.{
  Name, success, name_collision, compare_unicode_string, find_entry, insert_entry_directory,
  lookup_entry_directory, lookup_from, lookup_missing, lookup_object_by_name, parse_directory_path,
  skip_separators, take_name, other,
}
use kaush_os.Ob.Create.{
  initialize_object_attributes, name_space, create_object, search_attributes, search_name,
  make_object, insert_new, open_new, lookup_in, Manager, Supply, blank,
}
use kaush_os.Ob.Create.Directories.{
  create_symbolic_link, ob_init, init_step, create_directory_object, directory_attributes,
  init_directory, name_root, hand_out,
}

abbrev unused : Header
unused = record blank { valid = false }

abbrev no_objects : Manager
no_objects = record {
  objects = record { current_irql = 0; header = λ o. unused };
  names = record {
    root_directory = 0;
    global_directory = 0;
    valid = λ o. false;
    object_type = λ o. other;
    object_name = λ o. record { size = 0; buffer = [] };
    children = λ o. [];
    linked = λ o. false;
    mount_point = λ o. false;
    device_object = λ o. 0;
    link_target = λ o. 0;
  };
  handle_table = λ h. 0;
  type_list = λ t. [];
  is_type = λ t. t == 100 || t == 104 || t == 108;
  directory_type = 100;
  link_type = 104;
  device_type = 108;
}

abbrev memory_for : ℕ → Supply
memory_for k = record { first_buffer = true; second_buffer = true; memory = some (16 + 16 * k) }

-- The entries of the root directory, and what the type's list holds.
abbrev entries : Outcome Manager → List ℕ × List ℕ
entries (ok m) = (m.names.children m.names.root_directory, m.type_list 100)
entries x = ([], [])

started : entries (ob_init memory_for 4 0 no_objects) ≡ (32 ∷ 48 ∷ 64 ∷ [], 64 ∷ 48 ∷ 32 ∷ 16 ∷ [])
unfolding create_object search_attributes search_name make_object insert_new open_new lookup_in
    ob_init init_step create_directory_object directory_attributes init_directory name_root hand_out
    compare_unicode_string find_entry insert_entry_directory lookup_entry_directory lookup_from
    lookup_missing lookup_object_by_name parse_directory_path skip_separators take_name strlen
    strncmp
started = refl

-- A DirHandle that is not 0 is looked up in the table of handles.
bad_handle : ob_init memory_for 4 5 no_objects ≡ bug_check
unfolding create_object search_attributes search_name make_object insert_new open_new lookup_in
    ob_init init_step create_directory_object directory_attributes init_directory name_root hand_out
    compare_unicode_string find_entry insert_entry_directory lookup_entry_directory lookup_from
    lookup_missing lookup_object_by_name parse_directory_path skip_separators take_name strlen
    strncmp reference_object_by_handle lookup_object_by_handle reference_object_by_pointer
bad_handle = refl

abbrev type_address : ℕ → ℕ
type_address o = if o == 16 then 100 else if o == 32 then 108 else 0

-- A root directory, object 16, with a device "D", object 32.
abbrev booted : Manager
booted = record no_objects {
  objects = record {
    current_irql = 0;
    header = λ o. record blank {
      object_type = type_address o;
      ref_count = 1;
      valid = o == 16 || o == 32;
    };
  };
  names = record no_objects.names {
    root_directory = 16;
    object_name = λ o. if o == 32 then name_of (b'D' ∷ []) else name_of [];
    children = λ o. if o == 16 then 32 ∷ [] else [];
    linked = λ o. o == 32;
  };
}

booted-WellFormed : WellFormed (name_space booted)
unfolding strlen
booted-WellFormed = record {
  entries = λ d o h. ground (arith, h);
  names = λ o. ground arith;
  texts = λ o. ground arith;
}

abbrev link_name : Name
link_name = name_of (b'\\' ∷ b'L' ∷ [])

abbrev device_name : Name
device_name = name_of (b'/' ∷ b'D' ∷ [])

create_object-Created_example :
    (m' : Manager) × (create_object
        (plenty 48)
        none
        100
        (some (initialize_object_attributes (some link_name) 528 0))
        28
        4
        booted
      ≡ ok (success, 48, m'))
    × Created booted 48 100 528 link_name m'
unfolding parts_from strlen resolve named
create_object-Created_example =
    create_object-Created booted 48 16 100 28 4 528 link_name booted-WellFormed refl refl
      (omega arith) (λ e. cc) refl refl (λ d. ground arith) refl (omega arith) refl (refl, refl)
      (omega arith, refl)

create_object-refused_example :
    create_object
      (plenty 48)
      none
      100
      (some (initialize_object_attributes (some device_name) 528 0))
      28
      4
      booted
    ≡ ok (name_collision, 0, record booted { names = name_space booted })
unfolding parts_from strlen resolve named
create_object-refused_example =
    create_object-refused booted device_name booted-WellFormed refl refl (omega arith) (λ e. cc)
      (found 32) (plenty 48) 100 28 4 528 refl (λ d e. cc) refl refl refl (refl, refl)
      (omega arith, refl)

create_object-bug_check_example :
    create_object
      (plenty 48)
      none
      100
      (some (initialize_object_attributes (some device_name) 128 0))
      28
      4
      booted
    ≡ bug_check
unfolding parts_from strlen resolve named
create_object-bug_check_example =
    create_object-bug_check booted device_name booted-WellFormed refl refl (omega arith) (λ e. cc)
      32 (plenty 48) 100 28 4 128 refl refl refl refl (refl, refl) (omega arith, refl) refl

create_symbolic_link-Linked_example :
    (m' : Manager) × (create_symbolic_link (plenty 48) true 4 link_name device_name booted
      ≡ ok (success, m'))
    × Linked booted 48 32 link_name m'
unfolding parts_from strlen resolve named
create_symbolic_link-Linked_example =
    create_symbolic_link-Linked booted 48 16 32 4 link_name device_name booted-WellFormed refl refl
      (omega arith) (λ e. cc) refl refl (λ d. ground arith) refl (omega arith) (refl, refl) refl
      refl (omega arith, λ e. cc) refl refl (omega arith, refl, refl)
