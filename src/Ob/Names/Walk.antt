-- ===== src/Ob/Names/Walk.antt =====
-- One round of the loop of ObpLookupObjectByName, case by case.
use kaush_os.Base.{ℕ, suc, ◌≡◌, refl, Bool, true, false, ◌&&◌, Option, none, some, [], ◌∷◌}
use kaush_os.Base.Outcome.{ok}
use kaush_os.Strings.{Text}
use kaush_os.Ob.Names.{
  Name, NameSpace, Context, KStatus, success, path_not_found, is_directory, parse_directory_path,
  find_entry, entered, lookup_entry_directory, lookup_missing, lookup_from,
}

-- The context of a round.
abbrev pub at_path : Text → Context → Context
at_path path c = record c { parsed_till = path }

abbrev pub is_mount : ℕ → NameSpace → Bool
is_mount o s = is_directory (s.object_type o) && s.mount_point o

module _ (fuel : ℕ) (insert : Option ℕ) (dir : ℕ) (path : Text) (status : KStatus) (c : Context)
    (s : NameSpace) (valid : s.valid dir ≡ true) where
  pub lookup_from_file :
      is_directory (s.object_type dir) ≡ false
      → lookup_from (suc fuel) insert dir path status c s
        ≡ ok (path_not_found, record (at_path path c) { found_in = dir; object = 0 }, s)
  unfolding lookup_from
  lookup_from_file file = rw (valid, lookup_from) (rw file refl)

  module _ (is_dir : is_directory (s.object_type dir) ≡ true) where
    pub lookup_from_end :
        parse_directory_path path ≡ ok none
        → lookup_from (suc fuel) insert dir path status c s ≡ ok (status, at_path path c, s)
    unfolding lookup_from
    lookup_from_end e = rw (valid, lookup_from) (rw is_dir (rw e refl))

    module _ (name : Name) (rest : Text)
        (e : parse_directory_path path ≡ ok (some (name, rest))) where
      pub lookup_from_missing :
          find_entry (s.children dir) name s ≡ none
          → lookup_from (suc fuel) insert dir path status c s
            ≡ lookup_missing insert dir name rest (at_path path c) s
      unfolding lookup_from lookup_entry_directory
      lookup_from_missing f =
          rw (valid, lookup_from) (rw is_dir (rw e (rw (f, lookup_entry_directory) refl)))

    module _ (name : Name) (o : ℕ) (f : find_entry (s.children dir) name s ≡ some o)
        (valid_o : s.valid o ≡ true) where
      abbrev next_context : Context
      next_context = entered dir (at_path path c) o (is_mount o s)

      found_entry : lookup_entry_directory dir name (at_path path c) s ≡ ok (success, next_context)
      unfolding lookup_entry_directory
      found_entry = rw (f, lookup_entry_directory) (rw valid_o refl)

      pub lookup_from_last :
          parse_directory_path path ≡ ok (some (name, []))
          → lookup_from (suc fuel) insert dir path status c s ≡ ok (success, next_context, s)
      unfolding lookup_from
      lookup_from_last e = rw (valid, lookup_from) (rw is_dir (rw e (rw found_entry refl)))

      pub lookup_from_next :
          (x : ℕ) (xs : Text)
          → parse_directory_path path ≡ ok (some (name, x ∷ xs))
          → lookup_from (suc fuel) insert dir path status c s
            ≡ lookup_from fuel insert next_context.object (x ∷ xs) success next_context s
      unfolding lookup_from
      lookup_from_next x xs e = rw (valid, lookup_from) (rw is_dir (rw e (rw found_entry refl)))

pub entered-object :
    (dir : ℕ) (c : Context) (o : ℕ) (mount : Bool) → (entered dir c o mount).object ≡ o
entered-object dir c o true = refl
entered-object dir c o false = refl
