-- ===== src/Ob/Create/Existing.antt =====
-- ObCreateObject for a name that is taken, or whose path does not exist.
use kaush_os.Base.{
  ℕ, ◌<◌, ◌≡◌, ◌≢◌, refl, ◌∙◌, subst, true, false, Bool-cases, inl, inr, none, some, [], ◌==◌, ◌!=◌,
  ltb, arith,
}
use kaush_os.Base.Outcome.{ok, bug_check, assert-pass}
use kaush_os.Ob.Object.{Objects, reference_object}
use kaush_os.Ob.Names.{
  Name, KStatus, name_collision, name_not_found, path_not_found, initial_context,
  lookup_object_by_name,
}
use kaush_os.Ob.Names.Parts.{parts, trailing, Short}
use kaush_os.Ob.Names.Resolve.{Resolved, found, no_name, no_path, resolve, WellFormed, Resolves}
use kaush_os.Ob.Names.Lookup.{lookup_object_by_name-Resolves}
use kaush_os.Ob.Create.{
  Manager, Supply, initialize_object_attributes, name_space, are_valid_attributes, has_bit,
  lookup_in, existing, answer, search_name, search_attributes, create_object,
}

-- The answer to a caller that asks for a new object.
abbrev pub refusal : Resolved → KStatus
refusal (found x) = name_collision
refusal (no_name d) = name_not_found
refusal no_path = path_not_found

no_object-bug_check :
    (v : ℕ) (s : Objects) → (s.header v).valid ≡ false → reference_object v s ≡ bug_check
unfolding reference_object
no_object-bug_check v s e = ground (arith, e)

module _ (m : Manager) (name : Name) (w : WellFormed (name_space m))
    (root : (m.names.root_directory == 0) ≡ false)
    (valid_root : (m.objects.header m.names.root_directory).valid ≡ true)
    (short : Short (parts name.buffer)) (has_part : parts name.buffer ≢ []) where
  -- The lookup of the name, for what the walk comes to.
  walked :
      (r : Resolved)
      → resolve (name_space m) m.names.root_directory (parts name.buffer) (trailing name.buffer) ≡ r
      → Resolves
          (lookup_object_by_name true m.names.root_directory name.buffer initial_context none
            (name_space m))
          r
          (name_space m)
  walked r e =
      subst
        (λ (q : Resolved).
          Resolves
            (lookup_object_by_name true m.names.root_directory name.buffer initial_context none
              (name_space m))
            q (name_space m))
        e
        (lookup_object_by_name-Resolves (name_space m) m.names.root_directory name.buffer
          initial_context w root root valid_root short has_part)

  search_name-refusal :
      (r : Resolved) (supply : Supply) (variable bits : ℕ)
      → resolve (name_space m) m.names.root_directory (parts name.buffer) (trailing name.buffer) ≡ r
      → supply.first_buffer ≡ true
      → has_bit bits 7 ≡ false
      → ((d : ℕ) → r ≢ no_name d)
      → search_name supply.first_buffer variable
          (initialize_object_attributes (some name) bits 0)
          (some name)
          m
        ≡ ok (answer (refusal r) 0 (record m { names = name_space m }))
  unfolding search_name lookup_in existing
  search_name-refusal (found x) supply variable bits e buffer no_open some_path =
      let (c, there, _) = walked (found x) e in
      let rooted : (m.names.root_directory != 0) ≡ true = ground (arith, root) in
      rw (buffer) (rw (rooted, search_name) (rw there (rw (no_open, existing) refl)))
  search_name-refusal (no_name d) supply variable bits e buffer no_open some_path =
      absurd (some_path d refl)
  search_name-refusal no_path supply variable bits e buffer no_open some_path =
      let (c, there, _) = walked no_path e in
      let rooted : (m.names.root_directory != 0) ≡ true = ground (arith, root) in
      rw (buffer) (rw (rooted, search_name) (rw there refl))

  search_name_open :
      (x : ℕ) (supply : Supply) (variable bits : ℕ)
      → resolve (name_space m) m.names.root_directory (parts name.buffer) (trailing name.buffer)
        ≡ found x
      → supply.first_buffer ≡ true
      → has_bit bits 7 ≡ true
      → (m.objects.header variable).valid ≡ false
      → search_name supply.first_buffer variable
          (initialize_object_attributes (some name) bits 0)
          (some name)
          m
        ≡ bug_check
  unfolding search_name lookup_in existing
  search_name_open x supply variable bits e buffer opens no_object =
      let (c, there, at) = walked (found x) e in
      let rooted : (m.names.root_directory != 0) ≡ true = ground (arith, root) in
      rw (buffer) (
        rw (rooted, search_name)
          (rw there (
            rw (opens, existing)
              (elim (Bool-cases (m.objects.header c.object).valid) [
                | inl valid ↦ rw valid (rw (no_object-bug_check variable m.objects no_object) refl)
                | inr wrong ↦ rw wrong refl
              ]))))

  -- ObCreateObject gives what the search for the name answers.
  create_object-answer :
      (supply : Supply) (t size variable bits : ℕ) (status : KStatus) (o : ℕ) (m1 : Manager)
      → are_valid_attributes bits ≡ true
      → ((t == 0) ≡ false) × (m.is_type t ≡ true)
      → (0 < size) × ((variable == 0) ≡ false)
      → search_name supply.first_buffer variable
          (initialize_object_attributes (some name) bits 0)
          (some name)
          m
        ≡ ok (answer status o m1)
      → create_object supply none t
          (some (initialize_object_attributes (some name) bits 0))
          size
          variable
          m
        ≡ ok (status, o, m1)
  unfolding create_object search_attributes
  create_object-answer supply t size variable bits status o m1 valid_bits (typed, listed)
        (sized, given) e =
      assert-pass {b = variable != 0} _ (ground (arith, given))
      ∙ assert-pass {b = ltb 0 size} _ (ground (arith, sized))
      ∙ assert-pass {b = t != 0} _ (ground (arith, typed))
      ∙ assert-pass {b = m.is_type t} _ listed
      ∙ rw valid_bits (rw e refl)

  -- ObCreateObject without OBJ_OPENIF, in a well-formed name space with a valid root directory, for a
  -- registered type, a size above 0, a variable for the object, valid attributes, and a fully
  -- qualified name that has a part and whose parts fit into a name, with a buffer for it: where the
  -- name is taken it returns STATUS_OBJECT_NAME_COLLISION, where its path does not exist
  -- STATUS_OBJECT_PATH_NOT_FOUND, and nothing has changed.
  pub create_object-refused :
      (r : Resolved) (supply : Supply) (t size variable bits : ℕ)
      → resolve (name_space m) m.names.root_directory (parts name.buffer) (trailing name.buffer) ≡ r
      → ((d : ℕ) → r ≢ no_name d)
      → supply.first_buffer ≡ true
      → has_bit bits 7 ≡ false
      → are_valid_attributes bits ≡ true
      → ((t == 0) ≡ false) × (m.is_type t ≡ true)
      → (0 < size) × ((variable == 0) ≡ false)
      → create_object supply none t
          (some (initialize_object_attributes (some name) bits 0))
          size
          variable
          m
        ≡ ok (refusal r, 0, record m { names = name_space m })
  create_object-refused r supply t size variable bits e some_path buffer no_open valid_bits typed
        sized =
      create_object-answer supply t size variable bits (refusal r) 0
        (record m { names = name_space m }) valid_bits typed sized
        (search_name-refusal r supply variable bits e buffer no_open some_path)

  -- ObCreateObject with OBJ_OPENIF, under the conditions of create_object-refused on its arguments
  -- and the name space, for a name that is taken: unless an object happens to lie at the caller's
  -- variable for the object, it bug checks, since ObReferenceObject is called on that variable.
  pub create_object-bug_check :
      (x : ℕ) (supply : Supply) (t size variable bits : ℕ)
      → resolve (name_space m) m.names.root_directory (parts name.buffer) (trailing name.buffer)
        ≡ found x
      → supply.first_buffer ≡ true
      → has_bit bits 7 ≡ true
      → are_valid_attributes bits ≡ true
      → ((t == 0) ≡ false) × (m.is_type t ≡ true)
      → (0 < size) × ((variable == 0) ≡ false)
      → (m.objects.header variable).valid ≡ false
      → create_object supply none t
          (some (initialize_object_attributes (some name) bits 0))
          size
          variable
          m
        ≡ bug_check
  unfolding create_object search_attributes
  create_object-bug_check x supply t size variable bits e buffer opens valid_bits (typed, listed)
        (sized, given) no_object =
      assert-pass {b = variable != 0} _ (ground (arith, given))
      ∙ assert-pass {b = ltb 0 size} _ (ground (arith, sized))
      ∙ assert-pass {b = t != 0} _ (ground (arith, typed))
      ∙ assert-pass {b = m.is_type t} _ listed
      ∙ rw valid_bits (rw (search_name_open x supply variable bits e buffer opens no_object) refl)
