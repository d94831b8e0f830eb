-- ===== src/Ob/Create/Named.antt =====
-- ObCreateObject of a new object with a name.
use kaush_os.Base.{
  ℕ, ◌≤◌, ◌<◌, ◌≡◌, ◌≢◌, refl, sym, ap, ◌∙◌, subst, true, false, none, some, List, [], ◌∷◌, ◌==◌,
  ◌!=◌, List-cases, inl, inr, arith, leb, ltb,
}
use kaush_os.Base.Outcome.{ok, assert-pass}
use kaush_os.Strings.{Text}
use kaush_os.Ob.Object.{Header, Objects, set_header}
use kaush_os.Ob.Names.{Name, Context, initial_context, success, lookup_object_by_name}
use kaush_os.Ob.Names.Parts.{parts, trailing, Short}
use kaush_os.Ob.Names.Resolve.{Resolved, no_name, resolve, WellFormed, Resolves}
use kaush_os.Ob.Names.Lookup.{lookup_object_by_name-Resolves}
use kaush_os.Ob.Names.Insert.{Fresh}
use kaush_os.Ob.Create.{
  has_bit, Manager, Supply, initialize_object_attributes, name_space, are_valid_attributes,
  lookup_in, search_name, search_attributes, place, blank, new_header, enlist, insert_new, open_new,
  make_object, create_object,
}
use kaush_os.Ob.Create.Space.{
  Others, named_space, NewName, insert_under_name, named_space-WellFormed, found_by_name,
}

-- What a creation leaves: the new object, of its type and with its attributes, is there and is found
-- by its name, and no other header has changed.
abbrev pub Created : Manager → ℕ → ℕ → ℕ → Name → Manager → Type 0
Created m o t bits name m' =
    let s = name_space m' in
    (m'.objects.header o ≡ record {
      ref_count = 1;
      open_handle_count = 0;
      permanent = has_bit bits 4;
      inherit = has_bit bits 1;
      named = true;
      object_type = t;
      valid = true;
    })
    × ((q : ℕ) → (q == o) ≡ false → m'.objects.header q ≡ m.objects.header q)
    × (m'.objects.current_irql ≡ m.objects.current_irql)
    × (m' ≡ record m { objects = m'.objects; names = m'.names; type_list = m'.type_list })
    × (m'.names.root_directory ≡ m.names.root_directory)
    × (m'.type_list t ≡ o ∷ m.type_list t)
    × WellFormed s
    × (c : Context) × (lookup_object_by_name true m.names.root_directory name.buffer initial_context
          none s
        ≡ ok (success, c, s))
    × (c.object ≡ o)

module _ (m : Manager) (o d : ℕ) (name : Name) (p : Text) (ps : List Text)
    (n : NewName m o d name p ps) where
  -- The headers with the blank one, and with the one that is left in the end.
  abbrev blanked : Objects
  blanked = set_header o blank m.objects

  abbrev headed : ℕ → ℕ → Objects
  headed t bits = set_header o (new_header t bits true) blanked

  headed-header : (t bits : ℕ) → (headed t bits).header o ≡ new_header t bits true
  headed-header t bits = let here : (o == o) ≡ true = ground arith in rw here refl

  abbrev created : ℕ → ℕ → Manager
  created t bits =
      enlist t o (record m { objects = headed t bits; names = named_space o d p ps blanked m })

  search_name-place :
      (variable bits : ℕ)
      → (c : Context) × (search_name true variable
            (initialize_object_attributes (some name) bits 0)
            (some name)
            m
          ≡ ok (place (some (m.names.root_directory, name, c)) (record m { names = name_space m })))
  unfolding search_name lookup_in
  search_name-place variable bits =
      let walk : resolve (name_space m) m.names.root_directory (parts name.buffer)
            (trailing name.buffer)
          ≡ no_name d =
        rw (n.whole, n.unclosed) n.lacks in
      let (c, e, _) =
        subst
          (λ (r : Resolved).
            Resolves
              (lookup_object_by_name true m.names.root_directory name.buffer initial_context none
                (name_space m))
              r (name_space m))
          walk
          (lookup_object_by_name-Resolves (name_space m) m.names.root_directory name.buffer
            initial_context n.well_formed n.root n.root n.valid_root n.short (λ h. cc)) in
      let rooted : (m.names.root_directory != 0) ≡ true = ground (arith, n.root) in
      (c, rw (rooted, search_name) (rw e refl))

  make_object-created :
      (supply : Supply) (t bits : ℕ) (c : Context)
      → supply.second_buffer ≡ true
      → name.size ≤ 1024
      → make_object supply none t bits
          (some o)
          (some (m.names.root_directory, name, c))
          (record m { names = name_space m })
        ≡ ok (success, o, created t bits)
  unfolding make_object insert_new lookup_in open_new
  make_object-created supply t bits c buffer fits =
      let fits_path : leb name.size 1024 ≡ true = ground (arith, fits) in
      let here : (o == o) ≡ true = ground arith in
      let (c1, e) =
        insert_under_name m o d name p ps n blanked c (λ q h. rw h refl) (rw here refl) in
      rw (fits_path, make_object) (rw (buffer) (rw e (rw here refl)))

  search_attributes-place :
      (variable bits : ℕ)
      → are_valid_attributes bits ≡ true
      → (c : Context) × (search_attributes true variable
            (some (initialize_object_attributes (some name) bits 0))
            m
          ≡ ok (place (some (m.names.root_directory, name, c)) (record m { names = name_space m })))
  unfolding search_attributes
  search_attributes-place variable bits valid =
      let (c, e) = search_name-place variable bits in (c, rw (valid, search_attributes) e)

  created-Created : (t bits : ℕ) → Created m o t bits name (created t bits)
  created-Created t bits =
      let others : Others o m.objects (headed t bits) = λ q h. rw h refl in
      let same_type : (t == t) ≡ true = ground arith in
      let valid = ap (λ (h : Header). h.valid) (headed-header t bits) in
      let (c, e, there) = found_by_name m o d name p ps n (headed t bits) others valid in
      (
        headed-header t bits,
        others,
        refl,
        refl,
        refl,
        rw same_type refl,
        named_space-WellFormed m o d name p ps n (headed t bits) others valid,
        c,
        e,
        there,
      )

-- Memory for everything, with the new object at an address.
abbrev pub plenty : ℕ → Supply
plenty o = record { first_buffer = true; second_buffer = true; memory = some o }

-- ObCreateObject, in a well-formed name space with a valid root directory, for a registered type
-- without an OpenProcedure, a size above 0, a variable for the object, valid attributes, and a fully
-- qualified name of at most 1024 characters that ends in no separator, whose parts fit into a name,
-- and of which the name space lacks just the last part: with memory for an object that no directory
-- holds and that is not the root directory, it returns STATUS_SUCCESS and that object, with one
-- reference, no handle, and its type and attributes; no other header has changed, the object is the
-- first in the list of its type, a lookup of the name finds it, and the name space is well-formed
-- again.
pub create_object-Created :
    (m : Manager) (o d t size variable bits : ℕ) (name : Name)
    → WellFormed (name_space m)
    → (m.names.root_directory == 0) ≡ false
    → (m.objects.header m.names.root_directory).valid ≡ true
    → Short (parts name.buffer)
    → parts name.buffer ≢ []
    → trailing name.buffer ≡ false
    → resolve (name_space m) m.names.root_directory (parts name.buffer) false ≡ no_name d
    → Fresh o (name_space m)
    → (m.names.root_directory == o) ≡ false
    → name.size ≤ 1024
    → are_valid_attributes bits ≡ true
    → ((t == 0) ≡ false) × (m.is_type t ≡ true)
    → (0 < size) × ((variable == 0) ≡ false)
    → (m' : Manager) × (create_object
          (plenty o)
          none
          t
          (some (initialize_object_attributes (some name) bits 0))
          size
          variable
          m
        ≡ ok (success, o, m'))
      × Created m o t bits name m'
unfolding create_object
create_object-Created m o d t size variable bits name w root valid_root short has_part unclosed
      lacks fresh away fits valid_bits (typed, listed) (sized, given) =
    elim (List-cases (parts name.buffer)) [
      | inl empty ↦ absurd (has_part empty)
      | inr (p, ps, whole) ↦
          let lacks1 : resolve (name_space m) m.names.root_directory (p ∷ ps) false ≡ no_name d =
            ap (λ (qs : List Text). resolve (name_space m) m.names.root_directory qs false)
              (sym whole)
            ∙ lacks in
          let new_name : NewName m o d name p ps = record {
            well_formed = w;
            root = root;
            valid_root = valid_root;
            short = short;
            whole = whole;
            unclosed = unclosed;
            fresh = fresh;
            away = away;
            lacks = lacks1;
          } in
          let (c, e) = search_attributes-place m o d name p ps new_name variable bits valid_bits in
          (
            created m o d name p ps new_name t bits,
            assert-pass {b = variable != 0} _ (ground (arith, given))
                ∙ assert-pass {b = ltb 0 size} _ (ground (arith, sized))
                ∙ assert-pass {b = t != 0} _ (ground (arith, typed))
                ∙ assert-pass {b = m.is_type t} _ listed
                ∙ rw e (make_object-created m o d name p ps new_name (plenty o) t bits c refl fits),
            created-Created m o d name p ps new_name t bits,
          )
    ]
