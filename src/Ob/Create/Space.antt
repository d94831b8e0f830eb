-- ===== src/Ob/Create/Space.antt =====
-- The name space while ObCreateObject puts a new object into it.
use kaush_os.Base.{
  ℕ, suc, ◌≡◌, refl, ap, ◌∙◌, subst, true, false, none, some, List, ◌∷◌, ◌==◌, ◌!=◌, arith,
}
use kaush_os.Base.Outcome.{ok, assert-pass}
use kaush_os.Strings.{Text, strlen}
use kaush_os.Ob.Object.{Header, Objects}
use kaush_os.Ob.Names.{Name, NameSpace, Context, initial_context, success, lookup_object_by_name}
use kaush_os.Ob.Names.Parts.{parts, trailing, Short, name_of}
use kaush_os.Ob.Names.Resolve.{Resolved, found, no_name, resolve, WellFormed, Resolves}
use kaush_os.Ob.Names.Lookup.{lookup_object_by_name-Resolves}
use kaush_os.Ob.Names.Insert.{Fresh, inserted, last_name, resolve-inserted}
use kaush_os.Ob.Names.RoundTrip.{lookup_from-Inserts}
use kaush_os.Ob.Names.Reopen.{inserted-WellFormed, last_name-IsText}
use kaush_os.Ob.Names.Away.{Alike, resolve-Alike, WellFormed-Alike, Fresh-Alike}
use kaush_os.Ob.Create.{Manager, type_kind, name_space, cleared}

-- The name space with cleared memory for an object, and other headers.
abbrev pub space : ℕ → Objects → Manager → NameSpace
space o objects m = name_space (record m { objects = objects; names = cleared o (name_space m) })

-- The headers of all other objects are as they were.
abbrev pub Others : ℕ → Objects → Objects → Type 0
Others o s s' = (p : ℕ) → (p == o) ≡ false → s'.header p ≡ s.header p

pub space-Alike :
    (o : ℕ) (objects : Objects) (m : Manager)
    → Fresh o (name_space m)
    → Others o m.objects objects
    → (objects.header o).valid ≡ true
    → Alike o (name_space m) (space o objects m)
unfolding strlen
space-Alike o objects m fresh others valid =
    let here : (o == o) ≡ true = ground arith in
    record {
      fresh = fresh;
      same_children = λ p e. rw e refl;
      same_type = λ p e. ap (λ (h : Header). type_kind h.object_type m) (others p e);
      same_name = λ p e. rw e refl;
      same_valid = λ p e. ap (λ (h : Header). h.valid) (others p e);
      no_children = rw here refl;
      no_name = rw here refl;
      is_valid = valid;
    }

-- The name space with the object under its name.
abbrev pub named_space : ℕ → ℕ → Text → List Text → Objects → Manager → NameSpace
named_space o d p ps objects m = inserted d o (name_of (last_name p ps)) (space o objects m)

-- A name for a new object, fully qualified, of which the name space lacks just the last part.
pub record NewName (m : Manager) (o d : ℕ) (name : Name) (p : Text) (ps : List Text) : Type 0 where
  pub well_formed : WellFormed (name_space m)
  pub root : (m.names.root_directory == 0) ≡ false
  pub valid_root : (m.objects.header m.names.root_directory).valid ≡ true
  pub short : Short (parts name.buffer)
  pub whole : parts name.buffer ≡ p ∷ ps
  pub unclosed : trailing name.buffer ≡ false
  pub fresh : Fresh o (name_space m)
  pub away : (m.names.root_directory == o) ≡ false
  pub lacks : resolve (name_space m) m.names.root_directory (p ∷ ps) false ≡ no_name d

module _ (m : Manager) (o d : ℕ) (name : Name) (p : Text) (ps : List Text)
    (n : NewName m o d name p ps) where
  lacks_still :
      (objects : Objects)
      → Others o m.objects objects
      → (objects.header o).valid ≡ true
      → resolve (space o objects m) m.names.root_directory (p ∷ ps) false ≡ no_name d
  lacks_still objects others valid =
      resolve-Alike o (name_space m) (space o objects m)
        (space-Alike o objects m n.fresh others valid) m.names.root_directory (p ∷ ps) false n.away
      ∙ n.lacks

  space-WellFormed :
      (objects : Objects)
      → Others o m.objects objects
      → (objects.header o).valid ≡ true
      → WellFormed (space o objects m)
  space-WellFormed objects others valid =
      WellFormed-Alike o (name_space m) (space o objects m)
        (space-Alike o objects m n.fresh others valid) n.well_formed

  root_still :
      (objects : Objects)
      → Others o m.objects objects
      → (objects.header m.names.root_directory).valid ≡ true
  root_still objects others =
      ap (λ (h : Header). h.valid) (others m.names.root_directory n.away) ∙ n.valid_root

  -- The call of ObpLookupObjectByName that inserts the object.
  pub insert_under_name :
      (objects : Objects) (c : Context)
      → Others o m.objects objects
      → (objects.header o).valid ≡ true
      → (c1 : Context) × (lookup_object_by_name true m.names.root_directory name.buffer c
            (some o)
            (space o objects m)
          ≡ ok (success, c1, named_space o d p ps objects m))
  unfolding lookup_object_by_name
  insert_under_name objects c others valid =
      let s = space o objects m in
      let (c1, e) =
        lookup_from-Inserts (suc (strlen name.buffer)) s o d m.names.root_directory name.buffer c p
          ps (space-WellFormed objects others valid) (ground arith) (root_still objects others)
          n.short (omega arith) n.whole
          (ap (resolve s m.names.root_directory (p ∷ ps)) n.unclosed
            ∙ lacks_still objects others valid) in
      (
        c1,
        assert-pass {b = m.names.root_directory != 0} _ (ground (arith, n.root))
            ∙ assert-pass {b = m.names.root_directory != 0} _ (ground (arith, n.root))
            ∙ e,
      )

  pub named_space-WellFormed :
      (objects : Objects)
      → Others o m.objects objects
      → (objects.header o).valid ≡ true
      → WellFormed (named_space o d p ps objects m)
  named_space-WellFormed objects others valid =
      inserted-WellFormed (space o objects m) d o (last_name p ps)
        (space-WellFormed objects others valid) valid
        (last_name-IsText p ps (subst Short n.whole n.short))

  -- The lookup that finds it then.
  pub found_by_name :
      (objects : Objects)
      → Others o m.objects objects
      → (objects.header o).valid ≡ true
      → Resolves
          (lookup_object_by_name true m.names.root_directory name.buffer initial_context none
            (named_space o d p ps objects m))
          (found o)
          (named_space o d p ps objects m)
  found_by_name objects others valid =
      let walk : resolve (named_space o d p ps objects m) m.names.root_directory (parts name.buffer)
            (trailing name.buffer)
          ≡ found o =
        rw (n.whole, n.unclosed)
          (resolve-inserted (space o objects m) o d m.names.root_directory p ps
            (Fresh-Alike o (name_space m) (space o objects m)
              (space-Alike o objects m n.fresh others valid))
            (lacks_still objects others valid)) in
      subst
        (λ (r : Resolved).
          Resolves
            (lookup_object_by_name true m.names.root_directory name.buffer initial_context none
              (named_space o d p ps objects m))
            r (named_space o d p ps objects m))
        walk
        (lookup_object_by_name-Resolves (named_space o d p ps objects m) m.names.root_directory
          name.buffer initial_context (named_space-WellFormed objects others valid) n.root n.root
          (root_still objects others) n.short (λ h. cc))
