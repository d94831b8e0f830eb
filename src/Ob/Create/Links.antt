-- ===== src/Ob/Create/Links.antt =====
-- ObCreateSymbolicLink: the new link leads to its target.
use kaush_os.Base.{
  ℕ, ◌+◌, ◌%◌, ◌^◌, ◌≤◌, ◌≡◌, ◌≢◌, refl, sym, ap, ◌∙◌, subst, true, false, none, some, [], ◌==◌,
  ◌!=◌, leb, Bool-cases, inl, inr, arith, eqb→eq,
}
use kaush_os.Base.Outcome.{Outcome, ok, assert-pass}
use kaush_os.Ob.Object.{Header, Objects, set_header, reference_object}
use kaush_os.Ob.Names.{
  Name, NameSpace, Context, success, initial_context, symbolic_link, Lookup, lookup_object_by_name,
}
use kaush_os.Ob.Names.Parts.{parts, trailing, Short}
use kaush_os.Ob.Names.Resolve.{Resolved, found, no_name, no_path, resolve, WellFormed, Resolves}
use kaush_os.Ob.Names.Lookup.{lookup_object_by_name-Resolves}
use kaush_os.Ob.Names.Insert.{Fresh}
use kaush_os.Ob.Names.Same.{Same, resolve-Same, WellFormed-Same}
use kaush_os.Ob.Names.Mount.{Usable, object_at-found}
use kaush_os.Ob.Create.{Manager, name_space, type_kind, initialize_object_attributes, create_object}
use kaush_os.Ob.Create.Named.{Created, plenty, create_object-Created}
use kaush_os.Ob.Create.Directories.{
  set_link_target, target_from_symbolic_link, hand_out, init_link, create_symbolic_link_object,
  create_symbolic_link, sizeof_directory,
}

abbrev counted : ℕ → Objects → Objects
counted v s =
    set_header v (record (s.header v) { ref_count = ((s.header v).ref_count + 1) % 2 ^ 32 }) s

reference_object-counted :
    (v : ℕ) (s : Objects)
    → s.current_irql ≤ 2
    → ((s.header v).ref_count == 0) ≡ false
    → (s.header v).valid ≡ true
    → reference_object v s ≡ ok (counted v s)
unfolding reference_object
reference_object-counted v s low referenced valid =
    assert-pass {b = leb s.current_irql 2} _ (ground (arith, low))
    ∙ assert-pass {b = (s.header v).ref_count != 0} _ (ground (arith, referenced))
    ∙ assert-pass {b = (s.header v).valid} _ valid

counted-header :
    (v p : ℕ) (s : Objects)
    → (((counted v s).header p).valid ≡ (s.header p).valid)
      × (((counted v s).header p).object_type ≡ (s.header p).object_type)
counted-header v p s = elim (Bool-cases (p == v)) [
  | inl e ↦
      let here = ap s.header (eqb→eq p v e) in
      (
        rw e (ap (λ (h : Header). h.valid) (sym here)),
        rw e (ap (λ (h : Header). h.object_type) (sym here)),
      )
  | inr e ↦ (rw e refl, rw e refl)
]

-- The manager with a link to its target.
abbrev pointed : ℕ → ℕ → Manager → Manager
pointed o target m = record m {
  objects = counted target m.objects;
  names = set_link_target o target m.names;
}

pointed-Same : (o target : ℕ) (m : Manager) → Same (name_space m) (name_space (pointed o target m))
pointed-Same o target m = record {
  same_children = λ p. refl;
  same_type = λ p. ap (λ (t : ℕ). type_kind t m) (counted-header target p m.objects).1;
  same_name = λ p. refl;
  same_valid = λ p. (counted-header target p m.objects).0;
}

create_symbolic_link_object-pointed :
    (m m1 : Manager) (o target variable : ℕ) (name : Name)
    → (m.names.root_directory == 0) ≡ false
    → create_object
        (plenty o)
        none
        m.link_type
        (some (initialize_object_attributes (some name) 0 0))
        sizeof_directory
        variable
        m
      ≡ ok (success, o, m1)
    → reference_object target m1.objects ≡ ok (counted target m1.objects)
    → create_symbolic_link_object
        (plenty o)
        false
        variable
        target
        (initialize_object_attributes (some name) 0 0)
        m
      ≡ ok (success, o, 0, pointed o target m1)
unfolding create_symbolic_link_object init_link hand_out
create_symbolic_link_object-pointed m m1 o target variable name root made referenced =
    assert-pass {b = m.names.root_directory != 0} _ (ground (arith, root))
    ∙ rw made (rw (referenced, init_link) refl)

-- What a successful lookup has found is where the walk leads.
finds :
    (r : Resolved) (l : Outcome Lookup) (s s' : NameSpace) (c : Context)
    → Resolves l r s
    → l ≡ ok (success, c, s')
    → r ≡ found c.object
finds (found x) l s s' c (c1, e, at) h =
    let same : c1 ≡ c = cc in ap found (sym at ∙ ap (λ (k : Context). k.object) same)
finds (no_name d) l s s' c (c1, e, _) h = cc
finds no_path l s s' c (c1, e, _) h = cc

-- A link is there, by its name, and leads to its target, which has one more reference.
abbrev pub Linked : Manager → ℕ → ℕ → Name → Manager → Type 0
Linked m o target name m' =
    let s = name_space m' in
    (target_from_symbolic_link o m' ≡ target)
    × (s.object_type o ≡ symbolic_link)
    × ((m'.objects.header target).ref_count ≡ ((m.objects.header target).ref_count + 1) % 2 ^ 32)
    × WellFormed s
    × Resolves
        (lookup_object_by_name true m.names.root_directory name.buffer initial_context none s)
        (found o) s

pointed-Linked :
    (m m1 : Manager) (o target : ℕ) (name : Name)
    → Created m o m.link_type 0 name m1
    → (m.names.root_directory == 0) ≡ false
    → (m.objects.header m.names.root_directory).valid ≡ true
    → (m.names.root_directory == o) ≡ false
    → Short (parts name.buffer)
    → parts name.buffer ≢ []
    → (m.link_type == m.directory_type) ≡ false
    → (target == o) ≡ false
    → Linked m o target name (pointed o target m1)
pointed-Linked m m1 o target name (header, others, _, rest, same_root, _, w1, c, looked, there) root
      valid_root away short has_part no_directory apart =
    let s1 = name_space m1 in
    let s2 = name_space (pointed o target m1) in
    let same = pointed-Same o target m1 in
    let dir = m.names.root_directory in
    let here : (o == o) ≡ true = ground arith in
    let at_target : (target == target) ≡ true = ground arith in
    let at_link : (m.link_type == m.link_type) ≡ true = ground arith in
    let valid1 : s1.valid dir ≡ true =
      ap (λ (h : Header). h.valid) (others dir away) ∙ valid_root in
    let root1 : (s1.root_directory == 0) ≡ false = ap (λ (k : ℕ). k == 0) same_root ∙ root in
    let w2 = WellFormed-Same s1 s2 same w1 in
    let walk1 =
      finds (resolve s1 dir (parts name.buffer) (trailing name.buffer)) _ s1 s1 c
        (lookup_object_by_name-Resolves s1 dir name.buffer initial_context w1 root1 root valid1
          short has_part)
        looked in
    let walk2 : resolve s2 dir (parts name.buffer) (trailing name.buffer) ≡ found o =
      resolve-Same s1 s2 same dir (parts name.buffer) (trailing name.buffer)
      ∙ walk1
      ∙ ap found there in
    (
      rw here refl,
      ap (λ (t : ℕ). type_kind t m1)
            ((counted-header target o m1.objects).1 ∙ ap (λ (h : Header). h.object_type) header)
          ∙ ap (type_kind m.link_type) rest
          ∙ rw no_directory (rw at_link refl),
      rw at_target (ap (λ (h : Header). (h.ref_count + 1) % 2 ^ 32) (others target apart)),
      w2,
      subst
          (λ (r : Resolved).
            Resolves (lookup_object_by_name true dir name.buffer initial_context none s2) r s2)
          walk2
          (lookup_object_by_name-Resolves s2 dir name.buffer initial_context w2 root1 root
            (same.same_valid dir ∙ valid1) short has_part),
    )

-- ObCreateSymbolicLink at DISPATCH_LEVEL or below, in a well-formed name space with a valid root
-- directory, where the type of links is registered and is not that of directories, for a fully
-- qualified name of at most 1024 characters that ends in no separator, whose parts fit into a name
-- and of which the name space lacks just the last part, and for a path to a valid target with a
-- reference: with memory for a link that no directory holds and that is neither the root directory
-- nor the target, it returns STATUS_SUCCESS, a lookup of the name finds the link, the link leads to
-- the target, which has one more reference, and the name space is well-formed again.
pub create_symbolic_link-Linked :
    (m : Manager) (o d target variable : ℕ) (name target_name : Name)
    → WellFormed (name_space m)
    → (m.names.root_directory == 0) ≡ false
    → (m.objects.header m.names.root_directory).valid ≡ true
    → Short (parts name.buffer)
    → parts name.buffer ≢ []
    → trailing name.buffer ≡ false
    → resolve (name_space m) m.names.root_directory (parts name.buffer) false ≡ no_name d
    → Fresh o (name_space m)
    → (m.names.root_directory == o) ≡ false
    → name.size ≤ 1024
    → ((m.link_type == 0) ≡ false) × (m.is_type m.link_type ≡ true)
    → (m.link_type == m.directory_type) ≡ false
    → (variable == 0) ≡ false
    → Usable target_name.buffer
    → resolve
        (name_space m)
        m.names.root_directory
        (parts target_name.buffer)
        (trailing target_name.buffer)
      ≡ found target
    → (target == o) ≡ false
    → (m.objects.current_irql ≤ 2)
      × (((m.objects.header target).ref_count == 0) ≡ false)
      × ((m.objects.header target).valid ≡ true)
    → (m' : Manager) × (create_symbolic_link (plenty o) true variable name target_name m
        ≡ ok (success, m'))
      × Linked m o target name m'
unfolding create_symbolic_link
create_symbolic_link-Linked m o d target variable name target_name w root valid_root short has_part
      unclosed lacks fresh away fits typed no_directory given usable at_target apart
      (low, referenced, valid) =
    let (m1, made, kept) =
      create_object-Created m o d m.link_type sizeof_directory variable 0 name w root valid_root
        short has_part unclosed lacks fresh away fits refl typed (omega arith, given) in
    let pointed_to = create_symbolic_link_object-pointed m m1 o target variable name root made (
      reference_object-counted target m1.objects (omega (arith, kept.2, low))
        (ap (λ (h : Header). h.ref_count == 0) (kept.1 target apart) ∙ referenced)
        (ap (λ (h : Header). h.valid) (kept.1 target apart) ∙ valid)) in
    (
      pointed o target m1,
      rw
          (
            object_at-found (name_space m) target_name.buffer target w root valid_root usable
                at_target,
            create_symbolic_link,
          )
          (rw pointed_to refl),
      pointed-Linked m m1 o target name kept root valid_root away short has_part no_directory apart,
    )
