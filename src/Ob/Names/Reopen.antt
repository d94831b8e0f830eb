-- ===== src/Ob/Names/Reopen.antt =====
-- An object that ObpLookupObjectByName has inserted is found by its path.
use kaush_os.Base.{
  ℕ, suc, ◌≡◌, ◌≢◌, refl, sym, ap, ◌∙◌, subst, true, false, none, some, List, [], ◌∷◌, ◌==◌, ◌!=◌,
  Bool-cases, List-cases, inl, inr, arith, ◌∈◌, has-append, eqb→eq,
}
use kaush_os.Base.Outcome.{Outcome, ok, assert-pass}
use kaush_os.Strings.{Text, strlen}
use kaush_os.Strings.Texts.{IsText}
use kaush_os.Ob.Names.{NameSpace, Context, success, name_not_found, Lookup, lookup_object_by_name}
use kaush_os.Ob.Names.Parts.{parts, trailing, Short, name_of}
use kaush_os.Ob.Names.Resolve.{
  Resolved, found, no_name, no_path, resolve, WellFormed, status_of, Agrees, Resolves,
}
use kaush_os.Ob.Names.Lookup.{lookup_object_by_name-Resolves}
use kaush_os.Ob.Names.Insert.{inserted, Fresh, last_name, resolve-inserted}
use kaush_os.Ob.Names.RoundTrip.{lookup_from-Inserts}

pub last_name-IsText : (p : Text) (ps : List Text) → Short (p ∷ ps) → IsText (last_name p ps)
last_name-IsText p [] short = short.1
last_name-IsText p (q ∷ qs) short = last_name-IsText q qs short.2

inserted_valid :
    (s : NameSpace) (d o : ℕ) (p : Text)
    → WellFormed s
    → s.valid o ≡ true
    → (e x : ℕ) → x ∈ (inserted d o (name_of p) s).children e
    → s.valid x ≡ true
inserted_valid s d o p w valid e x h = elim (Bool-cases (x == o)) [
  | inl same ↦ ap s.valid (eqb→eq x o same) ∙ valid
  | inr other ↦ w.entries e x (ground (arith, h, other, has-append x (s.children e) (o ∷ [])))
]

pub inserted-WellFormed :
    (s : NameSpace) (d o : ℕ) (p : Text)
    → WellFormed s
    → s.valid o ≡ true
    → IsText p
    → WellFormed (inserted d o (name_of p) s)
inserted-WellFormed s d o p w valid text = record {
  entries = λ e x h. inserted_valid s d o p w valid e x h;
  names = λ x. elim (Bool-cases (x == o)) [ inl e ↦ rw e refl | inr e ↦ rw e (w.names x) ];
  texts = λ x. elim (Bool-cases (x == o)) [ inl e ↦ rw e text | inr e ↦ rw e (w.texts x) ];
}

-- A lookup that lacks the last name of the path: the walk does too.
lacks_name :
    (r : Resolved) (l : Outcome Lookup) (s s' : NameSpace) (c : Context)
    → Resolves l r s
    → l ≡ ok (name_not_found, c, s')
    → (d : ℕ) × (r ≡ no_name d)
lacks_name (found o) l s s' c (c1, e, _) h = cc
lacks_name (no_name d) l s s' c (c1, e, _) h = (d, refl)
lacks_name no_path l s s' c (c1, e, _) h = cc

-- A new object is there: the lookup that inserts it succeeds, and the lookup of the same path finds it.
abbrev pub Reopened : ℕ → ℕ → Text → Context → NameSpace → Type 0
Reopened parent o path c s =
    (c1 : Context) × (c2 : Context) × (s1 : NameSpace) × (lookup_object_by_name true parent path c
        (some o) s
      ≡ ok (success, c1, s1))
    × (lookup_object_by_name true parent path c none s1 ≡ ok (success, c2, s1))
    × (c2.object ≡ o)
    × WellFormed s1

reopen :
    (s : NameSpace) (parent o d : ℕ) (path : Text) (c : Context) (p : Text) (ps : List Text)
    → WellFormed s
    → (s.root_directory == 0) ≡ false
    → (parent == 0) ≡ false
    → s.valid parent ≡ true
    → Short (parts path)
    → trailing path ≡ false
    → parts path ≡ p ∷ ps
    → resolve s parent (parts path) (trailing path) ≡ no_name d
    → Fresh o s
    → s.linked o ≡ false
    → s.valid o ≡ true
    → Reopened parent o path c s
unfolding lookup_object_by_name
reopen s parent o d path c p ps w root some_parent v short unclosed whole lacks fresh unlinked
      valid =
    let text = last_name-IsText p ps (subst Short whole short) in
    let s1 = inserted d o (name_of (last_name p ps)) s in
    let w1 = inserted-WellFormed s d o (last_name p ps) w valid text in
    let at : resolve s parent (p ∷ ps) (trailing path) ≡ no_name d =
      ap (λ (qs : List Text). resolve s parent qs (trailing path)) (sym whole) ∙ lacks in
    let (c1, e1) =
      lookup_from-Inserts (suc (strlen path)) s o d parent path c p ps w unlinked v short
        (omega arith) whole at in
    let walk : resolve s1 parent (parts path) (trailing path) ≡ found o =
      rw (whole, unclosed)
        (resolve-inserted s o d parent p ps fresh
          (ap (resolve s parent (p ∷ ps)) (sym unclosed) ∙ at)) in
    let (c2, e2, there) =
      lookup_object_by_name-Resolves s1 parent path c w1 root some_parent v short (λ h. cc) in
    (
      c1,
      c2,
      s1,
      assert-pass {b = s.root_directory != 0} _ (ground (arith, root))
          ∙ assert-pass {b = parent != 0} _ (ground (arith, some_parent))
          ∙ e1,
      e2 ∙ ap (λ (r : Resolved). ok (status_of r, c2, s1)) walk,
      subst (λ (r : Resolved). Agrees r c2) walk there,
      w1,
    )

-- Where ObpLookupObjectByName says STATUS_OBJECT_NAME_NOT_FOUND for a path that ends in no
-- separator, in a well-formed name space and under the conditions of a lookup, a call with an object
-- that no directory holds returns STATUS_SUCCESS, a lookup of the same path behind it returns
-- STATUS_SUCCESS and that object, and the name space is well-formed again.
pub lookup_object_by_name-Reopened :
    (s : NameSpace) (parent o : ℕ) (path : Text) (c c0 : Context) (s0 : NameSpace)
    → WellFormed s
    → (s.root_directory == 0) ≡ false
    → (parent == 0) ≡ false
    → s.valid parent ≡ true
    → Short (parts path)
    → parts path ≢ []
    → trailing path ≡ false
    → lookup_object_by_name true parent path c none s ≡ ok (name_not_found, c0, s0)
    → Fresh o s
    → s.linked o ≡ false
    → s.valid o ≡ true
    → Reopened parent o path c s
lookup_object_by_name-Reopened s parent o path c c0 s0 w root some_parent v short has_part unclosed
      lacks fresh unlinked valid =
    let walk = lookup_object_by_name-Resolves s parent path c w root some_parent v short has_part in
    let (d, at) = lacks_name (resolve s parent (parts path) (trailing path)) _ s s0 c0 walk lacks in
    elim (List-cases (parts path)) [
      | inl empty ↦ absurd (has_part empty)
      | inr (p, ps, whole) ↦
          reopen s parent o d path c p ps w root some_parent v short unclosed whole at fresh
            unlinked valid
    ]
