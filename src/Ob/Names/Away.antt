-- ===== src/Ob/Names/Away.antt =====
-- A walk along a path does not meet an object that no directory holds: what the name space says of
-- that object does not matter.
use kaush_os.Base.{
  ℕ, ◌≡◌, refl, sym, ap, ◌∙◌, Bool, true, false, List, [], ◌∷◌, ◌==◌, Bool-cases, Option-cases, inl,
  inr, arith, ◌∈◌, ◌∉◌, has, eqb→eq,
}
use kaush_os.Strings.{Text}
use kaush_os.Ob.Names.{NameSpace, is_directory}
use kaush_os.Ob.Names.Parts.{name_of}
use kaush_os.Ob.Names.Resolve.{
  named, named-mem, resolve, resolve-missing, resolve_entry, WellFormed,
}
use kaush_os.Ob.Names.Insert.{Fresh}

-- Two name spaces that differ in one object only, which is valid and empty in the second.
pub record Alike (o : ℕ) (s s' : NameSpace) : Type 0 where
  pub fresh : Fresh o s
  pub same_children : (p : ℕ) → (p == o) ≡ false → s'.children p ≡ s.children p
  pub same_type : (p : ℕ) → (p == o) ≡ false → s'.object_type p ≡ s.object_type p
  pub same_name : (p : ℕ) → (p == o) ≡ false → s'.object_name p ≡ s.object_name p
  pub same_valid : (p : ℕ) → (p == o) ≡ false → s'.valid p ≡ s.valid p
  pub no_children : s'.children o ≡ []
  pub no_name : s'.object_name o ≡ name_of []
  pub is_valid : s'.valid o ≡ true

not_o : (o x : ℕ) (xs : List ℕ) → o ∉ xs → x ∈ xs → (x == o) ≡ false
not_o o x [] h m = cc
not_o o x (y ∷ ys) h m = ground (arith, h, m, not_o o x ys)

module _ (o : ℕ) (s s' : NameSpace) (alike : Alike o s s') where
  named-Alike : (os : List ℕ) (p : Text) → o ∉ os → named os p s' ≡ named os p s
  unfolding named
  named-Alike [] p h = refl
  named-Alike (x ∷ os) p h =
      let other : (x == o) ≡ false = ground (arith, h) in
      rw (alike.same_name x other, named-Alike os p (ground (arith, h))) refl

  pub resolve-Alike :
      (dir : ℕ) (ps : List Text) (closed : Bool)
      → (dir == o) ≡ false
      → resolve s' dir ps closed ≡ resolve s dir ps closed
  unfolding resolve
  resolve-Alike dir [] closed other = rw (alike.same_type dir other) refl
  resolve-Alike dir (p ∷ ps) closed other =
      let same_dir = ap is_directory (alike.same_type dir other) in
      let same_named : named (s'.children dir) p s' ≡ named (s.children dir) p s =
        ap (λ (os : List ℕ). named os p s') (alike.same_children dir other)
        ∙ named-Alike (s.children dir) p (alike.fresh dir) in
      elim (Bool-cases (is_directory (s.object_type dir))) [
        | inr file ↦ rw (same_dir, resolve) (rw (file, resolve) refl)
        | inl d ↦ elim (Option-cases (named (s.children dir) p s)) [
          | inl absent ↦
              resolve-missing s' dir p ps closed (same_dir ∙ d) (same_named ∙ absent)
              ∙ sym (resolve-missing s dir p ps closed d absent)
          | inr (x, there) ↦
              resolve_entry s' dir p ps closed x (same_dir ∙ d) (same_named ∙ there)
              ∙ resolve-Alike x ps closed (
                  not_o o x (s.children dir) (alike.fresh dir)
                    (named-mem (s.children dir) p s x there))
              ∙ sym (resolve_entry s dir p ps closed x d there)
        ]
      ]

  -- Where an entry of the second name space stands.
  entry-Alike :
      (w : WellFormed s) (e x : ℕ) → x ∈ s'.children e → (x ∈ s.children e) × ((x == o) ≡ false)
  entry-Alike w e x m = elim (Bool-cases (e == o)) [
    | inl same ↦ cc (ap s'.children (eqb→eq e o same), alike.no_children)
    | inr other ↦
        let there : x ∈ s.children e = ap (has x) (sym (alike.same_children e other)) ∙ m in
        (there, not_o o x (s.children e) (alike.fresh e) there)
  ]

  name_of_o : (x : ℕ) → (x == o) ≡ true → s'.object_name x ≡ name_of []
  name_of_o x e = ap s'.object_name (eqb→eq x o e) ∙ alike.no_name

  pub WellFormed-Alike : WellFormed s → WellFormed s'
  WellFormed-Alike w = record {
    entries = λ e x m.
        let (there, other) = entry-Alike w e x m in alike.same_valid x other ∙ w.entries e x there;
    names = λ x. elim (Bool-cases (x == o)) [
      | inl e ↦ rw (name_of_o x e) refl
      | inr e ↦ rw (alike.same_name x e) (w.names x)
    ];
    texts = λ x. elim (Bool-cases (x == o)) [
      | inl e ↦ rw (name_of_o x e) tt
      | inr e ↦ rw (alike.same_name x e) (w.texts x)
    ];
  }

  pub Fresh-Alike : Fresh o s'
  Fresh-Alike d = elim (Bool-cases (d == o)) [
    | inl e ↦ ap (has o) (ap s'.children (eqb→eq d o e) ∙ alike.no_children)
    | inr e ↦ ap (has o) (alike.same_children d e) ∙ alike.fresh d
  ]
