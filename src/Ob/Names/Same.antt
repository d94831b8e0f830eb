-- ===== src/Ob/Names/Same.antt =====
-- A walk along a path depends on the entries, the names and the types of the objects alone.
use kaush_os.Base.{
  ℕ, ◌≡◌, refl, sym, ap, ◌∙◌, Bool, List, [], ◌∷◌, Bool-cases, Option-cases, inl, inr, has,
}
use kaush_os.Strings.{Text}
use kaush_os.Ob.Names.{NameSpace, is_directory}
use kaush_os.Ob.Names.Resolve.{named, resolve, resolve-missing, resolve_entry, WellFormed}

-- Two name spaces with the same entries, names and types, and the same valid objects.
pub record Same (s s' : NameSpace) : Type 0 where
  pub same_children : (p : ℕ) → s'.children p ≡ s.children p
  pub same_type : (p : ℕ) → s'.object_type p ≡ s.object_type p
  pub same_name : (p : ℕ) → s'.object_name p ≡ s.object_name p
  pub same_valid : (p : ℕ) → s'.valid p ≡ s.valid p

module _ (s s' : NameSpace) (same : Same s s') where
  named-Same : (os : List ℕ) (p : Text) → named os p s' ≡ named os p s
  unfolding named
  named-Same [] p = refl
  named-Same (x ∷ os) p = rw (same.same_name x, named-Same os p) refl

  pub resolve-Same :
      (dir : ℕ) (ps : List Text) (closed : Bool)
      → resolve s' dir ps closed ≡ resolve s dir ps closed
  unfolding resolve
  resolve-Same dir [] closed = rw (same.same_type dir) refl
  resolve-Same dir (p ∷ ps) closed =
      let same_dir = ap is_directory (same.same_type dir) in
      let same_named : named (s'.children dir) p s' ≡ named (s.children dir) p s =
        ap (λ (os : List ℕ). named os p s') (same.same_children dir)
        ∙ named-Same (s.children dir) p in
      elim (Bool-cases (is_directory (s.object_type dir))) [
        | inr file ↦ rw (same_dir, resolve) (rw (file, resolve) refl)
        | inl d ↦ elim (Option-cases (named (s.children dir) p s)) [
          | inl absent ↦
              resolve-missing s' dir p ps closed (same_dir ∙ d) (same_named ∙ absent)
              ∙ sym (resolve-missing s dir p ps closed d absent)
          | inr (x, there) ↦
              resolve_entry s' dir p ps closed x (same_dir ∙ d) (same_named ∙ there)
              ∙ resolve-Same x ps closed
              ∙ sym (resolve_entry s dir p ps closed x d there)
        ]
      ]

  pub WellFormed-Same : WellFormed s → WellFormed s'
  WellFormed-Same w = record {
    entries =
        λ e x m. same.same_valid x ∙ w.entries e x (ap (has x) (sym (same.same_children e)) ∙ m);
    names = λ x. rw (same.same_name x) (w.names x);
    texts = λ x. rw (same.same_name x) (w.texts x);
  }
