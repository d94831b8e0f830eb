-- ===== src/KList/Unlink.antt =====
-- LIST_REMOVE joins the two neighbours of an element.
use kaush_os.Base.{
  ℕ, ◌≡◌, false, List, [], ◌∷◌, ◌++◌, arith, ◌==◌, ◌∉◌, Distinct, has-append, Distinct-append,
  subst, sym, ◌∙◌,
}
use mathlib.Core.List.{append-nil}
use kaush_os.KList.{Links}
use kaush_os.KList.Ring.{
  Leads, last_of, last_of-mem, Leads-split, Leads-append, Leads-frame, prev-last_of,
}

-- The links `g` are `l` with the element between `p` and `n` taken out.
pub record Unlinked (l g : Links) (p n : ℕ) : Type 0 where
  pub next_prev : g.le_next p ≡ n
  pub next_rest : (b : ℕ) → (b == p) ≡ false → g.le_next b ≡ l.le_next b
  pub prev_next : g.le_prev n ≡ p
  pub prev_rest : (b : ℕ) → (b == n) ≡ false → g.le_prev b ≡ l.le_prev b

-- The path up to the element now ends at its successor.
pub Leads-left :
    {l g : Links} {p n : ℕ} (a : ℕ) (ys : List ℕ) (e : ℕ)
    → Unlinked l g p n
    → Leads l a ys e
    → last_of a ys ≡ p
    → a ∉ ys
    → Distinct ys
    → n ∉ ys
    → Leads g a ys n
unfolding last_of
Leads-left {l} {g} {p} {n} a [] e u h q d ds hn =
    (ground (arith, u.next_prev), ground (arith, u.prev_next))
Leads-left {l} {g} {p} {n} a (y ∷ ys) e u h q d ds hn = (
  ground (arith, u.next_rest a, u.prev_rest y, last_of-mem y ys),
  Leads-left y ys e u h.1 q ds.0 ds.1 (ground arith),
)

-- Taking an element out of the middle of a path.
pub Leads-Unlinked :
    {l g : Links} {p n : ℕ} (a e z : ℕ) (ys zs : List ℕ)
    → Unlinked l g p n
    → Leads l a (ys ++ e ∷ zs) z
    → l.le_prev e ≡ p
    → l.le_next e ≡ n
    → a ∉ ys ++ e ∷ zs
    → z ∉ ys ++ e ∷ zs
    → Distinct (ys ++ e ∷ zs)
    → Leads g a (ys ++ zs) z
Leads-Unlinked {l} {g} {p} {n} a e z ys [] u h hp hn ha hz d =
    let (q, r) = Leads-split l a e z ys [] h in
    let (dy, _, _) = Distinct-append ys (e ∷ []) d in
    rw append-nil (
      subst (Leads g a ys) (sym hn ∙ r.0) (
        Leads-left a ys e u q (sym (prev-last_of l a e ys q) ∙ hp)
          (ground (arith, has-append a ys (e ∷ []))) dy
          (ground (arith, has-append z ys (e ∷ []), sym hn ∙ r.0))))
Leads-Unlinked {l} {g} {p} {n} a e z ys (n' ∷ zs) u h hp hn ha hz d =
    let (q, r) = Leads-split l a e z ys (n' ∷ zs) h in
    let (dy, dz, apart) = Distinct-append ys (e ∷ n' ∷ zs) d in
    let pe : last_of a ys ≡ p = sym (prev-last_of l a e ys q) ∙ hp in
    let ne : n ≡ n' = sym hn ∙ r.0.0 in
    Leads-append g a n' z ys zs
      (subst (Leads g a ys) ne (
        Leads-left a ys e u q pe (ground (arith, has-append a ys (e ∷ n' ∷ zs))) dy
          (ground (arith, apart n'))))
      (Leads-frame l g n' z p n zs r.1
        (ground (arith, last_of-mem a ys, apart p, has-append a ys (e ∷ n' ∷ zs)))
        (ground (arith, has-append n zs (z ∷ []), has-append z ys (e ∷ n' ∷ zs))) u.next_rest
        u.prev_rest)
