-- ===== src/KList/Insert.antt =====
-- LIST_INSERT_AFTER puts an element between two neighbours.
use kaush_os.Base.{ℕ, ◌≡◌, false, List, [], ◌∷◌, ◌++◌, arith, ◌==◌, ◌∉◌, Distinct}
use kaush_os.KList.{Links, KList, insert_before, insert_after}
use kaush_os.KList.Ring.{Leads, last_of, last_of-mem}

-- The links `g` are `l` with `e` put between `p` and `z`.
pub record Inserted (l g : Links) (p e z : ℕ) : Type 0 where
  pub next_new : g.le_next e ≡ z
  pub next_prev : g.le_next p ≡ e
  pub next_rest : (b : ℕ) → (b == p) ≡ false → (b == e) ≡ false → g.le_next b ≡ l.le_next b
  pub prev_new : g.le_prev e ≡ p
  pub prev_next : g.le_prev z ≡ e
  pub prev_rest : (b : ℕ) → (b == z) ≡ false → (b == e) ≡ false → g.le_prev b ≡ l.le_prev b

-- LIST_INSERT_BEFORE at the first element.
pub insert_before-Inserted :
    (e x p : ℕ) (l : KList)
    → l.lh_first ≡ x
    → l.links.le_prev x ≡ p
    → l.links.le_next p ≡ x
    → (e == p) ≡ false
    → (e == x) ≡ false
    → Inserted l.links (insert_before (λ h. h.lh_first) e l).links p e x
unfolding insert_before insert_after
insert_before-Inserted e x p l hf px hz hp hx = record {
  next_new = ground arith;
  next_prev = ground arith;
  next_rest = ground arith;
  prev_new = ground arith;
  prev_next = ground arith;
  prev_rest = ground arith;
}

pub Leads-Inserted :
    {l g : Links} {p e z : ℕ} (a : ℕ) (xs : List ℕ)
    → Inserted l g p e z
    → Leads l a xs z
    → last_of a xs ≡ p
    → a ∉ xs
    → Distinct xs
    → e ∉ a ∷ xs
    → z ∉ xs
    → Leads g a (xs ++ e ∷ []) z
unfolding last_of
Leads-Inserted {l} {g} {p} {e} {z} a [] i h q d ds he hz =
    ((ground (arith, i.next_prev), ground (arith, i.prev_new)), (i.next_new, i.prev_next))
Leads-Inserted {l} {g} {p} {e} {z} a (x ∷ xs) i h q d ds he hz = (
  ground (arith, i.next_rest a, i.prev_rest x, last_of-mem x xs),
  Leads-Inserted x xs i h.1 q ds.0 ds.1 (ground arith) (ground arith),
)
