-- ===== src/Graph/Simple.antt =====
-- The search finds exactly the simple paths over the edges that the adjacency lists index.
use mathlib.Core.List.Memᴰ
use cloud_native_threat_guar.Prelude.{
  ℕ, suc, ◌≤◌, String, Bool, true, false, List, [], ◌∷◌, ◌++◌, ◌≡◌, ◌↔◌, inl, inr, refl, sym, subst,
  ap, ◌==◌, eq_iff, is_empty, filter, length, Memᴰ, arith, Bool-cases,
}
use cloud_native_threat_guar.Prelude.Text.{member}
use cloud_native_threat_guar.Graph.{search}
use cloud_native_threat_guar.Graph.Routes.{IsRoute, routes_sound, routes-complete, search-eq-routes}

-- A path over a list of edges, from `u` to `goal`, that enters no node twice and none of `seen`.
abbrev pub IsSimplePath :
    {E : Type 0}
    → (E → String)
    → (E → String)
    → List E
    → String
    → List String
    → String
    → List E
    → Type 0
IsSimplePath source target edges goal seen u [] = u ≡ goal
IsSimplePath source target edges goal seen u (e ∷ p) =
    Memᴰ e edges
    × (source e ≡ u)
    × (member (target e) (u ∷ seen) ≡ false)
    × IsSimplePath source target edges goal (u ∷ seen) (target e) p

-- The adjacency lists index the list of edges by their source.
abbrev pub Indexes : {E : Type 0} → (E → String) → List E → (String → List E) → Type 0
Indexes source edges adjacent = (u : String) → adjacent u ≡ filter (λ e. source e == u) edges

pub filter-append :
    {E : Type 0} (q : E → Bool) (xs ys : List E) → filter q (xs ++ ys) ≡ filter q xs ++ filter q ys
filter-append q [] ys = refl
filter-append q (x ∷ xs) ys = ground (arith, filter-append q xs ys)

mem-filter :
    {E : Type 0} (q : E → Bool) (e : E) (es : List E)
    → Memᴰ e (filter q es) ↔ (Memᴰ e es × (q e ≡ true))
mem-filter q e [] = (λ m. absurd (Memᴰ.not-nil m), λ m. absurd (Memᴰ.not-nil m.0))
mem-filter q e (x ∷ es) = elim (Bool-cases (q x)) [
  | inl keep ↦ rw keep (
    λ m. elim (Memᴰ.cases_cons m) [
      | inl same ↦ (Memᴰ.head same, rw same keep)
      | inr later ↦ let (m', h) = (mem-filter q e es).0 later in (Memᴰ.tail m', h)
    ],
    λ (m, h). elim (Memᴰ.cases_cons m) [
      | inl same ↦ Memᴰ.head same
      | inr later ↦ Memᴰ.tail ((mem-filter q e es).1 (later, h))
    ],
  )
  | inr skip ↦ rw skip (
    λ m. let (m', h) = (mem-filter q e es).0 m in (Memᴰ.tail m', h),
    λ (m, h). elim (Memᴰ.cases_cons m) [
      | inl same ↦ absurd (cc (ap q same))
      | inr later ↦ (mem-filter q e es).1 (later, h)
    ],
  )
]

module _ {E : Type 0} (source target : E → String) (edges : List E) (adjacent : String → List E)
    (index : Indexes source edges adjacent) (goal : String) where
  IsRoute-iff :
      (seen : List String) (u : String) (p : List E)
      → IsRoute target adjacent goal seen u p ↔ IsSimplePath source target edges goal seen u p
  IsRoute-iff seen u [] = (λ h. h, λ h. h)
  IsRoute-iff seen u (e ∷ p) = (
    λ (m, fresh, r).
        let (m', from) = (mem-filter (λ x. source x == u) e edges).0 (subst (Memᴰ e) (index u) m) in
        (m', (eq_iff (source e) u).0 from, fresh, (IsRoute-iff (u ∷ seen) (target e) p).0 r),
    λ (m, from, fresh, r). (
      subst (Memᴰ e) (sym (index u))
          ((mem-filter (λ x. source x == u) e edges).1 (m, (eq_iff (source e) u).1 from)),
      fresh,
      (IsRoute-iff (u ∷ seen) (target e) p).1 r,
    ),
  )

  -- `search` returns a path exactly if it is a simple path over the edges, from the start to the
  -- goal, with at least one and at most `max_depth` edges.
  pub search_correct :
      (max_depth : ℕ) (start : String) (p : List E)
      → Memᴰ p (search target adjacent max_depth start goal) ↔ (
          IsSimplePath source target edges goal [] start p
          × (length p ≤ max_depth)
          × (is_empty p ≡ false))
  search_correct max_depth start p = rw search-eq-routes (
    λ m.
        let (q, same, short, route, full) =
          routes_sound target adjacent goal (suc max_depth) [] start [] p m in
        ((IsRoute-iff [] start p).0 (rw same route), omega (arith, ap length same), full),
    λ (path, short, full).
        routes-complete target adjacent goal (suc max_depth) [] start [] p (omega arith)
          ((IsRoute-iff [] start p).1 path) full,
  )
