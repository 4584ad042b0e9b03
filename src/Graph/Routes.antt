-- ===== src/Graph/Routes.antt =====
-- The search finds exactly the routes along the adjacency lists: paths that visit no node twice.
use mathlib.Core.List.Memᴰ
use cloud_native_threat_guar.Prelude.{
  ℕ, zero, suc, ◌<◌, String, true, false, not, ◌&&◌, List, [], ◌∷◌, ◌++◌, ◌≡◌, inl, inr, refl, sym,
  ◌∙◌, ap, ◌==◌, eq_iff, eq_refl, is_empty, filter, length, pop-append, append-nil, append_assoc,
  Memᴰ, arith, Bool-cases, if◌then◌else◌,
}
use cloud_native_threat_guar.Prelude.Text.{member}
use cloud_native_threat_guar.Graph.{Search, enter, follow, follow_all, dfs, search}

-- The routes from `u` to `goal` that meet none of `seen`.
abbrev pub IsRoute :
    {E : Type 0}
    → (E → String)
    → (String → List E)
    → String
    → List String
    → String
    → List E
    → Type 0
IsRoute target adjacent goal seen u [] = u ≡ goal
IsRoute target adjacent goal seen u (e ∷ p) =
    Memᴰ e (adjacent u)
    × (member (target e) (u ∷ seen) ≡ false)
    × IsRoute target adjacent goal (u ∷ seen) (target e) p

filter-absent :
    (u : String) (seen : List String)
    → member u seen ≡ false
    → filter (λ v. not (v == u)) seen ≡ seen
filter-absent u [] h = refl
filter-absent u (v ∷ seen) h = ground (arith, eq_iff u v, eq_iff v u, filter-absent u seen)

module _ {E : Type 0} (target : E → String) (adjacent : String → List E) (goal : String) where
  -- The same search without the shared state: the paths that extend `path`.
  abbrev offshoot : (String → List E → List (List E)) → List String → List E → E → List (List E)
  offshoot go seen path e = if member (target e) seen then [] else go (target e) (path ++ e ∷ [])

  spread : (String → List E → List (List E)) → List String → List E → List E → List (List E)
  spread go seen path [] = []
  spread go seen path (e ∷ es) = offshoot go seen path e ++ spread go seen path es

  pub routes : ℕ → List String → String → List E → List (List E)
  unfolding spread
  routes zero seen u path = []
  routes (suc left) seen u path =
      if (u == goal) && not (is_empty path)
      then path ∷ []
      else spread (routes left (u ∷ seen)) (u ∷ seen) path (adjacent u)

  abbrev Adds :
      (String → Search E → Search E) → (List String → String → List E → List (List E)) → Type 0
  Adds go found =
      (u : String) (s : Search E)
      → member u s.visited ≡ false
      → go u s ≡ record s { paths = s.paths ++ found s.visited u s.path }

  module _ (go : String → Search E → Search E)
      (found : List String → String → List E → List (List E)) (adds : Adds go found) where
    follow-eq :
        (e : E) (s : Search E)
        → follow target adjacent go e s ≡ record s {
          paths =
              s.paths
              ++ (if member (target e) s.visited
                  then []
                  else found s.visited (target e) (s.path ++ e ∷ []));
        }
    unfolding follow
    follow-eq e s = elim (Bool-cases (member (target e) s.visited)) [
      | inl seen ↦ rw (seen, append-nil)
      | inr new ↦
          rw new (rw (adds (target e) (record s { path = s.path ++ e ∷ [] }) new) (rw pop-append))
    ]

    follow_all-eq-spread :
        (es : List E) (s : Search E)
        → follow_all target adjacent go es s
          ≡ record s { paths = s.paths ++ spread (found s.visited) s.visited s.path es }
    unfolding follow_all spread
    follow_all-eq-spread [] s = rw append-nil
    follow_all-eq-spread (e ∷ es) s =
        rw (follow-eq e s) (rw (follow_all-eq-spread es _) (rw append_assoc))

  -- The search adds the routes to the list of paths, and leaves the current path and the visited
  -- set as it found them.
  dfs-eq-routes : (left : ℕ) → Adds (dfs target adjacent left goal) (routes left)
  unfolding dfs routes
  dfs-eq-routes zero u s h = rw append-nil
  dfs-eq-routes (suc left) u s h = elim (Bool-cases ((u == goal) && not (is_empty s.path))) [
    | inl stop ↦ rw stop
    | inr on ↦ rw on (
        rw
          (follow_all-eq-spread (dfs target adjacent left goal) (routes left) (dfs-eq-routes left)
            (adjacent u) (enter target adjacent u s))
          (rw (eq_refl u, filter-absent u s.visited h)))
  ]

  spread_sound :
      (go : String → List E → List (List E)) (seen : List String) (path es : List E) (q : List E)
      → Memᴰ q (spread go seen path es)
      → (e : E) × Memᴰ e es
        × (member (target e) seen ≡ false)
        × Memᴰ q (go (target e) (path ++ e ∷ []))
  unfolding spread
  spread_sound go seen path [] q m = absurd (Memᴰ.not-nil m)
  spread_sound go seen path (e ∷ es) q m = elim (Memᴰ.append_cases (offshoot go seen path e) m) [
    | inl here ↦ elim (Bool-cases (member (target e) seen)) [
      | inl old ↦ absurd (Memᴰ.not-nil (rw old at here))
      | inr new ↦ (e, Memᴰ.head refl, new, (rw new at here))
    ]
    | inr later ↦
        let (e', m', new, found) = spread_sound go seen path es q later in
        (e', Memᴰ.tail m', new, found)
  ]

  abbrev Route : List String → String → List E → Type 0
  Route = IsRoute target adjacent goal

  -- What `routes left seen u path` returns: the current path, continued by a short route.
  abbrev Extends : ℕ → List String → String → List E → List E → Type 0
  Extends left seen u path q =
      (p : List E) × (q ≡ path ++ p) × (length p < left) × Route seen u p × (is_empty q ≡ false)

  pub routes_sound :
      (left : ℕ) (seen : List String) (u : String) (path q : List E)
      → Memᴰ q (routes left seen u path)
      → Extends left seen u path q
  unfolding routes
  routes_sound zero seen u path q m = absurd (Memᴰ.not-nil m)
  routes_sound (suc left) seen u path q m = elim (Bool-cases ((u == goal) && not (is_empty path))) [
    | inl stop ↦
        let e : q ≡ path = Memᴰ.eq_of_singleton (rw stop at m) in
        (
          [],
          e ∙ sym (append-nil path),
          omega arith,
          ground (arith, eq_iff u goal),
          rw e (ground arith),
        )
    | inr on ↦
        let (e, m', new, found) =
          spread_sound (routes left (u ∷ seen)) (u ∷ seen) path (adjacent u) q (rw on at m) in
        let (p, split, short, route, full) =
          routes_sound left (u ∷ seen) (target e) (path ++ e ∷ []) q found in
        (e ∷ p, split ∙ append_assoc path (e ∷ []) p, omega arith, (m', new, route), full)
  ]

  spread-complete :
      (go : String → List E → List (List E)) (seen : List String) (path es : List E) (e : E)
      (q : List E)
      → Memᴰ e es
      → member (target e) seen ≡ false
      → Memᴰ q (go (target e) (path ++ e ∷ []))
      → Memᴰ q (spread go seen path es)
  unfolding spread
  spread-complete go seen path [] e q m new found = absurd (Memᴰ.not-nil m)
  spread-complete go seen path (x ∷ es) e q m new found = elim (Memᴰ.cases_cons m) [
    | inl same ↦
        Memᴰ.append_left {s = offshoot go seen path x} (spread go seen path es)
          (rw (← same) (rw new found))
    | inr later ↦
        Memᴰ.append_right (offshoot go seen path x)
          (spread-complete go seen path es e q later new found)
  ]

  -- A route ends at the goal, so it does not pass the goal before.
  no_return :
      (seen : List String) (u : String) (p : List E)
      → member goal seen ≡ true
      → member u seen ≡ false
      → Route seen u p
      → ⊥
  no_return seen u [] old new r = cc (ap (λ v. member v seen) r)
  no_return seen u (e ∷ p) old new (m, fresh, r) =
      no_return (u ∷ seen) (target e) p (ground arith) fresh r

  before_goal :
      (seen : List String) (u : String) (e : E) (p : List E)
      → member (target e) (u ∷ seen) ≡ false
      → Route (u ∷ seen) (target e) p
      → (u == goal) ≡ false
  before_goal seen u e p fresh r = elim (Bool-cases (u == goal)) [
    | inl at ↦
        absurd
          (no_return (u ∷ seen) (target e) p (ground (arith, eq_iff u goal, eq_iff goal u)) fresh r)
    | inr off ↦ off
  ]

  pub routes-complete :
      (left : ℕ) (seen : List String) (u : String) (path p : List E)
      → length p < left
      → Route seen u p
      → is_empty (path ++ p) ≡ false
      → Memᴰ (path ++ p) (routes left seen u path)
  unfolding routes
  routes-complete zero seen u path p short r full = absurd (omega arith)
  routes-complete (suc left) seen u path [] short r full =
      let at_goal : (u == goal) ≡ true = (eq_iff u goal).1 r in
      let some_edge : is_empty path ≡ false = rw append-nil at full in
      rw (append-nil, at_goal, some_edge) (Memᴰ.head refl)
  routes-complete (suc left) seen u path (e ∷ p) short (m, fresh, r) full =
      rw (before_goal seen u e p fresh r) (
        spread-complete (routes left (u ∷ seen)) (u ∷ seen) path (adjacent u) e _ m fresh (
          rw (← append_assoc path (e ∷ []) p) (
            routes-complete left (u ∷ seen) (target e) (path ++ e ∷ []) p (omega arith) r
              (rw append_assoc full))))

pub search-eq-routes :
    {E : Type 0} (target : E → String) (adjacent : String → List E) (max_depth : ℕ)
    (start goal : String)
    → search target adjacent max_depth start goal
      ≡ routes target adjacent goal (suc max_depth) [] start []
unfolding search
search-eq-routes {E} target adjacent max_depth start goal =
    ap (λ (s : Search E). s.paths)
      (dfs-eq-routes target adjacent goal (suc max_depth) start
        (record { paths = []; path = []; visited = [] }) refl)
