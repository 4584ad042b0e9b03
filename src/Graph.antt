-- ===== src/Graph.antt =====
-- The depth-first search that src/cloudnative_threatguard/correlation/cross_domain/graph/unified_graph.py
-- and src/cloudnative_threatguard/cloudgraphguard/graph/iam_graph.py both contain: the nested function
-- `dfs`, over the adjacency lists of its graph. Python shares one list of paths, one current path and one
-- visited set between all calls; here they are the fields of a state that each call returns.
pub mod Routes
pub mod Simple
pub mod Unified
pub mod Iam
use cloud_native_threat_guar.Prelude.{
  ℕ, zero, suc, String, Bool, true, false, not, ◌&&◌, List, [], ◌∷◌, ◌++◌, ◌==◌, is_empty, filter,
  pop, if◌then◌else◌,
}
use cloud_native_threat_guar.Prelude.Text.{member}

pub record Search (E : Type 0) : Type 0 where
  pub paths : List (List E)
  pub path : List E
  pub visited : List String

module _ {E : Type 0} (target : E → String) (adjacent : String → List E) where
  enter : String → Search E → Search E
  enter curr s = record s { visited = curr ∷ s.visited }

  -- Python's `visited.remove(curr)`. The node is in the set: `enter` put it there, and the calls
  -- in between leave the set as they found it.
  leave : String → Search E → Search E
  leave curr s = record s { visited = filter (λ v. not (v == curr)) s.visited }

  -- One round of `for edge in adjacency`, around the recursive call `go`.
  follow : (String → Search E → Search E) → E → Search E → Search E
  follow go edge s =
      if member (target edge) s.visited
      then s
      else let s' = go (target edge) (record s { path = s.path ++ edge ∷ [] }) in
        record s' { path = pop s'.path }

  follow_all : (String → Search E → Search E) → List E → Search E → Search E
  unfolding follow
  follow_all go [] s = s
  follow_all go (edge ∷ edges) s = follow_all go edges (follow go edge s)

  -- The first argument is max_depth + 1 - depth: the guard `depth > max_depth` is the case zero.
  unfoldable pub dfs : ℕ → String → String → Search E → Search E
  unfolding enter leave follow_all
  dfs zero goal curr s = s
  dfs (suc left) goal curr s =
      if (curr == goal) && not (is_empty s.path)
      then record s { paths = s.paths ++ s.path ∷ [] }
      else leave curr (follow_all (dfs left goal) (adjacent curr) (enter curr s))

  -- The call at the end of `find_paths` and of `find_attack_paths`.
  unfoldable pub search : ℕ → String → String → List (List E)
  unfolding dfs
  search max_depth start goal =
      (dfs (suc max_depth) goal start (record { paths = []; path = []; visited = [] })).paths
