-- ===== src/CloudGraph/Escalation/Vectors.antt =====
-- Which findings the escalation analysis makes, in terms of the statements of the policies.
use cloud_native_threat_guar.Prelude.{
  String, Bool, true, false, ◌&&◌, ◌||◌, Option, none, some, List, [], ◌∷◌, ◌++◌, ◌==◌, ◌≡◌, refl,
  sym, ◌∙◌, eq_iff, arith, all, any, filter, if◌then◌else◌, Bool-cases, inl, inr, ap, map,
}
use cloud_native_threat_guar.Prelude.Text.{lower, member}
use cloud_native_threat_guar.CloudGraph.Iam.{
  IamPolicyStatement, IamPolicy, IamPrincipal, IamFinding, PrivilegeEscalationVector,
}
use cloud_native_threat_guar.CloudGraph.Escalation.{
  Signature, escalation_signatures, add, add_actions, add_statements, add_policies, is_matched,
  wildcard_finding, vector_finding, vector_findings, analyze_principal,
}

-- Some statement that allows lists the action, whatever its case.
pub statement_allows : String → IamPolicyStatement → Bool
unfolding lower
statement_allows act stmt = (stmt.effect == "Allow") && any (λ a. act == lower a) stmt.actions

pub policy_allows : String → IamPolicy → Bool
policy_allows act policy = any (statement_allows act) policy.statements

pub allows : IamPrincipal → String → Bool
allows principal act =
    any (policy_allows act) principal.attached_policies
    || any (policy_allows act) principal.inline_policies

member-add : (x y : String) (set : List String) → member x (add set y) ≡ (x == y || member x set)
member-add x y set = elim (Bool-cases (x == y)) [
  | inl e ↦
      let same : member y set ≡ member x set = ap (λ z. member z set) (sym ((eq_iff x y).0 e)) in
      ground arith
  | inr e ↦ ground arith
]

member-add_actions :
    (x : String) (set actions : List String)
    → member x (add_actions set actions) ≡ (member x set || any (λ a. x == lower a) actions)
unfolding add_actions lower
member-add_actions x set [] = ground arith
member-add_actions x set (a ∷ actions) =
    ground (arith, member-add_actions x (add set (lower a)) actions, member-add x (lower a) set)

member-add_statements :
    (x : String) (set : List String) (statements : List IamPolicyStatement)
    → member x (add_statements set statements)
      ≡ (member x set || any (statement_allows x) statements)
unfolding add_statements statement_allows
member-add_statements x set [] = ground arith
member-add_statements x set (s ∷ statements) = ground (
  arith,
  member-add_statements x (add_actions set s.actions) statements,
  member-add_statements x set statements,
  member-add_actions x set s.actions,
)

member-add_policies :
    (x : String) (set : List String) (policies : List IamPolicy)
    → member x (add_policies set policies) ≡ (member x set || any (policy_allows x) policies)
unfolding add_policies policy_allows
member-add_policies x set [] = ground arith
member-add_policies x set (p ∷ policies) = ground (
  arith,
  member-add_policies x (add_statements set p.statements) policies,
  member-add_statements x set p.statements,
)

any-append :
    {A : Type 0} (p : A → Bool) (xs ys : List A) → any p (xs ++ ys) ≡ (any p xs || any p ys)
any-append p [] ys = refl
any-append p (x ∷ xs) ys = ground (arith, any-append p xs ys)

-- Every action of the signature is allowed, by name or by the wildcard.
pub escalates : IamPrincipal → Signature → Bool
unfolding lower
escalates principal (vector, acts) =
    all (λ a. allows principal (lower a) || allows principal "*") acts

pub vectors : List IamFinding → List (Option PrivilegeEscalationVector)
vectors findings = map (λ f. f.escalation_vector) findings

abbrev matched_vectors : List String → List Signature → List (Option PrivilegeEscalationVector)
matched_vectors set signatures = map (λ s. some s.0) (filter (is_matched set) signatures)

vectors-vector_findings :
    (principal : IamPrincipal) (set : List String) (signatures : List Signature)
    → vectors (vector_findings principal set signatures) ≡ matched_vectors set signatures
unfolding vectors vector_findings vector_finding
vectors-vector_findings principal set [] = refl
vectors-vector_findings principal set ((vector, acts) ∷ signatures) =
    elim (Bool-cases (is_matched set (vector, acts))) [
      | inl e ↦ rw e (ap (λ l. some vector ∷ l) (vectors-vector_findings principal set signatures))
      | inr e ↦ rw e (vectors-vector_findings principal set signatures)
    ]

granted_actions : IamPrincipal → List String
unfolding add_policies
granted_actions principal =
    add_policies [] (principal.attached_policies ++ principal.inline_policies)

member-granted_actions :
    (principal : IamPrincipal) (x : String)
    → member x (granted_actions principal) ≡ allows principal x
unfolding granted_actions allows
member-granted_actions principal x =
    member-add_policies x [] (principal.attached_policies ++ principal.inline_policies)
    ∙ any-append (policy_allows x) principal.attached_policies principal.inline_policies

all-granted :
    (principal : IamPrincipal) (acts : List String)
    → all
        (λ a.
          member (lower a) (granted_actions principal) || member "*" (granted_actions principal))
        acts
      ≡ all (λ a. allows principal (lower a) || allows principal "*") acts
all-granted principal [] = refl
all-granted principal (a ∷ acts) =
    rw
      (
        member-granted_actions principal (lower a),
        member-granted_actions principal "*",
        all-granted principal acts,
      )
      refl

filter-matched :
    (principal : IamPrincipal) (signatures : List Signature)
    → filter (is_matched (granted_actions principal)) signatures
      ≡ filter (escalates principal) signatures
unfolding is_matched escalates
filter-matched principal [] = refl
filter-matched principal ((vector, acts) ∷ signatures) =
    rw (all-granted principal acts, filter-matched principal signatures) refl

vectors-append : (fs gs : List IamFinding) → vectors (fs ++ gs) ≡ vectors fs ++ vectors gs
unfolding vectors
vectors-append [] gs = refl
vectors-append (f ∷ fs) gs = ap (λ l. f.escalation_vector ∷ l) (vectors-append fs gs)

vectors-wildcard :
    (principal : IamPrincipal) (b : Bool)
    → vectors (if b then wildcard_finding principal ∷ [] else []) ≡ (if b then none ∷ [] else [])
unfolding vectors wildcard_finding
vectors-wildcard principal true = refl
vectors-wildcard principal false = refl

-- The findings for any table of signatures.
vectors-findings :
    (principal : IamPrincipal) (signatures : List Signature)
    → let set = granted_actions principal in
      vectors (
        (if member "*" set || member "*:*" set then wildcard_finding principal ∷ [] else [])
        ++ vector_findings principal set signatures)
      ≡ (if allows principal "*" || allows principal "*:*" then none ∷ [] else [])
        ++ map (λ s. some s.0) (filter (escalates principal) signatures)
vectors-findings principal signatures =
    let set : List String = granted_actions principal in
    rw
      (
        vectors-append
            (if member "*" set || member "*:*" set then wildcard_finding principal ∷ [] else [])
            (vector_findings principal set signatures),
        vectors-wildcard principal (member "*" set || member "*:*" set),
        vectors-vector_findings principal set signatures,
        member-granted_actions principal "*",
        member-granted_actions principal "*:*",
        filter-matched principal signatures,
      )
      refl

-- The analysis reports the vectors of exactly those signatures whose actions the principal's
-- policies all allow, by name or by the wildcard, in the order of the table; before them stands
-- one finding without a vector if the wildcard `*` or `*:*` is allowed.
pub analyze_principal_lem :
    (principal : IamPrincipal)
    → vectors (analyze_principal principal)
      ≡ (if allows principal "*" || allows principal "*:*" then none ∷ [] else [])
        ++ map (λ s. some s.0) (filter (escalates principal) escalation_signatures)
unfolding analyze_principal granted_actions
analyze_principal_lem principal = vectors-findings principal escalation_signatures
