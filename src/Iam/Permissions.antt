-- ===== src/Iam/Permissions.antt =====
-- When CheckPermission finds nothing missing.
use provisioning_backend.Common.{
  ◌≡◌, ◌↔◌, refl, String, Bool-cases, true, inl, inr, none, List, [], ◌∷◌, ◌++◌, any, Any, str_eq,
  eq_iff, arith,
}
use provisioning_backend.World.{Result, ok, err}
use provisioning_backend.Iam.{
  Json, Iam, and_then, annotated, each, get_statement, get_role_name, list_missing_permissions,
  expected_actions, statements_of, list_statements, list_attached_role_policies,
  list_policies_from_attached, list_policy_versions, check_inline_policies, attached_statements,
  missing_answer, answer_of, check_permission,
}
use provisioning_backend.Iam.Documents.{In, In-append, Grants, get_statement-Grants}

and_then-ok :
    {A B : Type 0} (r : Result A) (f : A → Result B) (b : B)
    → and_then r f ≡ ok b
    → (a : A) × (r ≡ ok a) × (f a ≡ ok b)
and_then-ok (ok a) f b e = (a, refl, e)
and_then-ok (err x) f b e = absurd (cc)

annotated-ok : {A : Type 0} (m : String) (r : Result A) (a : A) → annotated m r ≡ ok a → r ≡ ok a
annotated-ok m (ok b) a e = e
annotated-ok m (err x) a e = absurd (cc)

each-cons-ok :
    {A B : Type 0} (f : A → Result B) (a : A) (as_left : List A) (l : List B)
    → each f (a ∷ as_left) ≡ ok l
    → (b : B) × (f a ≡ ok b) × ((bs : List B) × (each f as_left ≡ ok bs) × (l ≡ b ∷ bs))
unfolding each
each-cons-ok f a as_left l e =
    let (b, p, r) = and_then-ok (f a) _ l e in
    let (bs, q, s) = and_then-ok (each f as_left) _ l r in (b, p, (bs, q, cc))

any_iff : (a : String) (l : List String) → (any (λ s. str_eq s a) l ≡ true) ↔ In a l
any_iff a [] = (λ e. cc, λ h. elim h [ ])
any_iff a (x ∷ l) = elim (Bool-cases (str_eq x a)) [
  | inl t ↦ (λ e. inl ((eq_iff x a).0 t), λ h. rw t refl)
  | inr f ↦ (
    λ e. inr ((any_iff a l).0 (rw f at e)),
    λ h. elim h [ inl e ↦ absurd (cc ((eq_iff x a).1 e)) | inr i ↦ rw f ((any_iff a l).1 i) ],
  )
]

-- Nothing is missing exactly where every expected action is there.
list_missing_permissions-nil_iff :
    (statements expected : List String)
    → (list_missing_permissions statements expected ≡ [])
      ↔ ((a : String) → In a expected → In a statements)
unfolding list_missing_permissions
list_missing_permissions-nil_iff statements [] = (λ e a h. elim h [ ], λ h. refl)
list_missing_permissions-nil_iff statements (action ∷ expected) =
    let ih = list_missing_permissions-nil_iff statements expected in
    elim (Bool-cases (any (λ s. str_eq s action) statements)) [
      | inl t ↦ (
        λ e a h. elim h [
          | inl same ↦ rw (← same) ((any_iff action statements).0 t)
          | inr i ↦ ih.0 (rw t at e) a i
        ],
        λ h. rw t (ih.1 (λ a i. h a (inr i))),
      )
      | inr f ↦ (
        λ e.
            let e' : action ∷ list_missing_permissions statements expected ≡ [] = rw f at e in
            absurd (cc),
        λ h. absurd (cc ((any_iff action statements).1 (h action (inl refl)))),
      )
    ]

module _ (iam : Iam) where
  -- The document of the default version of the policy with the ARN, unescaped and parsed.
  abbrev pub DocumentOf : String → Json → Type 0
  DocumentOf arn document =
      (p : String × String) × (iam.get_policy arn ≡ ok p)
      × ((version : String) × (iam.get_policy_version p.0 p.1 ≡ ok version)
          × ((json : String) × (iam.query_unescape version ≡ ok json)
              × (iam.unmarshal json ≡ ok document)))

  abbrev pub Documents : List String → List Json → Type 0
  Documents [] [] = Unit
  Documents [] (d ∷ ds) = ⊥
  Documents (a ∷ arns) [] = ⊥
  Documents (a ∷ arns) (d ∷ ds) = DocumentOf a d × Documents arns ds

  -- One of the documents grants the action.
  abbrev pub Granted : String → List Json → Type 0
  Granted a = Any (Grants a)

  statements_of-ok :
      (version : String) (sts : List String)
      → statements_of iam version ≡ ok sts
      → (json : String) × (iam.query_unescape version ≡ ok json)
        × ((d : Json) × (iam.unmarshal json ≡ ok d) × (get_statement d ≡ sts))
  unfolding statements_of
  statements_of-ok version sts e =
      let (json, u, r) = and_then-ok _ _ sts e in
      let (d, p, q) = and_then-ok _ _ sts r in
      (
        json,
        annotated-ok _ _ json (annotated-ok _ _ json u),
        (d, annotated-ok _ _ d (annotated-ok _ _ d p), cc),
      )

  Granted-cons :
      (a : String) (d : Json) (ds : List Json) (rest : List String)
      → In a rest ↔ Granted a ds
      → In a (get_statement d ++ rest) ↔ Granted a (d ∷ ds)
  Granted-cons a d ds rest h = (
    λ i. elim ((In-append a (get_statement d) rest).0 i) [
      | inl x ↦ inl ((get_statement-Grants a d).0 x)
      | inr y ↦ inr (h.0 y)
    ],
    λ g.
        (In-append a (get_statement d) rest).1
          (elim g [ inl x ↦ inl ((get_statement-Grants a d).1 x) | inr y ↦ inr (h.1 y) ]),
  )

  Granted-append :
      (a : String) (d : Json) (ds : List Json) (found rest sts : List String)
      → get_statement d ≡ found
      → sts ≡ found ++ rest
      → In a rest ↔ Granted a ds
      → In a sts ↔ Granted a (d ∷ ds)
  Granted-append a d ds found rest sts says e h = rw e (rw (← says) (Granted-cons a d ds rest h))

  statements_fetched :
      (arns : List String) (policies : List (String × String)) (versions sts : List String)
      → list_policies_from_attached iam arns ≡ ok policies
      → list_policy_versions iam policies ≡ ok versions
      → list_statements iam versions ≡ ok sts
      → (ds : List Json) × Documents arns ds × ((a : String) → In a sts ↔ Granted a ds)
  unfolding list_policies_from_attached list_policy_versions list_statements each
  statements_fetched [] policies versions sts p v s =
      let e : policies ≡ [] = cc in
      let v' : list_policy_versions iam [] ≡ ok versions = rw e at v in
      let e' : versions ≡ [] = cc in
      let s' : list_statements iam [] ≡ ok sts = rw e' at s in
      let e'' : sts ≡ [] = cc in ([], tt, λ a. rw e'' (λ h. h, λ h. h))
  statements_fetched (arn ∷ arns) policies versions sts p v s =
      let (policy, got, (policies', rest, e)) = each-cons-ok _ arn arns policies p in
      let (version, got', (versions', rest', e')) =
        each-cons-ok _ policy policies' versions (rw e at v) in
      let (found, here, r) = and_then-ok (statements_of iam version) _ sts (rw e' at s) in
      let (found', there, r') = and_then-ok (list_statements iam versions') _ sts r in
      let (json, u, (d, parsed, says)) = statements_of-ok version found here in
      let (ds, docs, all) = statements_fetched arns policies' versions' found' rest rest' there in
      let e'' : sts ≡ found ++ found' = cc in
      (
        d ∷ ds,
        (
          (
            policy,
            annotated-ok _ _ policy got,
            (version, annotated-ok _ _ version got', (json, u, parsed)),
          ),
          docs,
        ),
        λ a. Granted-append a d ds found found' sts says e'' (all a),
      )

  fetch_succeeds :
      (arns : List String) (ds : List Json)
      → Documents arns ds
      → (policies : List (String × String)) × (list_policies_from_attached iam arns ≡ ok policies)
        × ((versions : List String) × (list_policy_versions iam policies ≡ ok versions)
            × ((sts : List String) × (list_statements iam versions ≡ ok sts)
                × ((a : String) → In a sts ↔ Granted a ds)))
  unfolding list_policies_from_attached list_policy_versions list_statements each statements_of
  fetch_succeeds [] [] h = ([], refl, ([], refl, ([], refl, λ a. (λ i. i, λ g. g))))
  fetch_succeeds [] (d ∷ ds) h = elim h [ ]
  fetch_succeeds (arn ∷ arns) [] h = elim h [ ]
  fetch_succeeds (arn ∷ arns) (d ∷ ds) ((policy, got, (version, got', (json, u, parsed))), docs) =
      let (policies, p, (versions, v, (sts, s, all))) = fetch_succeeds arns ds docs in
      (
        policy ∷ policies,
        rw (got, p) refl,
        (
          version ∷ versions,
          rw (got', v) refl,
          (get_statement d ++ sts, rw (u, parsed, s) refl, λ a. Granted-cons a d ds sts (all a)),
        ),
      )

  -- Whatever the inline policies say, the answer to missing permissions is an error.
  missing_answer-error :
      (missing : List String) (role_name : String)
      → (missing_answer iam missing role_name).1 ≡ none
      → missing ≡ []
  unfolding check_inline_policies
  missing_answer-error [] role_name h = refl
  missing_answer-error (p ∷ ps) role_name h = absurd (ground arith)

  -- The role of the ARN, the documents of what is attached to it, and all that is expected in them.
  abbrev pub Permitted : String → Type 0
  Permitted arn =
      (role_name : String) × (get_role_name arn ≡ ok role_name)
      × ((attached : List String) × (iam.list_attached_role_policies role_name ≡ ok attached)
          × ((documents : List Json) × Documents attached documents
              × ((a : String) → In a expected_actions → Granted a documents)))

  answer_of-none :
      (r : Result (String × List String))
      → (answer_of iam r).1 ≡ none
      → (role_name : String) × (statements : List String) × (r ≡ ok (role_name, statements))
        × (list_missing_permissions statements expected_actions ≡ [])
  unfolding answer_of
  answer_of-none (err x) h = absurd (cc)
  answer_of-none (ok (role_name, statements)) h =
      (role_name, statements, refl, missing_answer-error _ role_name h)

  check_permission-Permitted : (arn : String) → (check_permission iam arn).1 ≡ none → Permitted arn
  unfolding check_permission attached_statements list_attached_role_policies
  check_permission-Permitted arn h =
      let (role_name, statements, e, nothing) = answer_of-none (attached_statements iam arn) h in
      let (role, named_role, e1) = and_then-ok _ _ _ e in
      let (attached, listed, e2) = and_then-ok _ _ _ e1 in
      let (policies, p, e3) = and_then-ok _ _ _ e2 in
      let (versions, v, e4) = and_then-ok _ _ _ e3 in
      let (sts, s, e5) = and_then-ok _ _ _ e4 in
      let (ds, docs, all) =
        statements_fetched attached policies versions sts (annotated-ok _ _ _ p)
          (annotated-ok _ _ _ v) (annotated-ok _ _ _ s) in
      let same : sts ≡ statements = cc in
      (
        role,
        annotated-ok _ _ _ named_role,
        (
          attached,
          annotated-ok _ _ _ listed,
          (
            ds,
            docs,
            λ a i. (all a).0 (
                rw same
                  ((list_missing_permissions-nil_iff statements expected_actions).0 nothing a i)),
          ),
        ),
      )

  check_permission-none : (arn : String) → Permitted arn → (check_permission iam arn).1 ≡ none
  unfolding check_permission attached_statements list_attached_role_policies answer_of
  check_permission-none arn (role_name, r, (attached, l, (documents, docs, all))) =
      let (policies, p, (versions, v, (sts, s, says))) = fetch_succeeds attached documents docs in
      rw
        (
          r,
          l,
          p,
          v,
          s,
          (list_missing_permissions-nil_iff sts expected_actions).1 (λ a i. (says a).1 (all a i)),
        )
        refl

-- CheckPermission returns no error exactly when the ARN names a role, IAM answers for the policies that are
-- attached to it and for their default versions, each of these is escaped JSON, and every action that the
-- program expects is granted by one of these documents. Inline policies of the role never help.
pub check_permission-none_iff :
    (iam : Iam) (arn : String) → ((check_permission iam arn).1 ≡ none) ↔ Permitted iam arn
check_permission-none_iff iam arn =
    (check_permission-Permitted iam arn, check_permission-none iam arn)
