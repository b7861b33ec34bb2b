-- ===== src/Iam.antt =====
-- The check of the permissions of an AWS role (internal/clients/http/ec2/iam_client.go): ARNs, policy
-- documents, and the calls of IAM. What IAM answers, the unescaping of a document and the parsing of
-- JSON are parameters; a JSON value is what json.Unmarshal makes of it.
pub mod Documents
pub mod Permissions
use provisioning_backend.Common.{
  ℕ, String, Bool, true, false, not, Option, none, some, List, [], ◌∷◌, ◌++◌, any, split, join,
  str_eq, if◌then◌else◌,
}
use provisioning_backend.Errors.{Error, named, opaque, wrapped, arn_parsing, permissions_missing}
use provisioning_backend.World.{Result, ok, err}

-- A value, the elements of an array, and the fields of an object.
mutual
  pub data Json : Type 0 where
    null number : Json
    boolean : Bool → Json
    text : String → Json
    array : Elements → Json
    object : Fields → Json

  pub data Elements : Type 0 where
    end : Elements
    element : Json → Elements → Elements

  pub data Fields : Type 0 where
    no_field : Fields
    field : String → Json → Fields → Fields

-- policy["name"] of a map[string]interface{}
unfoldable pub find_field : String → Fields → Option Json
find_field name no_field = none
find_field name (field n v fields) = if str_eq n name then some v else find_field name fields

-- getPermissionsFromStatement: the texts of an array; what is no text is left out.
unfoldable pub texts_of : Elements → List String
texts_of end = []
texts_of (element (text t) rest) = t ∷ texts_of rest
texts_of (element _ rest) = texts_of rest

abbrev pub actions_of : Option Json → List String
actions_of (some (text action)) = action ∷ []
actions_of (some (array actions)) = texts_of actions
actions_of _ = []

unfoldable pub get_permissions_from_statement : Fields → List String
unfolding find_field texts_of
get_permissions_from_statement fields = actions_of (find_field "Action" fields)

abbrev pub is_allow : Option Json → Bool
is_allow (some (text effect)) = str_eq effect "Allow"
is_allow _ = false

-- getPermissionsFromAllowed
unfoldable pub get_permissions_from_allowed : Json → List String
unfolding get_permissions_from_statement
get_permissions_from_allowed (object fields) =
    if is_allow (find_field "Effect" fields) then get_permissions_from_statement fields else []
get_permissions_from_allowed _ = []

unfoldable pub allowed_of : Elements → List String
unfolding get_permissions_from_allowed
allowed_of end = []
allowed_of (element v rest) = get_permissions_from_allowed v ++ allowed_of rest

abbrev pub statement_field : Option Json → List String
statement_field none = []
statement_field (some (array statements)) = allowed_of statements
statement_field (some v) = get_permissions_from_allowed v

-- The body of getStatementFromJson, for a document that was parsed.
unfoldable pub get_statement : Json → List String
unfolding allowed_of
get_statement (object fields) = statement_field (find_field "Statement" fields)
get_statement _ = []

-- The elements of the second list that are no elements of the first.
unfoldable pub list_missing_permissions : List String → List String → List String
list_missing_permissions statements [] = []
list_missing_permissions statements (action ∷ expected) =
    let rest = list_missing_permissions statements expected in
    if any (λ s. str_eq s action) statements then rest else action ∷ rest

abbrev pub expected_actions : List String
expected_actions =
    "iam:GetPolicyVersion" ∷ "iam:GetPolicy" ∷ "iam:ListAttachedRolePolicies" ∷ "iam:GetRolePolicy"
    ∷ "ec2:CreateKeyPair" ∷ "ec2:CreateLaunchTemplate" ∷ "ec2:CreateLaunchTemplateVersion"
    ∷ "ec2:CreateTags" ∷ "ec2:DeleteKeyPair" ∷ "ec2:DeleteTags" ∷ "ec2:DescribeAvailabilityZones"
    ∷ "ec2:DescribeImages" ∷ "ec2:DescribeInstanceTypes" ∷ "ec2:DescribeInstances"
    ∷ "ec2:DescribeKeyPairs" ∷ "ec2:DescribeLaunchTemplates" ∷ "ec2:DescribeLaunchTemplateVersions"
    ∷ "ec2:DescribeRegions" ∷ "ec2:DescribeSecurityGroups" ∷ "ec2:DescribeSnapshotAttribute"
    ∷ "ec2:DescribeTags" ∷ "ec2:ImportKeyPair" ∷ "ec2:RunInstances" ∷ "ec2:StartInstances"
    ∷ "iam:ListRolePolicies" ∷ []

-- The last part of a text that was split; a split is never empty.
abbrev pub last_part : List String → String
last_part [] = ""
last_part (p ∷ []) = p
last_part (p ∷ q ∷ ps) = last_part (q ∷ ps)

abbrev role_of : List String → String → Result String
role_of (kind ∷ name ∷ []) arn =
    if not (str_eq kind "role") then err (wrapped arn (named arn_parsing)) else ok name
role_of _ arn = err (wrapped arn (named arn_parsing))

-- getRoleName
unfoldable pub get_role_name : String → Result String
get_role_name arn = role_of (split (last_part (split arn b':')) b'/') arn

-- The answers of IAM, and the two libraries.
pub record Iam : Type 0 where
  -- the ARNs of the policies that are attached to a role
  pub list_attached_role_policies : String → Result (List String)
  -- the ARN and the default version of the policy with an ARN
  pub get_policy : String → Result (String × String)
  -- the document of a version of a policy
  pub get_policy_version : String → String → Result String
  pub list_role_policies : String → Result (List String)
  pub get_role_policy : String → String → Result String
  pub query_unescape : String → Result String
  pub unmarshal : String → Result Json

abbrev pub and_then : {A B : Type 0} → Result A → (A → Result B) → Result B
and_then (ok a) f = f a
and_then (err x) f = err x

abbrev pub annotated : {A : Type 0} → String → Result A → Result A
annotated message (ok a) = ok a
annotated message (err x) = err (wrapped message x)

-- A loop that puts one result for each element into a slice, and returns at the first error.
unfoldable pub each : {A B : Type 0} → (A → Result B) → List A → Result (List B)
each f [] = ok []
each f (a ∷ as_left) = and_then (f a) (λ b. and_then (each f as_left) (λ bs. ok (b ∷ bs)))

module _ (iam : Iam) where
  -- listAttachedRolePolicies
  unfoldable pub list_attached_role_policies : String → Result (List String)
  list_attached_role_policies role_name =
      annotated "cannot list attached role policies" (iam.list_attached_role_policies role_name)

  -- listInlineRolePolicies: the documents as they come.
  unfoldable pub list_inline_role_policies : String → Result (List String)
  unfolding each
  list_inline_role_policies role_name =
      and_then (annotated "cannot list inline role policies" (iam.list_role_policies role_name)) (
        each
          (λ name. annotated "cannot get inline role policy" (iam.get_role_policy role_name name)))

  -- listPoliciesFromAttached
  unfoldable pub list_policies_from_attached : List String → Result (List (String × String))
  unfolding each
  list_policies_from_attached =
      each (λ arn. annotated "cannot get policy for policy arn" (iam.get_policy arn))

  -- listPolicyVersions
  unfoldable pub list_policy_versions : List (String × String) → Result (List String)
  unfolding each
  list_policy_versions = each (λ (p : String × String).
      annotated "cannot get policy version" (iam.get_policy_version p.0 p.1))

  -- getJsonFromAWSDocument and getStatementFromJson of one document
  unfoldable pub statements_of : String → Result (List String)
  unfolding get_statement
  statements_of document =
      and_then
        (annotated "could not get JSON from AWS document"
          (annotated "could not parse URL from the document" (iam.query_unescape document)))
        (λ json.
          and_then
            (annotated "could not fetch statement from AWS document"
              (annotated "could not unmarshal json" (iam.unmarshal json)))
            (λ policy. ok (get_statement policy)))

  -- listStatements
  unfoldable pub list_statements : List String → Result (List String)
  unfolding statements_of
  list_statements [] = ok []
  list_statements (version ∷ versions) =
      and_then (statements_of version)
        (λ found. and_then (list_statements versions) (λ rest. ok (found ++ rest)))

  -- The missing permissions, and the error: nil is `none`.
  abbrev pub Answer : Type 0
  Answer = List String × Option Error

  -- checkInlinePolicies: the test is on the permissions that were missing before.
  unfoldable pub check_inline_policies : List String → String → Answer
  unfolding list_inline_role_policies list_missing_permissions
  check_inline_policies [] role_name = elim (list_inline_role_policies role_name) [
    | err x ↦ ([], some (wrapped "could not list inline policy documents" x))
    | ok documents ↦ ([], none)
  ]
  check_inline_policies (p ∷ ps) role_name = elim (list_inline_role_policies role_name) [
    | err x ↦ ([], some (wrapped "could not list inline policy documents" x))
    | ok documents ↦
        let missing = list_missing_permissions documents (p ∷ ps) in
        (missing, some (wrapped (join missing ", ") (named permissions_missing)))
  ]

  -- The statements of the policies that are attached to the role of an ARN.
  unfoldable pub attached_statements : String → Result (String × List String)
  unfolding get_role_name list_attached_role_policies list_policies_from_attached
      list_policy_versions list_statements
  attached_statements arn =
      and_then (annotated "unable to parse ARN" (get_role_name arn)) (λ role_name.
        and_then (list_attached_role_policies role_name) (λ attached.
          and_then (annotated "could not get policies" (list_policies_from_attached attached))
            (λ policies.
              and_then (annotated "could not get policy versions" (list_policy_versions policies))
                (λ versions.
                  and_then (annotated "could not list statements" (list_statements versions))
                    (λ statements. ok (role_name, statements))))))

  abbrev pub missing_answer : List String → String → Answer
  missing_answer [] role_name = ([], none)
  missing_answer (p ∷ ps) role_name = check_inline_policies (p ∷ ps) role_name

  unfoldable pub answer_of : Result (String × List String) → Answer
  unfolding list_missing_permissions check_inline_policies
  answer_of (err x) = ([], some x)
  answer_of (ok (role_name, statements)) =
      missing_answer (list_missing_permissions statements expected_actions) role_name

  -- CheckPermission, of the payload of an authentication.
  unfoldable pub check_permission : String → Answer
  unfolding attached_statements answer_of
  check_permission arn = answer_of (attached_statements arn)
