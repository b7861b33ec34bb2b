-- ===== src/Iam/Documents.antt =====
-- Which actions a policy document allows, said of the document itself.
use provisioning_backend.Common.{
  ◌≡◌, ◌↔◌, ◌⊎◌, refl, ap, String, true, inl, inr, Option, none, some, List, [], ◌∷◌, ◌++◌, Any,
  eq_iff, if_elim,
}
use provisioning_backend.Iam.{
  Json, Elements, Fields, null, text, array, object, end, element, find_field, texts_of, actions_of,
  is_allow, get_permissions_from_statement, get_permissions_from_allowed, allowed_of,
  statement_field, get_statement,
}

abbrev pub In : String → List String → Type 0
In a = Any (λ x. x ≡ a)

pub In-append : (a : String) (xs ys : List String) → In a (xs ++ ys) ↔ (In a xs ⊎ In a ys)
In-append a xs ys = (split_in xs, join_in xs)
  where
    split_in : (xs : List String) → In a (xs ++ ys) → In a xs ⊎ In a ys
    split_in [] h = inr h
    split_in (x ∷ xs) (inl e) = inl (inl e)
    split_in (x ∷ xs) (inr h) = elim (split_in xs h) [ inl i ↦ inl (inr i) | inr j ↦ inr j ]

    join_in : (xs : List String) → In a xs ⊎ In a ys → In a (xs ++ ys)
    join_in [] (inl h) = elim h [ ]
    join_in [] (inr h) = h
    join_in (x ∷ xs) (inl (inl e)) = inl e
    join_in (x ∷ xs) (inl (inr i)) = inr (join_in xs (inl i))
    join_in (x ∷ xs) (inr j) = inr (join_in xs (inr j))

abbrev pub ElementOf : Json → Elements → Type 0
ElementOf v end = ⊥
ElementOf v (element w rest) = (w ≡ v) ⊎ ElementOf v rest

-- The value is one text, or an array with it.
abbrev pub Names : String → Json → Type 0
Names a v = (v ≡ text a) ⊎ ((l : Elements) × (v ≡ array l) × ElementOf (text a) l)

-- The statement has the effect Allow and names the action.
abbrev pub Allows : String → Json → Type 0
Allows a s =
    (fields : Fields) × (s ≡ object fields)
    × (find_field "Effect" fields ≡ some (text "Allow"))
    × ((v : Json) × (find_field "Action" fields ≡ some v) × Names a v)

-- The document has a statement, or an array with one, that allows the action.
abbrev pub Grants : String → Json → Type 0
Grants a document =
    (fields : Fields) × (document ≡ object fields)
    × ((v : Json) × (find_field "Statement" fields ≡ some v)
        × (Allows a v
            ⊎ ((l : Elements) × (v ≡ array l) × ((s : Json) × ElementOf s l × Allows a s))))

texts_of-to : (a : String) (l : Elements) → In a (texts_of l) → ElementOf (text a) l
unfolding texts_of
texts_of-to a end h = h
texts_of-to a (element (text t) rest) (inl e) = inl (ap text e)
texts_of-to a (element (text t) rest) (inr h) = inr (texts_of-to a rest h)
texts_of-to a (element null rest) h = inr (texts_of-to a rest h)
texts_of-to a (element _ rest) h = inr (texts_of-to a rest h)

texts_of-from : (a : String) (l : Elements) → ElementOf (text a) l → In a (texts_of l)
unfolding texts_of
texts_of-from a end h = h
texts_of-from a (element (text t) rest) (inl e) = inl (cc)
texts_of-from a (element (text t) rest) (inr h) = inr (texts_of-from a rest h)
texts_of-from a (element null rest) (inl e) = absurd (cc)
texts_of-from a (element null rest) (inr h) = texts_of-from a rest h
texts_of-from a (element _ rest) (inl e) = absurd (cc)
texts_of-from a (element _ rest) (inr h) = texts_of-from a rest h

actions_of-to :
    (a : String) (o : Option Json) → In a (actions_of o) → (v : Json) × (o ≡ some v) × Names a v
actions_of-to a none h = elim h [ ]
actions_of-to a (some (text t)) (inl e) = (text t, refl, inl (ap text e))
actions_of-to a (some (text t)) (inr h) = elim h [ ]
actions_of-to a (some (array l)) h = (array l, refl, inr (l, refl, texts_of-to a l h))
actions_of-to a (some _) h = elim h [ ]

actions_of-from :
    (a : String) (o : Option Json) (v : Json) → o ≡ some v → Names a v → In a (actions_of o)
actions_of-from a o v e (inl n) = rw e (rw n (inl refl))
actions_of-from a o v e (inr (l, n, h)) = rw e (rw n (texts_of-from a l h))

is_allow_iff : (o : Option Json) → (is_allow o ≡ true) ↔ (o ≡ some (text "Allow"))
is_allow_iff none = (λ e. absurd (cc), λ e. absurd (cc))
is_allow_iff (some (text t)) =
    (λ e. ap (λ u. some (text u)) ((eq_iff t "Allow").0 e), λ e. (eq_iff t "Allow").1 (cc))
is_allow_iff (some null) = (λ e. absurd (cc), λ e. absurd (cc))
is_allow_iff (some _) = (λ e. absurd (cc), λ e. absurd (cc))

allowed-to : (a : String) (s : Json) → In a (get_permissions_from_allowed s) → Allows a s
unfolding get_permissions_from_allowed get_permissions_from_statement
allowed-to a (object fields) =
    if_elim (λ l. In a l → Allows a (object fields)) (is_allow (find_field "Effect" fields)) _ []
      (λ t h. (
        fields,
        refl,
        (is_allow_iff (find_field "Effect" fields)).0 t,
        actions_of-to a (find_field "Action" fields) h,
      ))
      (λ f h. elim h [ ])
allowed-to a null = λ h. elim h [ ]
allowed-to a _ = λ h. elim h [ ]

allowed-from : (a : String) (s : Json) → Allows a s → In a (get_permissions_from_allowed s)
unfolding get_permissions_from_allowed get_permissions_from_statement
allowed-from a s (fields, e, eff, (v, act, n)) = rw e (
    rw ((is_allow_iff (find_field "Effect" fields)).1 eff)
      (actions_of-from a (find_field "Action" fields) v act n))

allowed_of-to :
    (a : String) (l : Elements) → In a (allowed_of l) → (s : Json) × ElementOf s l × Allows a s
unfolding allowed_of
allowed_of-to a end h = elim h [ ]
allowed_of-to a (element v rest) h =
    elim ((In-append a (get_permissions_from_allowed v) (allowed_of rest)).0 h) [
      | inl i ↦ (v, inl refl, allowed-to a v i)
      | inr j ↦ let (s, m, al) = allowed_of-to a rest j in (s, inr m, al)
    ]

allowed_of-from :
    (a : String) (l : Elements) (s : Json) → ElementOf s l → Allows a s → In a (allowed_of l)
unfolding allowed_of
allowed_of-from a end s m al = elim m [ ]
allowed_of-from a (element v rest) s (inl e) al =
    (In-append a (get_permissions_from_allowed v) (allowed_of rest)).1
      (inl (allowed-from a v (rw e al)))
allowed_of-from a (element v rest) s (inr m) al =
    (In-append a (get_permissions_from_allowed v) (allowed_of rest)).1
      (inr (allowed_of-from a rest s m al))

-- What the document says in its field "Statement".
abbrev pub Stated : String → Json → Type 0
Stated a v =
    Allows a v ⊎ ((l : Elements) × (v ≡ array l) × ((s : Json) × ElementOf s l × Allows a s))

statement_field-to :
    (a : String) (o : Option Json)
    → In a (statement_field o)
    → (v : Json) × (o ≡ some v) × Stated a v
statement_field-to a none h = elim h [ ]
statement_field-to a (some (array l)) h = (array l, refl, inr (l, refl, allowed_of-to a l h))
statement_field-to a (some null) h = (null, refl, inl (allowed-to a null h))
statement_field-to a (some v) h = (v, refl, inl (allowed-to a v h))

stated_some : (a : String) (v : Json) → Allows a v → In a (statement_field (some v))
stated_some a (array l) (fields, e, eff, act) = absurd (cc)
stated_some a null al = allowed-from a null al
stated_some a v al = allowed-from a v al

statement_field-from :
    (a : String) (o : Option Json) (v : Json) → o ≡ some v → Stated a v → In a (statement_field o)
statement_field-from a o v e (inl al) = rw e (stated_some a v al)
statement_field-from a o v e (inr (l, e', (s, m, al))) = rw e (rw e' (allowed_of-from a l s m al))

-- The permissions that are read from a parsed policy document are exactly the actions that it grants: it
-- is an object whose field "Statement" is a statement or an array of them, and one of these has the effect
-- "Allow" and, in its field "Action", the action as a text or in an array.
pub get_statement-Grants :
    (a : String) (document : Json) → In a (get_statement document) ↔ Grants a document
unfolding get_statement
get_statement-Grants a (object fields) = (
  λ h. (fields, refl, statement_field-to a (find_field "Statement" fields) h),
  λ (f, e, (v, st, g)).
      let same : fields ≡ f = cc in
      statement_field-from a (find_field "Statement" fields) v (rw same st) g,
)
get_statement-Grants a null = (λ h. elim h [ ], λ (f, e, r). absurd (cc))
get_statement-Grants a _ = (λ h. elim h [ ], λ (f, e, r). absurd (cc))
