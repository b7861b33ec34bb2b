-- ===== src/Middleware/Identities.antt =====
-- What an identity must have to reach the handlers.
use provisioning_backend.Common.{
  ℕ, String, ◌≡◌, ◌≢◌, ◌⊎◌, inl, inr, refl, List, [], ◌∷◌, true, not, ◌&&◌, str_eq, eq_iff, arith,
  sym, ap, ◌↔◌, if_elim, Bool-cases,
}
use provisioning_backend.World.{Result, ok, err}
use provisioning_backend.Middleware.{
  Identity, Passage, next, answered, top_level_org_id_fallback, check_header, enforce_identity,
  checked, parsed, read_header,
}

-- An identity that needs no organization.
abbrev pub Exempt : Identity → Type 0
Exempt id = ((id.type ≡ "Associate") ⊎ (id.type ≡ "X509")) × (id.account_number ≡ "")

-- It has an organization and a type, or needs none.
abbrev pub Admitted : Identity → Type 0
Admitted id = Exempt id ⊎ ((id.org_id ≢ "") × (id.type ≢ ""))

-- The organization is the one at the top, or else the internal one; nothing else is changed.
abbrev pub FallsBack : Identity → Identity → Type 0
FallsBack sent id =
    ((sent.org_id ≢ "") × (id ≡ sent))
    ⊎ ((sent.org_id ≡ "") × (id ≡ record sent { org_id = sent.internal_org_id }))

abbrev identity : String → String → String → String → Identity
identity t n o i = record { type = t; account_number = n; org_id = o; internal_org_id = i }

fallback-elim :
    (P : Identity → Type 0) (t n o i : String)
    → (o ≢ "" → P (identity t n o i))
    → (o ≡ "" → P (identity t n i i))
    → P (top_level_org_id_fallback (identity t n o i))
unfolding top_level_org_id_fallback
fallback-elim P t n o i h k = elim (Bool-cases (str_eq o "")) [
  | inl e ↦
      let blank : o ≡ "" = (eq_iff o "").0 e in
      if_elim P (str_eq o "" && not (str_eq i "")) _ _ (λ _. k blank)
        (λ d.
          let same : i ≡ o = ground (arith, eq_iff i "") in
          let p = k blank in rw same (rw same at p))
  | inr e ↦ rw e (h (ground (arith, eq_iff o "")))
]

check_header-Admitted :
    (t n o i : String)
    → (o ≡ "" → i ≡ "")
    → ((check_header (identity t n o i) ≡ true) ↔ Admitted (identity t n o i))
unfolding check_header
check_header-Admitted t n o i h = ground (
  arith,
  eq_iff t "Associate",
  eq_iff t "X509",
  eq_iff n "",
  eq_iff o "",
  eq_iff i "",
  eq_iff t "",
)

status_of : Passage Identity → ℕ
status_of (next a) = 200
status_of (answered n) = n

module _ (decode : String → Result String) (unmarshal : String → Result Identity) where
  id_of : Passage Identity → Identity → Identity
  id_of (next a) b = a
  id_of (answered n) b = b

  checked_iff :
      (id sent : Identity)
      → ((check_header sent ≡ true) ↔ Admitted sent)
      → (checked decode unmarshal sent ≡ next id) ↔ ((id ≡ sent) × Admitted id)
  unfolding id_of
  checked_iff id sent (f, g) = (
    if_elim (λ p. p ≡ next id → (id ≡ sent) × Admitted id) (check_header sent) (next sent)
        (answered 403)
        (λ c e. let same : id ≡ sent = sym (ap (λ p. id_of p id) e) in (same, rw same (f c)))
        (λ c e. absurd (cc)),
    λ (same, a). let c = g (rw same at a) in rw c (cc),
  )

  parsed_iff :
      (id : Identity) (t n o i : String)
      → (parsed decode unmarshal (ok (identity t n o i)) ≡ next id)
        ↔ (FallsBack (identity t n o i) id × Admitted id)
  parsed_iff id t n o i =
      fallback-elim
        (λ x.
          (checked decode unmarshal x ≡ next id) ↔ (FallsBack (identity t n o i) id × Admitted id))
        t n o i
        (λ some_org.
          let (f, g) =
            checked_iff id (identity t n o i)
              (check_header-Admitted t n o i (λ e. absurd (some_org e))) in
          (
            λ e. (inl (some_org, (f e).0), (f e).1),
            λ h. elim h.0 [
              | inl (_, same) ↦ g (same, h.1)
              | inr (blank, _) ↦ absurd (some_org blank)
            ],
          ))
        (λ no_org.
          let (f, g) = checked_iff id (identity t n i i) (check_header-Admitted t n i i (λ e. e)) in
          (
            λ e. (inr (no_org, (f e).0), (f e).1),
            λ h. elim h.0 [ inl (org, _) ↦ absurd (org no_org) | inr (_, same) ↦ g (same, h.1) ],
          ))

-- EnforceIdentity lets a request through with an identity exactly if there is one header, which decodes to it
-- up to the organization that stands in, and the identity has an organization and a type or needs none.
pub enforce_identity-Admitted_iff :
    (decode : String → Result String) (unmarshal : String → Result Identity) (headers : List String)
    (id : Identity)
    → (enforce_identity decode unmarshal headers ≡ next id) ↔ (
        (h : String) × (raw : String) × (sent : Identity) × (headers ≡ h ∷ [])
        × (decode h ≡ ok raw)
        × (unmarshal raw ≡ ok sent)
        × FallsBack sent id
        × Admitted id)
unfolding enforce_identity
enforce_identity-Admitted_iff decode unmarshal headers id = (
  sent_of headers,
  λ (h, raw, sent, hs, d, u, fb, adm). rw hs (
      rw d (
        rw u (
          (parsed_iff decode unmarshal id sent.type sent.account_number sent.org_id
              sent.internal_org_id).1
            (fb, adm)))),
)
  where
    Sent : List String → Type 0
    Sent hs =
        (h : String) × (raw : String) × (sent : Identity) × (hs ≡ h ∷ [])
        × (decode h ≡ ok raw)
        × (unmarshal raw ≡ ok sent)
        × FallsBack sent id
        × Admitted id

    by_identity :
        (h raw : String)
        → decode h ≡ ok raw
        → (r : Result Identity) → unmarshal raw ≡ r
        → parsed decode unmarshal r ≡ next id
        → Sent (h ∷ [])
    by_identity h raw d (ok sent) u e =
        let (back, adm) =
          (parsed_iff decode unmarshal id sent.type sent.account_number sent.org_id
              sent.internal_org_id).0
            e in
        (h, raw, sent, refl, d, u, back, adm)
    by_identity h raw d (err x) u e = absurd (cc)

    by_raw :
        (h : String) (r : Result String)
        → decode h ≡ r
        → read_header decode unmarshal r ≡ next id
        → Sent (h ∷ [])
    by_raw h (ok raw) d e = by_identity h raw d (unmarshal raw) refl e
    by_raw h (err x) d e = absurd (cc)

    sent_of : (hs : List String) → enforce_identity decode unmarshal hs ≡ next id → Sent hs
    sent_of [] e = absurd (cc)
    sent_of (h ∷ []) e = by_raw h (decode h) refl e
    sent_of (h ∷ g ∷ hs) e = absurd (cc)

-- Every other request is answered with 403.
pub enforce_identity-answered :
    (decode : String → Result String) (unmarshal : String → Result Identity) (headers : List String)
    (status : ℕ)
    → enforce_identity decode unmarshal headers ≡ answered status
    → status ≡ 403
unfolding enforce_identity status_of
enforce_identity-answered decode unmarshal headers status e = by_headers headers e
  where
    by_check : (id : Identity) → checked decode unmarshal id ≡ answered status → status ≡ 403
    by_check id =
        if_elim (λ p. p ≡ answered status → status ≡ 403) (check_header id) (next id) (answered 403)
          (λ c e. absurd (cc)) (λ c e. ap (status_of) (sym e))

    by_identity : (r : Result Identity) → parsed decode unmarshal r ≡ answered status → status ≡ 403
    by_identity (err x) e = ap (status_of) (sym e)
    by_identity (ok sent) e = by_check (top_level_org_id_fallback sent) e

    by_raw : (r : Result String) → read_header decode unmarshal r ≡ answered status → status ≡ 403
    by_raw (err x) e = ap (status_of) (sym e)
    by_raw (ok raw) e = by_identity (unmarshal raw) e

    by_headers :
        (hs : List String) → enforce_identity decode unmarshal hs ≡ answered status → status ≡ 403
    by_headers [] e = ap (status_of) (sym e)
    by_headers (h ∷ []) e = by_raw (decode h) e
    by_headers (h ∷ g ∷ hs) e = ap (status_of) (sym e)
