-- ===== src/Backends/ImageBuilder/Images.antt =====
-- Which image a compose id is translated to.
use provisioning_backend.Common.{
  ◌≡◌, ◌⊎◌, ◌↔◌, refl, sym, ap, ◌∙◌, String, not, inl, inr, Option, none, some, str_eq, eq_iff,
  eq_refl, if◌then◌else◌, arith,
}
use provisioning_backend.Errors.{
  Error, named, wrapped, bad_request, clone_not_found, compose_not_found, image_status,
}
use provisioning_backend.Backends.Outcome.{
  Outcome, ok, err, panic, annotate, deref, Response, check_status, >>=-ok, annotate-ok, deref-ok,
}
use provisioning_backend.Backends.ImageBuilder.{
  UploadStatus, ComposeStatus, Builder, success, valid, as_error, get_compose_status, check_compose,
  check_clone, or_clone, fetch_image_status, get_aws_ami,
}

unless :
    {A : Type 0} (s t : String) (x : Error) (o : Outcome A) (a : A)
    → (if not (str_eq s t) then err x else o) ≡ ok a
    → (s ≡ t) × (o ≡ ok a)
unless s t x o a e = ground (arith, eq_iff s t)

unless_of :
    {A : Type 0} (s t : String) (x : Error) (o : Outcome A)
    → s ≡ t
    → (if not (str_eq s t) then err x else o) ≡ o
unless_of s t x o e = rw (e, eq_refl t) refl

as_error-ok : {A : Type 0} (x : Error) (o : Outcome A) (a : A) → as_error x o ≡ ok a → o ≡ ok a
as_error-ok x (ok b) a e = e
as_error-ok x (err y) a e = absurd (cc)
as_error-ok x panic a e = absurd (cc)

module _ (builder : Builder) (id : String) where
  -- Image Builder answers for a compose, which succeeded, with the status of its upload.
  abbrev pub Composed : UploadStatus → Type 0
  Composed u =
      (resp : Response ComposeStatus) × (builder.get_compose_status id ≡ ok resp)
      × (check_status "fetch image status call" compose_not_found resp.status ≡ ok tt)
      × ((compose : ComposeStatus) × (resp.json200 ≡ some compose)
          × (compose.status ≡ success)
          × (compose.upload_status ≡ some u))

  -- Image Builder answers for a clone, which succeeded.
  abbrev pub Cloned : UploadStatus → Type 0
  Cloned u =
      (resp : Response UploadStatus) × (builder.get_clone_status id ≡ ok resp)
      × (check_status "fetch image status call" clone_not_found resp.status ≡ ok tt)
      × (resp.json200 ≡ some u)
      × (u.status ≡ success)

  valid-ok :
      (o : Option Error) (u : Unit {0})
      → annotate "unable to parse UUID" (valid o) ≡ ok u
      → o ≡ none
  valid-ok none u e = refl
  valid-ok (some x) u e = absurd (cc)

  check_compose-Composed :
      (u : UploadStatus)
      → check_compose builder id ≡ ok (some u)
      → (builder.parse_uuid id ≡ none) × Composed u
  unfolding check_compose
  check_compose-Composed u e =
      let (pointer, p, e1) = >>=-ok (get_compose_status builder id) _ (some u) e in
      let (compose, c, e2) = >>=-ok (deref pointer) _ (some u) e1 in
      let (t, v, p1) =
        >>=-ok (annotate "unable to parse UUID" (valid (builder.parse_uuid id))) _ pointer p in
      let (resp, r, p2) =
        >>=-ok (annotate "cannot get compose status" (builder.get_compose_status id)) _ pointer
          p1 in
      let (t', s, p3) =
        >>=-ok (check_status "fetch image status call" compose_not_found resp.status) _ pointer
          p2 in
      let (ready, same) =
        unless compose.status success (named image_status) (ok compose.upload_status) (some u) e2 in
      let j : resp.json200 ≡ pointer = cc in
      let q : compose.upload_status ≡ some u = cc in
      (
        valid-ok _ t v,
        (resp, annotate-ok _ _ resp r, s, (compose, j ∙ deref-ok _ compose c, ready, q)),
      )

  compose_of-Composed :
      (u : UploadStatus)
      → builder.parse_uuid id ≡ none
      → Composed u
      → check_compose builder id ≡ ok (some u)
  unfolding check_compose get_compose_status
  compose_of-Composed u v (resp, r, s, (compose, j, ready, q)) = rw (v, r, s, j, ready, q) refl

  check_clone-Cloned :
      (u : UploadStatus)
      → check_clone builder id ≡ ok (some u)
      → (builder.parse_uuid id ≡ none) × Cloned u
  unfolding check_clone
  check_clone-Cloned u e =
      let (t, v, e1) =
        >>=-ok (annotate "unable to parse UUID" (valid (builder.parse_uuid id))) _ (some u) e in
      let (resp, r, e2) =
        >>=-ok (annotate "cannot get compose status" (builder.get_clone_status id)) _ (some u) e1 in
      let (t', s, e3) =
        >>=-ok (check_status "fetch image status call" clone_not_found resp.status) _ (some u) e2 in
      let (clone, c, e4) = >>=-ok (deref resp.json200) _ (some u) e3 in
      let (ready, same) =
        unless clone.status success (named image_status) (ok (some clone)) (some u) e4 in
      let q : clone ≡ u = cc in
      (
        valid-ok _ t v,
        (
          resp,
          annotate-ok _ _ resp r,
          s,
          deref-ok _ clone c ∙ ap some q,
          ap (λ (z : UploadStatus). z.status) (sym q) ∙ ready,
        ),
      )

  clone_of-Cloned :
      (u : UploadStatus)
      → builder.parse_uuid id ≡ none
      → Cloned u
      → check_clone builder id ≡ ok (some u)
  unfolding check_clone
  clone_of-Cloned u v (resp, r, s, j, ready) =
      rw (v, r, s, j) (unless_of u.status success (named image_status) (ok (some u)) ready)

  -- The compose is ready, or asking for it comes to an error and a clone with its id is ready.
  abbrev pub Ready : UploadStatus → Type 0
  Ready u = Composed u ⊎ ((x : Error) × (check_compose builder id ≡ err x) × Cloned u)

  fetch_image_status-Ready :
      (u : UploadStatus)
      → fetch_image_status builder id ≡ ok (some u)
      → (builder.parse_uuid id ≡ none) × Ready u
  unfolding fetch_image_status
  fetch_image_status-Ready u e = go (check_compose builder id) refl e
    where
      go :
          (o : Outcome (Option UploadStatus))
          → check_compose builder id ≡ o
          → or_clone o (check_clone builder id) ≡ ok (some u)
          → (builder.parse_uuid id ≡ none) × Ready u
      go (ok p) h q = let (v, c) = check_compose-Composed u (h ∙ q) in (v, inl c)
      go (err x) h q =
          let (v, c) = check_clone-Cloned u (annotate-ok _ _ (some u) q) in (v, inr (x, h, c))
      go panic h q = absurd (cc)

  fetch_of-Ready :
      (u : UploadStatus)
      → builder.parse_uuid id ≡ none
      → Ready u
      → fetch_image_status builder id ≡ ok (some u)
  unfolding fetch_image_status
  fetch_of-Ready u v (inl c) = rw (compose_of-Composed u v c) refl
  fetch_of-Ready u v (inr (x, h, c)) = rw (h, clone_of-Cloned u v c) refl

-- GetAWSAmi returns an AMI exactly when the compose id is a UUID, and the compose with that id succeeded, or
-- asking for that comes to an error and a clone with the id succeeded, and its upload is one to AWS with
-- that AMI.
pub get_aws_ami-ok_iff :
    (builder : Builder) (id ami : String)
    → (get_aws_ami builder id ≡ ok ami) ↔ (
        (builder.parse_uuid id ≡ none)
        × ((u : UploadStatus) × Ready builder id u × (u.type ≡ "aws") × (u.as_aws ≡ ok ami)))
unfolding get_aws_ami
get_aws_ami-ok_iff builder id ami = (forth, back)
  where
    forth :
        get_aws_ami builder id ≡ ok ami
        → (builder.parse_uuid id ≡ none)
          × ((u : UploadStatus) × Ready builder id u × (u.type ≡ "aws") × (u.as_aws ≡ ok ami))
    forth e =
        let (t, v, e1) =
          >>=-ok
            (as_error (wrapped "compose ID is not valid UUID" (named bad_request))
              (valid (builder.parse_uuid id)))
            _ ami e in
        let (pointer, p, e2) = >>=-ok (fetch_image_status builder id) _ ami e1 in
        let (u, d, e3) = >>=-ok (deref pointer) _ ami e2 in
        let (ty, e4) = unless u.type "aws" _ _ ami e3 in
        let (v', ready) =
          fetch_image_status-Ready builder id u (p ∙ ap ok (deref-ok pointer u d)) in
        (v', (u, ready, ty, as_error-ok _ _ ami e4))

    back :
        (builder.parse_uuid id ≡ none)
          × ((u : UploadStatus) × Ready builder id u × (u.type ≡ "aws") × (u.as_aws ≡ ok ami))
        → get_aws_ami builder id ≡ ok ami
    back (v, (u, ready, ty, a)) =
        rw (fetch_of-Ready builder id u v ready, v) (unless_of u.type "aws" _ _ ty ∙ rw a refl)
