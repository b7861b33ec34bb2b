-- ===== src/Logging/Chunks.antt =====
-- What reaches the writer below a SentryReplacer, however the text was cut into writes.
use mathlib.Core.List.{append_assoc, append-nil}
use provisioning_backend.Common.{
  ℕ, zero, suc, ◌+◌, ◌≤◌, ◌<◌, ◌≡◌, ◌⊎◌, refl, sym, ap, ◌∙◌, Bool, Bool-cases, true, false, Option,
  Option-cases, none, some, inl, inr, List, [], ◌∷◌, ◌++◌, map, length, length-append, concat, ◌==◌,
  if◌then◌else◌, arith,
}
use provisioning_backend.Errors.{Error, wrapped}
use provisioning_backend.Logging.{
  Replacer, new_sentry_replacer, newline, cut_line, flush, accepted, write, close,
}

abbrev extend : ℕ → List (List ℕ) → List (List ℕ)
extend c [] = (c ∷ []) ∷ []
extend c (line ∷ rest) = (c ∷ line) ∷ rest

-- The lines of a text, each with its newline, and at last what follows the last newline.
abbrev pub lines : List ℕ → List (List ℕ)
lines [] = [] ∷ []
lines (c ∷ s) = if c == newline then (c ∷ []) ∷ lines s else extend c (lines s)

-- Either no line is complete, or the first line and the rest make up the text.
abbrev FirstLine : List ℕ → Type 0
FirstLine s =
    ((cut_line s ≡ none) × (lines s ≡ s ∷ []))
    ⊎ ((line : List ℕ) × (rest : List ℕ) × (cut_line s ≡ some (line, rest))
        × ((t : List ℕ) → lines (s ++ t) ≡ line ∷ lines (rest ++ t))
        × (suc (length rest) ≤ length s))

cut_line-FirstLine : (s : List ℕ) → FirstLine s
unfolding cut_line
cut_line-FirstLine [] = inl (refl, refl)
cut_line-FirstLine (c ∷ s) = elim (Bool-cases (c == newline)) [
  | inl e ↦ inr (c ∷ [], s, rw e, λ t. rw e, omega arith)
  | inr e ↦ elim (cut_line-FirstLine s) [
    | inl (none_left, last) ↦ inl (rw (e, none_left), rw (e, last))
    | inr (line, rest, found, cut, le) ↦
        inr (c ∷ line, rest, rw (e, found), λ t. rw (e, cut t), omega arith)
  ]
]

cut_line-empty : (s : List ℕ) → length s ≤ 0 → cut_line s ≡ none
unfolding cut_line
cut_line-empty [] h = refl
cut_line-empty (c ∷ s) h = absurd (omega arith)

module _ (replace : List ℕ → List ℕ) where
  -- The text that came in, with any that will follow, gives what the writer was called with and then the lines of the
  -- buffer with what will follow.
  abbrev pub Received : List ℕ → Replacer → Type 0
  Received text r =
      (t : List ℕ) → map replace (lines (text ++ t)) ≡ r.writes ++ map replace (lines (r.buf ++ t))

  cut-Received :
      (text line rest : List ℕ) (r : Replacer)
      → ((t : List ℕ) → lines (r.buf ++ t) ≡ line ∷ lines (rest ++ t))
      → Received text r
      → Received text (record r { buf = rest; writes = r.writes ++ replace line ∷ [] })
  cut-Received text line rest r cut h t =
      h t
      ∙ ap (λ l. r.writes ++ map replace l) (cut t)
      ∙ sym (append_assoc r.writes (replace line ∷ []) (map replace (lines (rest ++ t))))

  module _ (fault : ℕ → Option Error) where
    flush-Received :
        (fuel : ℕ) (text : List ℕ) (r : Replacer)
        → length r.buf ≤ fuel
        → Received text r
        → Received text (flush replace fault fuel r).1
          × ((flush replace fault fuel r).1.closed ≡ r.closed)
          × ((flush replace fault fuel r).0 ≡ none
              → cut_line (flush replace fault fuel r).1.buf ≡ none)
          × (((n : ℕ) → fault n ≡ none) → (flush replace fault fuel r).0 ≡ none)
    unfolding flush
    flush-Received zero text r h k = (k, refl, λ _. cut_line-empty r.buf h, λ _. refl)
    flush-Received (suc fuel) text r h k = elim (cut_line-FirstLine r.buf) [
      | inl (e, last) ↦ rw (e, flush) (k, refl, λ _. e, λ _. refl)
      | inr (line, rest, e, cut, le) ↦ elim (Option-cases (fault (length r.writes))) [
        | inl good ↦
            rw (e, flush)
              (rw (good, flush)
                (flush-Received fuel text _ (omega arith) (cut-Received text line rest r cut k)))
        | inr (x, bad) ↦
            rw (e, flush)
              (rw (bad, flush)
                (
                  cut-Received text line rest r cut k,
                  refl,
                  λ absent. cc,
                  λ all. absurd (cc (all (length r.writes), bad)),
                ))
      ]
    ]

    append-Received :
        (text p : List ℕ) (r : Replacer)
        → Received text r
        → Received (text ++ p) (record r { buf = r.buf ++ p })
    append-Received text p r h t =
        rw (append_assoc text p t) (h (p ++ t))
        ∙ ap (λ s. r.writes ++ map replace (lines s)) (sym (append_assoc r.buf p t))

    -- Either all bytes were taken and the buffer holds no newline, or there is an error and none was.
    abbrev pub Took : List ℕ → (ℕ × Option Error) × Replacer → Type 0
    Took p ((n, e), r) =
        ((e ≡ none) × (n ≡ length p) × (cut_line r.buf ≡ none))
        ⊎ ((x : Error) × (e ≡ some x) × (n ≡ 0))

    abbrev Good : List ℕ → List ℕ → (ℕ × Option Error) × Replacer → Type 0
    Good text p ((n, e), r) =
        Received text r
        × (r.closed ≡ false)
        × Took p ((n, e), r)
        × (((i : ℕ) → fault i ≡ none) → e ≡ none)

    accepted-Good :
        (text p : List ℕ) (out : Option Error × Replacer)
        → Received text out.1
          × (out.1.closed ≡ false)
          × (out.0 ≡ none → cut_line out.1.buf ≡ none)
          × (((n : ℕ) → fault n ≡ none) → out.0 ≡ none)
        → Good text p (accepted (length p) out)
    accepted-Good text p (none, r) (a, b, c, d) = (a, b, inl (refl, refl, c refl), d)
    accepted-Good text p (some x, r) (a, b, c, d) = (a, b, inr (x, refl, refl), d)

    -- The calls of the writer from number `from` up to `to`, in a Write that returns `e`: none failed, or the
    -- last one and no other, and the error is its.
    abbrev pub Tried : ℕ → ℕ → Option Error → Type 0
    Tried from to e =
        (from ≤ to)
        × (((e ≡ none) × ((i : ℕ) → from ≤ i → i < to → fault i ≡ none))
            ⊎ ((k : ℕ) × (x : Error) × (e ≡ some (wrapped "cannot filter" x))
                × (to ≡ k + 1)
                × (fault k ≡ some x)
                × ((i : ℕ) → from ≤ i → i < k → fault i ≡ none)))

    Tried-next :
        (from to : ℕ) (e : Option Error)
        → fault from ≡ none
        → Tried (from + 1) to e
        → Tried from to e
    Tried-next from to e good (le, inl (clean, all)) = (
      omega (arith, le),
      inl (
        clean,
        λ i a b. elim (Bool-cases (i == from)) [
          | inl same ↦ let p : i ≡ from = ground arith in rw p good
          | inr other ↦ all i (ground arith) b
        ],
      ),
    )
    Tried-next from to e good (le, inr (k, x, failed, last, bad, all)) = (
      omega (arith, le),
      inr (
        k,
        x,
        failed,
        last,
        bad,
        λ i a b. elim (Bool-cases (i == from)) [
          | inl same ↦ let p : i ≡ from = ground arith in rw p good
          | inr other ↦ all i (ground arith) b
        ],
      ),
    )

    flush-Tried :
        (fuel : ℕ) (r : Replacer)
        → Tried
            (length r.writes)
            (length (flush replace fault fuel r).1.writes)
            (flush replace fault fuel r).0
    unfolding flush
    flush-Tried zero r = (omega arith, inl (refl, λ i a b. absurd (omega arith)))
    flush-Tried (suc fuel) r = elim (cut_line-FirstLine r.buf) [
      | inl (e, last) ↦ rw (e, flush) (omega arith, inl (refl, λ i a b. absurd (omega arith)))
      | inr (line, rest, e, cut, le) ↦
          let n = length-append r.writes (replace line ∷ []) in
          elim (Option-cases (fault (length r.writes))) [
            | inl good ↦
                rw (e, flush)
                  (rw (good, flush)
                    (Tried-next (length r.writes) _ _ good (
                      rw n at (
                        flush-Tried fuel
                          (record r { buf = rest; writes = r.writes ++ replace line ∷ [] })))))
            | inr (x, bad) ↦
                rw (e, flush)
                  (rw (bad, flush)
                    (
                      omega (arith, n),
                      inr (length r.writes, x, refl, n, bad, λ i a b. absurd (omega arith)),
                    ))
          ]
    ]

    accepted-Tried :
        (n from : ℕ) (out : Option Error × Replacer)
        → Tried from (length out.1.writes) out.0
        → Tried from (length (accepted n out).1.writes) (accepted n out).0.1
    accepted-Tried n from (none, r) h = h
    accepted-Tried n from (some x, r) h = h

    if_false : {A : Type 0} (b : Bool) (x y : A) → b ≡ false → (if b then x else y) ≡ y
    if_false b x y h = rw h

    write-Good :
        (text p : List ℕ) (r : Replacer)
        → r.closed ≡ false
        → Received text r
        → Good (text ++ p) p (write replace fault p r)
    unfolding write
    write-Good text p r h k =
        let all = r.buf ++ p in
        let (a, b, c, d) =
          flush-Received (length all) (text ++ p) (record r { buf = all }) (omega arith)
            (append-Received text p r k) in
        rw (if_false r.closed _ _ h) (
          accepted-Good (text ++ p) p (flush replace fault (length all) (record r { buf = all }))
            (a, b ∙ h, c, d))

    write-Tried :
        (p : List ℕ) (r : Replacer)
        → r.closed ≡ false
        → Tried
            (length r.writes)
            (length (write replace fault p r).1.writes)
            (write replace fault p r).0.1
    unfolding write
    write-Tried p r h =
        let all = r.buf ++ p in
        rw (if_false r.closed _ _ h) (
          accepted-Tried (length p) (length r.writes)
            (flush replace fault (length all) (record r { buf = all }))
            (flush-Tried (length all) (record r { buf = all })))

    -- Whatever the writer below answers: after a Write on an open replacer, the lines of all the text
    -- that came in are, censored, those that the writer was called with, once each, and those that the buffer
    -- still holds, in order, and the replacer is open. Either the Write returns no error and all its bytes, the
    -- buffer holds no newline, and the writer failed in none of its calls, or it returns an error and no byte:
    -- then the writer failed in the last call of this Write, whose line is lost, and in no other.
    pub write-Received :
        (text p : List ℕ) (r : Replacer)
        → r.closed ≡ false
        → Received text r
        → Received (text ++ p) (write replace fault p r).1
          × ((write replace fault p r).1.closed ≡ false)
          × Took p (write replace fault p r)
          × Tried
              (length r.writes)
              (length (write replace fault p r).1.writes)
              (write replace fault p r).0.1
    write-Received text p r h k =
        let (a, b, c, d) = write-Good text p r h k in (a, b, c, write-Tried p r h)

module _ (replace : List ℕ → List ℕ) where
  -- Successive calls of Write, and at last Close.
  unfoldable pub write_all : (ℕ → Option Error) → List (List ℕ) → Replacer → Replacer
  unfolding write
  write_all fault [] r = r
  write_all fault (p ∷ ps) r = write_all fault ps (write replace fault p r).1

  write_all-Received :
      (fault : ℕ → Option Error)
      → ((i : ℕ) → fault i ≡ none)
      → (ps : List (List ℕ)) (text : List ℕ) (r : Replacer) → r.closed ≡ false
      → cut_line r.buf ≡ none
      → Received replace text r
      → let r' = write_all fault ps r in
        Received replace (text ++ concat ps) r' × (cut_line r'.buf ≡ none)
  unfolding write_all
  write_all-Received fault good [] text r h n k = rw append-nil (k, n)
  write_all-Received fault good (p ∷ ps) text r h n k =
      let (k', h', took, clean) = write-Good replace fault text p r h k in
      rw (← append_assoc text p (concat ps)) (
        write_all-Received fault good ps (text ++ p) (write replace fault p r).1 h'
          (elim took [ inl (e, m, c) ↦ c | inr (x, e, m) ↦ absurd (cc (clean good)) ]) k')

lines-of_none : (s : List ℕ) → cut_line s ≡ none → lines s ≡ s ∷ []
lines-of_none s h = elim (cut_line-FirstLine s) [
  | inl (e, last) ↦ last
  | inr (line, rest, e, cut, le) ↦ absurd (cc)
]

-- However a text is cut into writes, if the writer below does not fail it gets the lines of the text,
-- censored one by one and in their order, and by Close the rest behind the last newline.
pub close-write_all :
    (replace : List ℕ → List ℕ) (fault : ℕ → Option Error)
    → ((i : ℕ) → fault i ≡ none)
    → (ps : List (List ℕ))
    → let (e, r) = close replace fault (write_all replace fault ps new_sentry_replacer) in
      (e ≡ none) × (r.closed ≡ true) × (r.writes ≡ map replace (lines (concat ps)))
unfolding close new_sentry_replacer
close-write_all replace fault good ps =
    let r = write_all replace fault ps new_sentry_replacer in
    let (k, n) =
      write_all-Received replace fault good ps [] new_sentry_replacer refl
        (cut_line-empty [] (omega arith)) (λ t. refl) in
    let all : map replace (lines (concat ps)) ≡ r.writes ++ replace r.buf ∷ [] =
      ap (λ s. map replace (lines s)) (sym (append-nil (concat ps)))
      ∙ k []
      ∙ ap (λ s. r.writes ++ map replace (lines s)) (append-nil r.buf)
      ∙ ap (λ l. r.writes ++ map replace l) (lines-of_none r.buf n) in
    rw (good (length r.writes), close) (refl, refl, sym all)
