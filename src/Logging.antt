-- ===== src/Logging.antt =====
-- SentryReplacer (internal/logging/sentry_replacer.go): the writer that censors whole lines before it
-- hands them to the writer below. A byte is a number. The regular expression's ReplaceAll is the
-- parameter `replace`; the writer below is the list of the writes that were tried on it, and `fault`
-- tells which of them, by their number, fail. The mutex is not modelled: one call runs at a time.
pub mod Chunks
use provisioning_backend.Common.{
  ℕ, zero, suc, ◌+◌, Bool, true, false, Option, none, some, List, [], ◌∷◌, ◌++◌, length, ◌==◌,
  if◌then◌else◌,
}
use provisioning_backend.Errors.{Error, opaque, wrapped}

pub record Replacer : Type 0 where
  pub buf : List ℕ
  pub closed : Bool
  -- What `w.Write` was called with, in order.
  pub writes : List (List ℕ)

-- NewSentryReplacer
unfoldable pub new_sentry_replacer : Replacer
new_sentry_replacer = record { buf = []; closed = false; writes = [] }

abbrev pub newline : ℕ
newline = 10

abbrev onto : ℕ → Option (List ℕ × List ℕ) → Option (List ℕ × List ℕ)
onto c none = none
onto c (some (line, rest)) = some (c ∷ line, rest)

-- bytes.IndexRune(buf, '\n') and the two slices: the first line with its newline, and the rest.
unfoldable pub cut_line : List ℕ → Option (List ℕ × List ℕ)
cut_line [] = none
cut_line (c ∷ s) = if c == newline then some (c ∷ [], s) else onto c (cut_line s)

abbrev pub io_eof : Error
io_eof = opaque "EOF"

abbrev pub accepted : ℕ → Option Error × Replacer → (ℕ × Option Error) × Replacer
accepted n (none, r) = ((n, none), r)
accepted n (some x, r) = ((0, some x), r)

module _ (replace : List ℕ → List ℕ) (fault : ℕ → Option Error) where
  -- The loop of Write: its error, and what it leaves. An empty buffer has no newline either. The fuel
  -- is the number of bytes in the buffer, each round takes one at least.
  unfoldable pub flush : ℕ → Replacer → Option Error × Replacer
  unfolding cut_line
  flush zero r = (none, r)
  flush (suc fuel) r = elim (cut_line r.buf) [
    | none ↦ (none, r)
    | some (line, rest) ↦
        let r' : Replacer = record r { buf = rest; writes = r.writes ++ replace line ∷ [] } in
        elim (fault (length r.writes)) [
          | none ↦ flush fuel r'
          | some x ↦ (some (wrapped "cannot filter" x), r')
        ]
  ]

  -- SentryReplacer.Write: the number of bytes and the error that it returns.
  unfoldable pub write : List ℕ → Replacer → (ℕ × Option Error) × Replacer
  unfolding flush
  write p r =
      let buf = r.buf ++ p in
      if r.closed
      then ((0, some io_eof), r)
      else accepted (length p) (flush (length buf) (record r { buf = buf }))

  -- SentryReplacer.Close
  unfoldable pub close : Replacer → Option Error × Replacer
  close r =
      let writes = r.writes ++ replace r.buf ∷ [] in
      elim (fault (length r.writes)) [
        | none ↦ (none, record r { closed = true; writes = writes })
        | some x ↦ (some (wrapped "cannot close filter" x), record r { writes = writes })
      ]
