-- ===== src/Access/Pages.antt =====
-- Fetching the permissions of a principal, page by page.
use mathlib.Core.List.{map-append}
use provisioning_backend.Common.{
  ℕ, zero, suc, ◌+◌, ◌*◌, ◌≤◌, String, ◌≡◌, refl, sym, ap, ◌∙◌, true, false, Bool, some, List, map,
  ◌++◌, arith, length, ltb, take, drop, take_all, take-add, length-map, length-take-min,
}
use provisioning_backend.Errors.{handle_http_responses}
use provisioning_backend.Access.{
  AccessList, Reply, page, fetched, fetch_limit, new_access, fetch_pages, get_principal_access,
}

-- A service that holds the permissions `all` and answers each request with the entries at its
-- offset, `fetch_limit` of them at most, and with the number of all of them.
abbrev pub Serves : List String → (ℕ → Reply) → Type 0
Serves all fetch =
    (offset : ℕ) → fetch offset ≡ page 200 (some (length all)) (take fetch_limit (drop offset all))

module _ (all : List String) (fetch : ℕ → Reply) (serves : Serves all fetch) where
  abbrev read : ℕ → AccessList
  read n = map new_access (take n all)

  read_all : (m n : ℕ) → length all ≤ m → length all ≤ n → read m ≡ read n
  read_all m n h k = rw (take_all m all h, take_all n all k)

  length-read : (n : ℕ) → ltb (length (read n)) (length all) ≡ ltb n (length all)
  length-read n = rw (length-map, length-take-min) (ground arith)

  read-step :
      (n : ℕ) → read n ++ map new_access (take fetch_limit (drop n all)) ≡ read (n + fetch_limit)
  read-step n =
      rw take-add (sym (map-append new_access (take n all) (take fetch_limit (drop n all))))

  fetch_pages-read :
      (q offset : ℕ) (more : Bool)
      → (more ≡ false → length all ≤ offset)
      → fetch_pages fetch q more offset (read offset) ≡ fetched (read (offset + fetch_limit * q))
  unfolding fetch_pages handle_http_responses
  fetch_pages-read zero offset more h = ap (λ n. fetched (read n)) (omega arith)
  fetch_pages-read (suc q) offset false h =
      ap fetched (read_all offset (offset + fetch_limit * suc q) (h refl) (omega (arith, h refl)))
  fetch_pages-read (suc q) offset true h =
      let ih =
        fetch_pages-read q (offset + fetch_limit) (ltb (offset + fetch_limit) (length all))
          (λ e. ground arith) in
      let same : offset + fetch_limit + fetch_limit * q ≡ offset + fetch_limit * suc q =
        omega arith in
      rw (serves offset) (rw (read-step offset, length-read) (ih ∙ ap (λ n. fetched (read n)) same))

-- Against such a service the ten rounds of the loop return the permissions in their order, all of
-- them up to 5000; whatever stands behind the first 5000 is left out without an error.
pub get_principal_access-eq_take :
    (all : List String) (fetch : ℕ → Reply)
    → Serves all fetch
    → get_principal_access fetch ≡ fetched (map new_access (take 5000 all))
unfolding get_principal_access
get_principal_access-eq_take all fetch serves =
    fetch_pages-read all fetch serves 10 0 true (λ e. cc)
