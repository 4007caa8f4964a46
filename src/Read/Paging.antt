-- ===== src/Read/Paging.antt =====
-- The paging loop of `load_row_map` sees the whole listing, whatever the sizes of its pages.
use fractalbits.Base.{
  ◌≡◌, ◌≡◌, ◌≡◌, ◌≡◌, ◌≡◌, ◌≡◌, ◌≡◌, ◌≡◌, ◌≡◌, ◌≡◌, ◌≡◌, ◌≡◌, Option-cases, inl, inr, ℕ, zero, suc,
  ◌<◌, ◌≡◌, refl, Bool, true, false, some, List, [], ◌∷◌, ◌++◌, arith, length, length-append,
}
use fractalbits.Base.Results.{Result, Result-cases, ok, ◌>>=◌}
use fractalbits.Ovr.Map.{OvrRowMap}
use fractalbits.Read.{S3Error, Entry, load_entry, load_page, last_key, load_pages}

-- `list_inodes` serves the entries behind a key: all that are left on the last page, and on each
-- page before it a part that is not empty, the rest being behind the last key of that page.
pub data IsListing (list_inodes : List ℕ → Result S3Error (List Entry × Bool))
    : List ℕ → List Entry → Type 0 where
  last_page :
      (start_after : List ℕ) (page : List Entry)
      → list_inodes start_after ≡ ok (page, false)
      → IsListing list_inodes start_after page
  next_page :
      (start_after key : List ℕ) (page rest : List Entry)
      → list_inodes start_after ≡ ok (page, true)
      → last_key page ≡ some key
      → IsListing list_inodes key rest
      → IsListing list_inodes start_after (page ++ rest)

load_page-append :
    (m : OvrRowMap) (xs ys : List Entry)
    → load_page m (xs ++ ys) ≡ (load_page m xs >>= λ m'. load_page m' ys)
unfolding load_page
load_page-append m [] ys = refl
load_page-append m (e ∷ xs) ys = elim (Result-cases (load_entry m e)) [
  | inl (x, h) ↦ rw h
  | inr (m', h) ↦ rw h (load_page-append m' xs ys)
]

last_key-length : (page : List Entry) (key : List ℕ) → last_key page ≡ some key → 0 < length page
unfolding last_key
last_key-length [] key h = cc
last_key-length (e ∷ page) key h = omega arith

-- If the name service serves the entries page by page, each page but the last one not empty, and
-- there is more fuel than there are entries, the paging loop ends, and its answer is that of
-- loading the whole listing at once, errors included.
pub load_pages-listing :
    (list_inodes : List ℕ → Result S3Error (List Entry × Bool)) (fuel : ℕ) (start_after : List ℕ)
    (entries : List Entry) (m : OvrRowMap)
    → IsListing list_inodes start_after entries
    → length entries < fuel
    → load_pages list_inodes fuel start_after m ≡ some (load_page m entries)
unfolding load_pages
load_pages-listing list_inodes zero start_after entries m l h = absurd (omega arith)
load_pages-listing list_inodes (suc fuel) _ entries m (last_page start_after page e) h =
    elim (Result-cases (load_page m page)) [
      | inl (x, p) ↦ ground (arith, e, p)
      | inr (m', p) ↦ elim (Option-cases (last_key page)) [
        | inl q ↦ ground (arith, e, p, q)
        | inr (key, q) ↦ ground (arith, e, p, q)
      ]
    ]
load_pages-listing list_inodes (suc fuel) _ entries m (next_page start_after key page rest e k l)
      h =
    elim (Result-cases (load_page m page)) [
      | inl (x, p) ↦ ground (arith, e, load_page-append m page rest, p)
      | inr (m', p) ↦
          let shorter : length rest < fuel =
            omega (arith, length-append page rest, last_key-length page key k) in
          ground (
            arith,
            e,
            load_page-append m page rest,
            p,
            k,
            load_pages-listing list_inodes fuel key rest m' l shorter,
          )
    ]
