-- ===== src/Git/Laws.antt =====
-- What the downloads of git/repository.go leave in the map and on the disk.
use jec.Prelude.{
  ℕ, ◌≢◌, ◌⊎◌, ◌+◌, ◌≡◌, refl, sym, ap, ◌∙◌, inl, inr, String, Bool, false, ◌||◌, List, [], ◌∷◌,
  Option, none, some, Result, ok, err, lookup, insert, lookup-insert, is_some, str_eq, total,
  total-append, arith, Option-cases,
}
use text.Mathlib.TextEquality.{eq_iff}
use jec.Config.Types.{Options}
use jec.Git.Leftovers.{left_by, stuck, removable, download_all-LeavesNone, download_all-left}
use jec.Git.Repositories.{
  Repository, Repositories, Disk, Effect, made, removed, clone_master, repository, and_then,
  download, download_new, download_all,
}

-- The directories made, those removed again, and those that could not be removed, by a weight.
abbrev pub made_by : (String → ℕ) → Effect → ℕ
made_by k (made dir) = k dir
made_by k _ = 0

abbrev pub removed_by : (String → ℕ) → Effect → ℕ
removed_by k (removed dir) = k dir
removed_by k _ = 0

abbrev pub path_by : (String → ℕ) → String × Repository → ℕ
path_by k (url, r) = k r.path

-- The url is among those asked for.
abbrev pub asked : String → List (Disk × Options) → Bool
asked u [] = false
asked u ((d, o) ∷ os) = str_eq o.url u || asked u os

total-insert :
    (w : String × Repository → ℕ) (url : String) (p : Repository) (r : Repositories)
    → lookup url r ≡ none
    → total w (insert url p r) ≡ w (url, p) + total w r
unfolding lookup insert
total-insert w url p [] new = refl
total-insert w url p ((u, q) ∷ r) new = ground (arith, total-insert w url p r)

-- What is on the disk beside what was there: a directory is made for a repository of the map, or it
-- is removed again, or left where it cannot be removed.
abbrev pub Balanced :
    (String → ℕ) → Repositories → Repositories × Option String × List Effect → Type 0
Balanced k r x =
    total (made_by k) x.2 + total (path_by k) r
    ≡ total (removed_by k) x.2 + total (left_by k) x.2 + total (path_by k) x.0

abbrev kept : (String → ℕ) → Result String → ℕ
kept k (err e) = 0
kept k (ok dir) = k dir

clone_master_lem :
    (k : String → ℕ) (d : Disk) (o : Options)
    → total (made_by k) (clone_master d o).1
      ≡ total (removed_by k) (clone_master d o).1
        + total (left_by k) (clone_master d o).1
        + kept k (clone_master d o).0
unfolding clone_master
clone_master_lem k d o = ground arith

download_new-Balanced :
    (k : String → ℕ) (o : Options) (r : Repositories) (x : Result String × List Effect)
    → lookup o.url r ≡ none
    → total (made_by k) x.1 ≡ total (removed_by k) x.1 + total (left_by k) x.1 + kept k x.0
    → Balanced k r (download_new o r x)
unfolding download_new
download_new-Balanced k o r (err e, fx) new h = omega arith
download_new-Balanced k o r (ok dir, fx) new h =
    omega (arith, total-insert (path_by k) o.url (repository dir o) r new)

download-Balanced :
    (k : String → ℕ) (d : Disk) (o : Options) (r : Repositories) → Balanced k r (download d o r)
unfolding download
download-Balanced k d o r = elim (Option-cases (lookup o.url r)) [
  | inl new ↦
      rw (new, download)
        (download_new-Balanced k o r (clone_master d o) new (clone_master_lem k d o))
  | inr (p, there) ↦ rw (there, download) refl
]

and_then-Balanced :
    (k : String → ℕ) (r : Repositories) (x : Repositories × Option String × List Effect)
    (f : Repositories → Repositories × Option String × List Effect)
    → Balanced k r x
    → Balanced k x.0 (f x.0)
    → Balanced k r (and_then x f)
and_then-Balanced k r (q, some e, fx) f h rest = h
and_then-Balanced k r (q, none, fx) f h rest = omega (
  arith,
  total-append (made_by k) fx (f q).2,
  total-append (removed_by k) fx (f q).2,
  total-append (left_by k) fx (f q).2,
)

download_all_balance :
    (k : String → ℕ) (os : List (Disk × Options)) (r : Repositories)
    → Balanced k r (download_all os r)
unfolding download_all
download_all_balance k [] r = refl
download_all_balance k ((d, o) ∷ os) r =
    and_then-Balanced k r (download d o r) (download_all os) (download-Balanced k d o r)
      (download_all_balance k os (download d o r).0)

-- Whether it succeeds or stops at an error, DownloadAll leaves no directory behind but those of the
-- map's repositories and those of failed clones that could not be removed: under every weight of paths,
-- what it made is what it removed, what it left, and what the map gained; it left only directories that
-- could not be removed, and none if it returns no error.
pub download_all-Balanced :
    (k : String → ℕ) (os : List (Disk × Options)) (r : Repositories)
    → Balanced k r (download_all os r)
      × (((download_all os r).1 ≢ none) ⊎ (total (left_by k) (download_all os r).2 ≡ 0))
      × (total (left_by (removable (stuck os) k)) (download_all os r).2 ≡ 0)
download_all-Balanced k os r = (
  download_all_balance k os r,
  download_all-LeavesNone k os r,
  download_all-left k (stuck os) os r (λ dir h. h),
)

download_new_knows :
    (u : String) (o : Options) (r : Repositories) (x : Result String × List Effect)
    → (download_new o r x).1 ≡ none
    → is_some (lookup u (download_new o r x).0) ≡ (is_some (lookup u r) || str_eq o.url u)
unfolding download_new
download_new_knows u o r (err e, fx) h = ground arith
download_new_knows u o r (ok dir, fx) h = ground (arith, lookup-insert o.url u (repository dir o) r)

download_missing :
    (d : Disk) (o : Options) (r : Repositories)
    → lookup o.url r ≡ none
    → download d o r ≡ download_new o r (clone_master d o)
unfolding download
download_missing d o r new = rw (new, download)

download_known :
    (d : Disk) (o : Options) (r : Repositories) {p : Repository}
    → lookup o.url r ≡ some p
    → download d o r ≡ (r, none, [])
unfolding download
download_known d o r there = rw (there, download)

download_knows :
    (u : String) (d : Disk) (o : Options) (r : Repositories)
    → (download d o r).1 ≡ none
    → is_some (lookup u (download d o r).0) ≡ (is_some (lookup u r) || str_eq o.url u)
download_knows u d o r e = elim (Option-cases (lookup o.url r)) [
  | inl new ↦ rw (download_missing d o r new) (
      download_new_knows u o r (clone_master d o) (
        sym (
          ap (λ (x : Repositories × Option String × List Effect). x.1) (download_missing d o r new))
        ∙ e))
  | inr (p, there) ↦ rw (download_known d o r there) (ground (arith, eq_iff o.url u))
]

and_then_knows :
    (u : String) (b c : Bool) (x : Repositories × Option String × List Effect)
    (f : Repositories → Repositories × Option String × List Effect)
    → (and_then x f).1 ≡ none
    → (x.1 ≡ none → is_some (lookup u x.0) ≡ b)
    → ((f x.0).1 ≡ none → is_some (lookup u (f x.0).0) ≡ (is_some (lookup u x.0) || c))
    → is_some (lookup u (and_then x f).0) ≡ (b || c)
and_then_knows u b c (q, some e, fx) f h first rest = ground arith
and_then_knows u b c (q, none, fx) f h first rest = rest h ∙ ap (λ z. z || c) (first refl)

-- When DownloadAll returns no error, the map has a repository for exactly the urls that it had one for
-- and those that were asked for.
pub download_all_exact :
    (u : String) (os : List (Disk × Options)) (r : Repositories)
    → (download_all os r).1 ≡ none
    → is_some (lookup u (download_all os r).0) ≡ (is_some (lookup u r) || asked u os)
unfolding download_all
download_all_exact u [] r e = ground arith
download_all_exact u ((d, o) ∷ os) r e =
    and_then_knows u (is_some (lookup u r) || str_eq o.url u) (asked u os) (download d o r)
      (download_all os) e (download_knows u d o r) (download_all_exact u os (download d o r).0)
    ∙ ground arith
