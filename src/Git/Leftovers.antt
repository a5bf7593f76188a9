-- ===== src/Git/Leftovers.antt =====
-- The directories of failed clones that git/clone.go leaves behind, as they cannot be removed.
use jec.Prelude.{
  true, if◌then◌else◌, Result-cases, ℕ, ◌≢◌, ◌⊎◌, ◌≡◌, refl, inl, inr, String, Bool, false, ◌||◌,
  List, [], ◌∷◌, Option, none, some, total, total-append, arith,
}
use jec.Config.Types.{Options}
use jec.Git.Repositories.{
  Repositories, Disk, Effect, left, clone_master, and_then, download, download_new, download_all,
}

-- The directories left, by a weight.
abbrev pub left_by : (String → ℕ) → Effect → ℕ
left_by k (left dir) = k dir
left_by k _ = 0

-- Nothing is left where there is no error.
abbrev pub LeavesNone : (String → ℕ) → Repositories × Option String × List Effect → Type 0
LeavesNone k x = (x.1 ≢ none) ⊎ (total (left_by k) x.2 ≡ 0)

download-LeavesNone :
    (k : String → ℕ) (d : Disk) (o : Options) (r : Repositories) → LeavesNone k (download d o r)
unfolding download clone_master download_new
download-LeavesNone k d o r = ground arith

and_then-LeavesNone :
    (k : String → ℕ) (x : Repositories × Option String × List Effect)
    (f : Repositories → Repositories × Option String × List Effect)
    → LeavesNone k x
    → LeavesNone k (f x.0)
    → LeavesNone k (and_then x f)
and_then-LeavesNone k (q, some e, fx) f h rest = h
and_then-LeavesNone k (q, none, fx) f h rest =
    let both = total-append (left_by k) fx (f q).2 in ground (arith, h, rest, both)

pub download_all-LeavesNone :
    (k : String → ℕ) (os : List (Disk × Options)) (r : Repositories)
    → LeavesNone k (download_all os r)
unfolding download_all
download_all-LeavesNone k [] r = inr refl
download_all-LeavesNone k ((d, o) ∷ os) r =
    and_then-LeavesNone k (download d o r) (download_all os) (download-LeavesNone k d o r)
      (download_all-LeavesNone k os (download d o r).0)

-- Some disk cannot remove this directory.
abbrev pub stuck : List (Disk × Options) → String → Bool
stuck [] dir = false
stuck ((d, o) ∷ os) dir = d.remove_fails dir || stuck os dir

-- The weight of the directories that can be removed.
abbrev pub removable : (String → Bool) → (String → ℕ) → String → ℕ
removable fails k dir = if fails dir then 0 else k dir

module _ (k : String → ℕ) (fails : String → Bool) where
  download-left :
      (d : Disk) (o : Options) (r : Repositories)
      → ((dir : String) → d.remove_fails dir ≡ true → fails dir ≡ true)
      → total (left_by (removable fails k)) (download d o r).2 ≡ 0
  unfolding download clone_master download_new
  download-left d o r known = elim (Result-cases d.temp_dir) [
    | inl (dir, made_it) ↦ ground (arith, known dir)
    | inr (e, refused) ↦ ground arith
  ]

  and_then-left :
      (x : Repositories × Option String × List Effect)
      (f : Repositories → Repositories × Option String × List Effect)
      → total (left_by (removable fails k)) x.2 ≡ 0
      → total (left_by (removable fails k)) (f x.0).2 ≡ 0
      → total (left_by (removable fails k)) (and_then x f).2 ≡ 0
  and_then-left (q, some e, fx) f h rest = h
  and_then-left (q, none, fx) f h rest =
      omega (arith, h, rest, total-append (left_by (removable fails k)) fx (f q).2)

  pub download_all-left :
      (os : List (Disk × Options)) (r : Repositories)
      → ((dir : String) → stuck os dir ≡ true → fails dir ≡ true)
      → total (left_by (removable fails k)) (download_all os r).2 ≡ 0
  unfolding download_all
  download_all-left [] r known = refl
  download_all-left ((d, o) ∷ os) r known =
      and_then-left (download d o r) (download_all os)
        (download-left d o r (λ dir h. known dir (ground (arith, h))))
        (download_all-left os (download d o r).0 (λ dir h. known dir (ground (arith, h))))
