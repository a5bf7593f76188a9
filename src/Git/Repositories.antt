-- ===== src/Git/Repositories.antt =====
-- git/repository.go and CloneMaster of git/clone.go: the map of downloaded repositories.
--
-- The file system and go-git stand outside: `Disk` says, for each call, what they answer. Chmod of a
-- new repository only warns when it fails, and has no entry here.
use jec.Prelude.{
  String, Bool, true, false, List, [], ◌∷◌, ◌++◌, Option, none, some, Result, ok, err, lookup,
  insert, cat, if◌then◌else◌,
}
use jec.Config.Types.{Options}

pub record Repository : Type 0 where
  pub path : String
  pub options : Options

abbrev pub Repositories : Type 0
Repositories = List (String × Repository)

abbrev pub new_repositories : Repositories
new_repositories = []

abbrev pub not_empty : Repositories → Bool
not_empty [] = false
not_empty (r ∷ rs) = true

unfoldable pub get : String → Repositories → Result Repository
unfolding lookup
get url r = elim (lookup url r) [
  | some repository ↦ ok repository
  | none ↦ err (cat (cat "Git repository[" url) "] could not be found.")
]

-- What a file system with go-git answers: the temporary directory, the clone into it, and whether the
-- directory of a failed clone cannot be removed.
pub record Disk : Type 0 where
  pub temp_dir : Result String
  pub clone_fails : String → Options → Option String
  pub remove_fails : String → Bool

-- What CloneMaster leaves behind: the directories made, and those removed again or left, as the error
-- of os.RemoveAll is ignored.
pub data Effect : Type 0 where
  made removed left : String → Effect

abbrev clean_up : Disk → String → Effect
clean_up d dir = if d.remove_fails dir then left dir else removed dir

unfoldable pub clone_master : Disk → Options → Result String × List Effect
clone_master d o = elim d.temp_dir [
  | err e ↦ (err e, [])
  | ok dir ↦ elim (d.clone_fails dir o) [
    | some e ↦ (err e, made dir ∷ clean_up d dir ∷ [])
    | none ↦ (ok dir, made dir ∷ [])
  ]
]

abbrev pub repository : String → Options → Repository
repository path o = record { path = path; options = o }

abbrev pub Downloaded : Type 0
Downloaded = Repositories × Option String × List Effect

unfoldable pub download_new : Options → Repositories → Result String × List Effect → Downloaded
download_new o r (err e, fx) =
    (r, some (cat (cat (cat "Git repository[" o.url) "] could not be downloaded: ") e), fx)
download_new o r (ok path, fx) = (insert o.url (repository path o) r, none, fx)

-- Download: nothing for a known url.
unfoldable pub download : Disk → Options → Repositories → Downloaded
unfolding lookup clone_master download_new
download d o r = elim (lookup o.url r) [
  | some _ ↦ (r, none, [])
  | none ↦ download_new o r (clone_master d o)
]

abbrev pub and_then : Downloaded → (Repositories → Downloaded) → Downloaded
and_then (r, some e, fx) k = (r, some e, fx)
and_then (r, none, fx) k = let (r', e, fx') = k r in (r', e, fx ++ fx')

-- DownloadAll stops at the first error. Each call of Download meets the disk of its own time.
unfoldable pub download_all : List (Disk × Options) → Repositories → Downloaded
unfolding download
download_all [] r = (r, none, [])
download_all ((d, o) ∷ os) r = and_then (download d o r) (λ r'. download_all os r')
