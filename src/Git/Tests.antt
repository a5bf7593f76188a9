-- ===== src/Git/Tests.antt =====
-- Downloads of the package git at concrete values.
use jec.Prelude.{
  true, false, ◌≡◌, ◌≢◌, ◌⊎◌, total, refl, ◌||◌, ℕ, [], ◌∷◌, List, none, some, ok, lookup, is_some,
  String,
}
use jec.Config.Types.{Options}
use jec.Git.Repositories.{Disk, download_all}
use jec.Git.Sync.{GoGit, fetch_and_reset, fetches, resets}
use jec.Git.Sync.Laws.{auth_for, resets_in, fetch_and_reset_ends}
use jec.Git.Leftovers.{left_by, stuck, removable}
use jec.Git.Laws.{Balanced, asked, download_all-Balanced, download_all_exact}

abbrev options : String → Options
options u = record { url = u; private_key_filepath = ""; passphrase = "" }

abbrev working : Disk
working = record {
  temp_dir = ok "/tmp/a";
  clone_fails = λ dir o. none;
  remove_fails = λ dir. false;
}

abbrev failing : Disk
failing = record {
  temp_dir = ok "/tmp/b";
  clone_fails = λ dir o. some "no route";
  remove_fails = λ dir. true;
}

-- The second clone fails, and its directory cannot be removed.
abbrev downloads : List (Disk × Options)
downloads = (working, options "u") ∷ (failing, options "v") ∷ []

abbrev one_each : String → ℕ
one_each path = 1

download_all-Balanced_example :
    Balanced one_each [] (download_all downloads [])
    × (((download_all downloads []).1 ≢ none)
        ⊎ (total (left_by one_each) (download_all downloads []).2 ≡ 0))
    × (total (left_by (removable (stuck downloads) one_each)) (download_all downloads []).2 ≡ 0)
download_all-Balanced_example = download_all-Balanced one_each downloads []

download_all_exact_example :
    is_some (lookup "u" (download_all ((working, options "u") ∷ []) []).0)
    ≡ (is_some (lookup {A = ℕ} "u" []) || asked "u" ((working, options "u") ∷ []))
unfolding download_all
download_all_exact_example = download_all_exact "u" ((working, options "u") ∷ []) [] refl

-- Everything works, and master names the commit "c".
abbrev go_git : GoGit
go_git = record {
  open_error = none;
  worktree_error = none;
  key_error = none;
  network_error = none;
  master = ok "c";
  reset_error = none;
  chmod_error = none;
  remove_error = none;
}

fetch_and_reset_ends_example :
    ((commit : String) × (go_git.master ≡ ok commit)
      × (go_git.open_error ≡ none)
      × (go_git.network_error ≡ none)
      × (go_git.worktree_error ≡ none)
      × (fetch_and_reset go_git "/tmp/a" "/key" "p" ≡ (
        go_git.reset_error,
        fetches "/tmp/a" (auth_for "/key" "p") ∷ resets "/tmp/a" commit ∷ [],
      )))
    ⊎ (((fetch_and_reset go_git "/tmp/a" "/key" "p").0 ≢ none)
        × (total resets_in (fetch_and_reset go_git "/tmp/a" "/key" "p").1 ≡ 0))
fetch_and_reset_ends_example = fetch_and_reset_ends go_git "/tmp/a" "/key" "p"
