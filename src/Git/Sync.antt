-- ===== src/Git/Sync.antt =====
-- cloneMaster of git/clone.go, PullMaster and FetchAndReset of git/pull.go, and Pull, PullAll, Remove
-- and RemoveAll of git/repository.go.
--
-- go-git, its ssh keys and the file system stand outside: `GoGit` says what their calls answer. What
-- the code asks of them is a list of calls.
pub mod Laws
use jec.Prelude.{
  String, Bool, true, false, List, [], ◌∷◌, ◌++◌, Option, none, some, Result, ok, err,
  if◌then◌else◌, str_eq,
}
use jec.Config.Types.{Options}
use jec.Git.Repositories.{Repository, Repositories}

pub record GoGit : Type 0 where
  -- PlainOpen, Worktree, NewPublicKeysFromFile
  pub open_error : Option String
  pub worktree_error : Option String
  pub key_error : Option String
  -- Fetch, Pull, PlainClone
  pub network_error : Option String
  -- the commit that refs/heads/master names
  pub master : Result String
  pub reset_error : Option String
  -- util.ChmodRecursively and os.RemoveAll
  pub chmod_error : Option String
  pub remove_error : Option String

-- The key of ssh.NewPublicKeysFromFile: its file and its passphrase.
abbrev pub Auth : Type 0
Auth = String × String

pub data Call : Type 0 where
  fetches : (path : String) → Option Auth → Call
  pulls : (path : String) → Option Auth → Call
  clones : (dir url : String) → Option Auth → Call
  resets : (path commit : String) → Call
  chmods : (path : String) → Call
  removes : (path : String) → Call

abbrev pub Done : Type 0
Done = Option String × List Call

-- `if err != nil { return err }`
abbrev pub unless_error : Option String → Done → Done
unless_error none rest = rest
unless_error (some e) rest = (some e, [])

abbrev pub before : Call → Done → Done
before c (e, calls) = (e, c ∷ calls)

-- A key is read only if its file is named.
unfoldable pub with_auth : GoGit → String → String → (Option Auth → Done) → Done
with_auth g key passphrase rest =
    if str_eq key "" then rest none else unless_error g.key_error (rest (some (key, passphrase)))

unfoldable pub clone_into : GoGit → String → String → String → String → Done
unfolding with_auth
clone_into g dir url key passphrase =
    with_auth g key passphrase (λ auth. (g.network_error, clones dir url auth ∷ []))

unfoldable pub pull_master : GoGit → String → String → String → Done
unfolding with_auth
pull_master g path key passphrase = unless_error g.open_error (
    unless_error g.worktree_error
      (with_auth g key passphrase (λ auth. (g.network_error, pulls path auth ∷ []))))

-- The hard reset to the commit of master.
unfoldable pub reset_to : GoGit → String → Result String → Done
reset_to g path (err e) = (some e, [])
reset_to g path (ok commit) = unless_error g.worktree_error (g.reset_error, resets path commit ∷ [])

unfoldable pub fetch_and_reset : GoGit → String → String → String → Done
unfolding with_auth reset_to
fetch_and_reset g path key passphrase = unless_error g.open_error (
    with_auth g key passphrase (λ auth.
      before (fetches path auth) (unless_error g.network_error (reset_to g path g.master))))

-- Pull: the modes are set again when it returns, with an error or without.
unfoldable pub pull : GoGit → Repository → Done
unfolding fetch_and_reset
pull g r =
    let (e, calls) = fetch_and_reset g r.path r.options.private_key_filepath r.options.passphrase in
    (e, calls ++ chmods r.path ∷ [])

-- PullAll: an error is only logged. Each repository meets the answers of its own time.
unfoldable pub pull_all : (String → GoGit) → Repositories → List Call
unfolding pull
pull_all g [] = []
pull_all g ((url, r) ∷ rs) = (pull (g url) r).1 ++ pull_all g rs

unfoldable pub remove : GoGit → Repository → Done
remove g r = (g.remove_error, removes r.path ∷ [])
