-- ===== src/Git/Lock.antt =====
-- The lock of a repository: Pull, Remove, RLock and RUnlock of git/repository.go, and the run of a
-- script of the repository between RLock and RUnlock in queue/message.go.
--
-- The files of the repository are a type `Tree`. What a call of go-git or of the file system makes of
-- them stands outside: `Ends` says with which files a call may end, and while it goes on they may be any.
pub mod Laws
mod Tests
use jec.Prelude.{String, ◌≡◌, Bool, true, false, ◌||◌, List, [], ◌∷◌, ◌++◌, Option, none, some}
use jec.Git.Repositories.{Repository}
use jec.Git.Sync.{GoGit, Call, pull, remove}

-- The caller of Pull or of Remove.
pub data Request : Type 0 where
  to_pull to_remove : Request

-- A call of Pull or of Remove that holds the lock.
pub record Holder (Tree : Type 0) : Type 0 where
  pub go_git : GoGit
  -- the calls that it has yet to make, and the files as the first of them meets them
  pub left : List Call
  pub met : Tree

pub record Checkout (Tree : Type 0) : Type 0 where
  pub tree : Tree
  -- the RWMutex: the holder of Lock, the callers that wait in it
  pub writer : Option (Holder Tree)
  pub waiting : List Request
  -- the runs that hold RLock, each by the files that it met
  pub runs : List Tree
  -- the history: Remove has begun, or a Pull with a failing reset or a failing change of the modes
  pub spoiled : Bool

abbrev fails : Option String → Bool
fails none = false
fails (some e) = true

abbrev pub spoils : Request → GoGit → Bool
spoils to_pull g = fails g.reset_error || fails g.chmod_error
spoils to_remove g = true

abbrev pub calls_of : Request → GoGit → Repository → List Call
calls_of to_pull g r = (pull g r).1
calls_of to_remove g r = (remove g r).1

pub data Step {Tree : Type 0} (Ends : GoGit → Call → Tree → Tree → Type 0) (r : Repository)
    (s : Checkout Tree) : Checkout Tree → Type 0 where
  -- Lock is called
  asks : (q : Request) → Step Ends r s (record s { waiting = q ∷ s.waiting })
  locks :
      (us vs : List Request) (q : Request) (g : GoGit)
      → s.waiting ≡ us ++ q ∷ vs
      → s.writer ≡ none
      → s.runs ≡ []
      → Step Ends r s (record s {
        writer = some (record { go_git = g; left = calls_of q g r; met = s.tree });
        waiting = us ++ vs;
        spoiled = s.spoiled || spoils q g;
      })
  -- a call of the holder goes on
  changes :
      (w : Holder Tree) (c : Call) (cs : List Call) (t : Tree)
      → s.writer ≡ some w
      → w.left ≡ c ∷ cs
      → Step Ends r s (record s { tree = t })
  ends :
      (w : Holder Tree) (c : Call) (cs : List Call) (t : Tree)
      → s.writer ≡ some w
      → w.left ≡ c ∷ cs
      → Ends w.go_git c w.met t
      → Step Ends r s (record s { tree = t; writer = some (record w { left = cs; met = t }) })
  -- the deferred Unlock
  unlocks :
      (w : Holder Tree)
      → s.writer ≡ some w
      → w.left ≡ []
      → Step Ends r s (record s { writer = none })
  -- whether a caller that waits in Lock keeps RLock waiting is left open
  rlocks : s.writer ≡ none → Step Ends r s (record s { runs = s.tree ∷ s.runs })
  runlocks :
      (us vs : List Tree) (t : Tree)
      → s.runs ≡ us ++ t ∷ vs
      → Step Ends r s (record s { runs = us ++ vs })

-- NewRepository, with the files that the clone and Chmod have left.
unfoldable pub new_checkout : {Tree : Type 0} → Tree → Checkout Tree
new_checkout t = record { tree = t; writer = none; waiting = []; runs = []; spoiled = false }

pub data Reach {Tree : Type 0} (Ends : GoGit → Call → Tree → Tree → Type 0) (r : Repository)
    (t : Tree) : Checkout Tree → Type 0 where
  fresh : Reach Ends r t (new_checkout t)
  later : {s s' : Checkout Tree} → Reach Ends r t s → Step Ends r s s' → Reach Ends r t s'
