-- ===== src/Queue/Lifecycle/Cleanup.antt =====
-- The directories that the processor of queue/processor.go makes for its repositories, and removes.
use jec.Prelude.{
  ℕ, suc, ◌+◌, ◌≤◌, ◌≡◌, ◌⊎◌, ◌∙◌, refl, sym, ap, inl, inr, true, false, Bool, String, List, [],
  ◌∷◌, ◌++◌, Option, none, some, Result, ok, err, total, total-append, arith,
}
use jec.Config.Validate.{git_actions}
use jec.Git.Repositories.{Repositories, Effect}
use jec.Git.Leftovers.{left_by}
use jec.Git.Laws.{made_by, removed_by, path_by, Balanced, download_all-Balanced}
use jec.Queue.Token.{Token}
use jec.Queue.Lifecycle.{
  System, given, Answers, start, start_token, start_with, downloads, with_disks, stop, finish,
  end_loop, end_pulling, done, tick, refresh, set_pollers, remove_all,
}
use jec.Queue.Lifecycle.Step.{
  Step, starts, stops, stop_returns, loop_ends, loop_ticks, pulling_ends, polls,
}
use jec.Queue.Lifecycle.Invariant.{Life, start-cases, starts_mono}

module _ (k : String → ℕ) where
  -- The directories made are those removed, those that could not be, and those of the repositories.
  abbrev pub Owned : System → Type 0
  Owned s =
      total (made_by k) s.disk
      ≡ total (removed_by k) s.disk + total (left_by k) s.disk + total (path_by k) s.repositories

  -- Until Stop has returned.
  abbrev pub Keeps : System → Type 0
  Keeps s = (s.starts ≡ 0) ⊎ (s.is_running ≡ true) → Owned s

  pub start_with_disk :
      (a : Answers) (t : Option Token) (s : System) (x : Repositories × Option String × List Effect)
      → ((start_with a t s x).0.disk ≡ s.disk ++ x.2)
        × ((start_with a t s x).0.repositories ≡ x.0)
        × (((start_with a t s x).0.starts ≡ suc s.starts)
            ⊎ ((start_with a t s x).0.is_running ≡ s.is_running))
  unfolding start_with
  start_with_disk a t s (r, some e, fx) = ground arith
  start_with_disk a t s (r, none, fx) = ground arith

  start_with-Keeps :
      (a : Answers) (t : Option Token) (s : System) (x : Repositories × Option String × List Effect)
      → s.is_running ≡ false
      → (start_with a t s x).0.starts ≤ 1
      → s.starts ≤ (start_with a t s x).0.starts
      → Balanced k s.repositories x
      → Keeps s
      → Keeps (start_with a t s x).0
  start_with-Keeps a t s x down few mono balanced keeps when =
      let (disk, repositories, begun) = start_with_disk a t s x in
      let unstarted : s.starts ≡ 0 = elim when [
        | inl none_yet ↦ omega (arith, none_yet)
        | inr up ↦ elim begun [
          | inl more ↦ omega (arith, more)
          | inr as_before ↦ absurd (ground (arith, up, as_before))
        ]
      ] in
      omega (
        arith,
        keeps (inl unstarted),
        ap (total (made_by k)) disk,
        ap (total (removed_by k)) disk,
        ap (total (left_by k)) disk,
        ap (total (path_by k)) repositories,
        total-append (made_by k) s.disk x.2,
        total-append (removed_by k) s.disk x.2,
        total-append (left_by k) s.disk x.2,
      )

  start_token-Keeps :
      (a : Answers) (r : Result (Option Token)) (s : System)
      → s.is_running ≡ false
      → (start_token a r s).0.starts ≤ 1
      → s.starts ≤ (start_token a r s).0.starts
      → Keeps s
      → Keeps (start_token a r s).0
  unfolding start_token downloads
  start_token-Keeps a (err e) s down few mono keeps = keeps
  start_token-Keeps a (ok t) s down few mono keeps =
      start_with-Keeps a t (given t s) (downloads a s) down few mono
        (download_all-Balanced k (with_disks a.disk_of 0 (git_actions s.action_mappings))
          s.repositories).0
        keeps

  start-Keeps :
      (a : Answers) (s : System)
      → (start a s).0.starts ≤ 1
      → s.starts ≤ (start a s).0.starts
      → Keeps s
      → Keeps (start a s).0
  start-Keeps a s few mono keeps = elim (start-cases a s) [
    | inl same ↦ rw same keeps
    | inr (down, e) ↦ rw e (start_token-Keeps a a.token s down (rw (← e) few) (rw (← e) mono) keeps)
  ]

  Keeps-same :
      (s t : System)
      → t.disk ≡ s.disk
      → t.repositories ≡ s.repositories
      → t.starts ≡ s.starts
      → t.is_running ≡ s.is_running
      → Keeps s
      → Keeps t
  Keeps-same s t disk repositories begun running keeps when =
      let owned : Owned s = keeps (elim when [
        | inl none_yet ↦ inl (sym begun ∙ none_yet)
        | inr up ↦ inr (sym running ∙ up)
      ]) in
      omega (
        arith,
        owned,
        ap (total (made_by k)) disk,
        ap (total (removed_by k)) disk,
        ap (total (left_by k)) disk,
        ap (total (path_by k)) repositories,
      )

  pub Step-Keeps : {s t : System} → Step s t → t.starts ≤ 1 → Life s → Keeps s → Keeps t
  unfolding stop finish end_loop end_pulling done tick refresh set_pollers
  Step-Keeps {s} (starts a free) few l keeps =
      start-Keeps a s few (starts_mono {s = s} (starts a free)) keeps
  Step-Keeps {s} (stops free) few l keeps =
      Keeps-same s (stop s).0 (ground arith) (ground arith) (ground arith) (ground arith) keeps
  Step-Keeps {s} (stop_returns fails waits done) few l keeps =
      λ when. absurd (ground (arith, when, l.unstarted, l.waits))
  Step-Keeps {s} (loop_ends some_loop quit) few l keeps =
      Keeps-same s (end_loop s) (ground arith) (ground arith) (ground arith) (ground arith) keeps
  Step-Keeps {s} (loop_ticks connects (err e) some_loop) few l keeps =
      Keeps-same s (tick connects (err e) s) (ground arith) (ground arith) (ground arith)
        (ground arith) keeps
  Step-Keeps {s} (loop_ticks connects (ok none) some_loop) few l keeps =
      Keeps-same s (tick connects (ok none) s) (ground arith) (ground arith) (ground arith)
        (ground arith) keeps
  Step-Keeps {s} (loop_ticks connects (ok (some t)) some_loop) few l keeps =
      Keeps-same s (tick connects (ok (some t)) s) (ground arith) (ground arith) (ground arith)
        (ground arith) keeps
  Step-Keeps {s} (pulling_ends some_pull quit) few l keeps =
      Keeps-same s (end_pulling s) (ground arith) (ground arith) (ground arith) (ground arith) keeps
  Step-Keeps (polls u p c there) few l keeps = keeps

  -- RemoveAll of the repositories leaves out what it cannot remove.
  pub remove_all-left :
      (fails : String → Bool) (rs : Repositories) → total (left_by k) (remove_all fails rs) ≡ 0
  unfolding remove_all
  remove_all-left fails [] = refl
  remove_all-left fails ((url, r) ∷ rs) = ground (arith, remove_all-left fails rs)

  -- RemoveAll gives back the directories of all repositories, if each can be removed.
  pub remove_all_lem :
      (fails : String → Bool) (rs : Repositories)
      → ((path : String) → fails path ≡ false)
      → (total (made_by k) (remove_all fails rs) ≡ 0)
        × (total (removed_by k) (remove_all fails rs) ≡ total (path_by k) rs)
  unfolding remove_all
  remove_all_lem fails [] works = (refl, refl)
  remove_all_lem fails ((url, r) ∷ rs) works =
      let (a, b) = remove_all_lem fails rs works in
      rw (works r.path, remove_all) (omega (arith, a), omega (arith, b))
