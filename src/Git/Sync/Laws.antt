-- ===== src/Git/Sync/Laws.antt =====
-- What git/clone.go and git/pull.go ask of go-git.
use jec.Prelude.{
  ℕ, ◌≡◌, ◌≢◌, ◌⊎◌, inl, inr, String, List, [], ◌∷◌, Option, none, some, ok, err, if◌then◌else◌,
  str_eq, total, arith, Result-cases,
}
use jec.Git.Sync.{GoGit, Auth, Call, fetches, resets, fetch_and_reset}

-- The key that the options name.
abbrev pub auth_for : String → String → Option Auth
auth_for key passphrase = if str_eq key "" then none else some (key, passphrase)

abbrev pub resets_in : Call → ℕ
resets_in (resets path commit) = 1
resets_in _ = 0

module _ (g : GoGit) (path key passphrase : String) where
  abbrev Resets : String → Type 0
  Resets commit =
      (g.open_error ≡ none)
      × (g.network_error ≡ none)
      × (g.worktree_error ≡ none)
      × (fetch_and_reset g path key passphrase
          ≡ (g.reset_error, fetches path (auth_for key passphrase) ∷ resets path commit ∷ []))

  abbrev Fails : Type 0
  Fails =
      ((fetch_and_reset g path key passphrase).0 ≢ none)
      × (total resets_in (fetch_and_reset g path key passphrase).1 ≡ 0)

  known_master : (commit : String) → g.master ≡ ok commit → Resets commit ⊎ Fails
  unfolding fetch_and_reset
  known_master commit m = ground arith

  unknown_master : (e : String) → g.master ≡ err e → Fails
  unfolding fetch_and_reset
  unknown_master e m = ground arith

  -- FetchAndReset opens the repository, fetches without an error with the key that is named, resets
  -- the working tree once, to the commit that master names then, and ends as the reset does; or it
  -- ends with an error and resets nothing.
  pub fetch_and_reset_ends :
      ((commit : String) × (g.master ≡ ok commit)
        × (g.open_error ≡ none)
        × (g.network_error ≡ none)
        × (g.worktree_error ≡ none)
        × (fetch_and_reset g path key passphrase
            ≡ (g.reset_error, fetches path (auth_for key passphrase) ∷ resets path commit ∷ [])))
      ⊎ (((fetch_and_reset g path key passphrase).0 ≢ none)
          × (total resets_in (fetch_and_reset g path key passphrase).1 ≡ 0))
  fetch_and_reset_ends = elim (Result-cases g.master) [
    | inl (commit, m) ↦ elim (known_master commit m) [
      | inl (opened, fetched, tree, same) ↦ inl (commit, m, opened, fetched, tree, same)
      | inr failed ↦ inr failed
    ]
    | inr (e, m) ↦ inr (unknown_master e m)
  ]

  abbrev pub Asked : List Call → Type 0
  Asked calls =
      (calls ≡ [])
      ⊎ (calls ≡ fetches path (auth_for key passphrase) ∷ [])
      ⊎ ((commit : String) × (calls
            ≡ fetches path (auth_for key passphrase) ∷ resets path commit ∷ []))

  known_calls :
      (commit : String) → g.master ≡ ok commit → Asked (fetch_and_reset g path key passphrase).1
  unfolding fetch_and_reset
  known_calls commit m = ground arith

  unknown_calls : (e : String) → g.master ≡ err e → Asked (fetch_and_reset g path key passphrase).1
  unfolding fetch_and_reset
  unknown_calls e m = ground arith

  -- The calls of FetchAndReset: none, a fetch, or a fetch and a reset.
  pub asked : Asked (fetch_and_reset g path key passphrase).1
  asked = elim (Result-cases g.master) [
    | inl (commit, m) ↦ known_calls commit m
    | inr (e, m) ↦ unknown_calls e m
  ]
