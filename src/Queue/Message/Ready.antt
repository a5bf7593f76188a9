-- ===== src/Queue/Message/Ready.antt =====
-- Configuration, repositories and handler together, as main/main.go and Start of queue/processor.go
-- join them: Read gives the configuration, DownloadAll takes its git actions, and the handler gets
-- both, with the repositories' paths put before those of the git actions.
use jec.Prelude.{
  ◌≡◌, ◌∙◌, refl, sym, ap, inl, inr, String, Bool, true, false, ◌||◌, List, [], ◌∷◌, none, some,
  lookup, str_eq, is_some, length, map, arith, Bool-cases, Option-cases,
}
use text.Mathlib.TextEquality.{eq_iff}
use jec.Config.Types.{Options, MappedAction, ActionMappings}
use jec.Config.Validate.{
  is_empty, git_actions, check_actions, add_repository_path, repository_action,
  add_repository_path_to_git_action_filepaths,
}
use jec.Config.Laws.{lookup-IsChecked}
use jec.Git.Repositories.{Repositories, Disk, get, download_all, new_repositories}
use jec.Git.Laws.{asked, download_all_exact}
use jec.Queue.Sqs.{Message}
use jec.Queue.Message.{World, Handler, execute, run_git, run_action}

-- The url is that of one of the options.
abbrev wanted : String → List Options → Bool
wanted u [] = false
wanted u (o ∷ os) = str_eq o.url u || wanted u os

asked_lem : (u : String) (os : List (Disk × Options)) → asked u os ≡ wanted u (map (λ x. x.1) os)
asked_lem u [] = refl
asked_lem u ((d, o) ∷ os) = ap (λ b. str_eq o.url u || b) (asked_lem u os)

wanted_lem :
    (name : String) (m : ActionMappings) (a : MappedAction)
    → lookup name m ≡ some a
    → is_empty a.git_options ≡ false
    → wanted a.git_options.url (git_actions m) ≡ true
unfolding lookup git_actions
wanted_lem name [] a found given = ground arith
wanted_lem name ((n, b) ∷ m) a found given =
    ground (arith, wanted_lem name m a, eq_iff a.git_options.url a.git_options.url)

add_repository_path_lem :
    (join : String → String → String) (rs : Repositories) (a : MappedAction)
    → ((add_repository_path join rs a).source_type ≡ a.source_type)
      × ((add_repository_path join rs a).git_options ≡ a.git_options)
unfolding add_repository_path repository_action
add_repository_path_lem join rs a = ground arith

lookup-add_repository_path :
    (join : String → String → String) (rs : Repositories) (name : String) (m : ActionMappings)
    (a : MappedAction)
    → lookup name (add_repository_path_to_git_action_filepaths join rs m) ≡ some a
    → (b : MappedAction) × (lookup name m ≡ some b)
      × (a.source_type ≡ b.source_type)
      × (a.git_options ≡ b.git_options)
unfolding lookup add_repository_path_to_git_action_filepaths
lookup-add_repository_path join rs name [] a found = ground arith
lookup-add_repository_path join rs name ((n, b) ∷ m) a found = elim (Bool-cases (str_eq n name)) [
  | inl this ↦ (
    b,
    ground arith,
    ground (arith, add_repository_path_lem join rs b),
    ground (arith, add_repository_path_lem join rs b),
  )
  | inr other ↦
      let (c, e, s, g) = lookup-add_repository_path join rs name m a (ground arith) in
      (c, ground arith, s, g)
]

execute_local :
    (w : World) (h : Handler) (a : MappedAction) (m : Message)
    → a.source_type ≡ "local"
    → length (execute w h a m).invocations ≡ 1
unfolding execute run_git run_action
execute_local w h a m source =
    ground (arith, eq_iff a.source_type "git", eq_iff a.source_type "local", eq_iff "local" "git")

execute_known :
    (w : World) (h : Handler) (a : MappedAction) (m : Message) (rs : Repositories)
    → a.source_type ≡ "git"
    → h.repositories ≡ some rs
    → is_some (lookup a.git_options.url rs) ≡ true
    → length (execute w h a m).invocations ≡ 1
unfolding execute run_git run_action get
execute_known w h a m rs source has known = elim (Option-cases (lookup a.git_options.url rs)) [
  | inl absent ↦ ground arith
  | inr (r, there) ↦ ground (arith, eq_iff a.source_type "git")
]

url_known :
    (name : String) (cm : ActionMappings) (b : MappedAction) (os : List (Disk × Options))
    → map (λ x. x.1) os ≡ git_actions cm
    → (download_all os new_repositories).1 ≡ none
    → lookup name cm ≡ some b
    → is_empty b.git_options ≡ false
    → is_some (lookup b.git_options.url (download_all os new_repositories).0) ≡ true
unfolding lookup
url_known name cm b os asks done found given =
    download_all_exact b.git_options.url os new_repositories done
    ∙ (asked_lem b.git_options.url os
        ∙ (ap (wanted b.git_options.url) asks ∙ wanted_lem name cm b found given))

-- Once the mappings pass the tests of validate and DownloadAll has taken their git actions without an
-- error, a handler that has these repositories, and the mappings with the repositories' paths put
-- before, makes exactly one run for each of its actions: none is refused for its source type or for
-- a missing repository.
pub execute_ready :
    (w : World) (h : Handler) (m : Message) (name : String) (a : MappedAction) (cm : ActionMappings)
    (os : List (Disk × Options)) (join : String → String → String)
    → check_actions cm ≡ none
    → map (λ x. x.1) os ≡ git_actions cm
    → (download_all os new_repositories).1 ≡ none
    → h.repositories ≡ some (download_all os new_repositories).0
    → h.action_specs.action_mappings
      ≡ add_repository_path_to_git_action_filepaths join (download_all os new_repositories).0 cm
    → lookup name h.action_specs.action_mappings ≡ some a
    → length (execute w h a m).invocations ≡ 1
execute_ready w h m name a cm os join valid asks done has mappings found =
    let (b, there, source, options) =
      lookup-add_repository_path join (download_all os new_repositories).0 name cm a
        (sym (ap (lookup name) mappings) ∙ found) in
    let (sourced, given) = lookup-IsChecked name cm b valid there in
    elim sourced [
      | inl local ↦ execute_local w h a m (source ∙ local)
      | inr git ↦ elim given [
        | inl not_git ↦ absurd (not_git git)
        | inr some_options ↦
            execute_known w h a m (download_all os new_repositories).0 (source ∙ git) has (
              ap (λ (o : Options). is_some (lookup o.url (download_all os new_repositories).0))
                options
              ∙ url_known name cm b os asks done there some_options)
      ]
    ]
