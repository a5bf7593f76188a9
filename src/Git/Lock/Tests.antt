-- ===== src/Git/Lock/Tests.antt =====
-- A pull between two runs of a script.
use jec.Prelude.{◌≡◌, refl, sym, subst, String, Bool, true, false, [], none, some, ok, All, arith}
use jec.Git.Repositories.{Repository}
use jec.Git.Sync.{
  GoGit, Call, fetches, pulls, clones, resets, chmods, removes, pull, fetch_and_reset, with_auth,
  reset_to,
}
use jec.Git.Lock.{
  Checkout, to_pull, asks, locks, changes, ends, unlocks, rlocks, runlocks, new_checkout, Reach,
  fresh, later,
}
use jec.Git.Lock.Laws.{Documented, runs_see}

-- The files of a commit, and whether they are executable; half of them; or none.
data Files : Type 0 where
  files : (commit : String) → (executable : Bool) → Files
  torn gone : Files

abbrev outcome : GoGit → Call → Files → Files
outcome g (fetches p a) t = t
outcome g (pulls p a) t = torn
outcome g (clones d u a) t = torn
outcome g (resets p c) t = elim g.reset_error [ none ↦ files c false | some e ↦ torn ]
outcome g (chmods p) (files c x) = elim g.chmod_error [ none ↦ files c true | some e ↦ files c x ]
outcome g (chmods p) t = t
outcome g (removes p) t = gone

abbrev Ends : GoGit → Call → Files → Files → Type 0
Ends g c t t' = t' ≡ outcome g c t

abbrev whole : Files → Bool
whole (files c x) = true
whole torn = false
whole gone = false

abbrev ready : Files → Bool
ready (files c x) = x
ready torn = false
ready gone = false

abbrev Whole : Files → Type 0
Whole t = whole t ≡ true

abbrev Ready : Files → Type 0
Ready t = ready t ≡ true

Ready-Whole : (t : Files) → Ready t → Whole t
Ready-Whole t y = ground (arith, y)

chmods-Ready :
    (g : GoGit) (p : String) (t : Files)
    → g.chmod_error ≡ none
    → Whole t
    → Ready (outcome g (chmods p) t)
chmods-Ready g p t e w = ground (arith, e, w)

resets-Whole :
    (g : GoGit) (p c : String) (t : Files) → g.reset_error ≡ none → Whole (outcome g (resets p c) t)
resets-Whole g p c t e = ground (arith, e)

documented : Documented Ends Whole Ready
documented = record {
  ready_whole = λ {t} y. Ready-Whole t y;
  fetch_keeps = λ h w. subst Whole (sym h) w;
  reset_whole = λ {g} {p} {c} {t} e h. subst Whole (sym h) (resets-Whole g p c t e);
  chmod_ready = λ {g} {p} {t} e h w. subst Ready (sym h) (chmods-Ready g p t e w);
}

abbrev checkout : Repository
checkout = record {
  path = "/tmp/a";
  options = record { url = "u"; private_key_filepath = ""; passphrase = "" };
}

abbrev answers : GoGit
answers = record {
  open_error = none;
  worktree_error = none;
  key_error = none;
  network_error = none;
  master = ok "c2";
  reset_error = none;
  chmod_error = none;
  remove_error = none;
}

pulled : (s : Checkout Files) × Reach Ends checkout (files "c1" true) s
unfolding new_checkout pull fetch_and_reset with_auth reset_to
pulled =
    let r0 : Reach Ends checkout (files "c1" true) _ = fresh in
    let r1 = later r0 (rlocks refl) in
    let r2 = later r1 (asks to_pull) in
    let r3 = later r2 (runlocks [] [] _ refl) in
    let r4 = later r3 (locks [] [] to_pull answers refl refl refl) in
    let r5 = later r4 (ends _ _ _ (files "c1" true) refl refl refl) in
    let r6 = later r5 (changes _ _ _ torn refl refl) in
    let r7 = later r6 (ends _ _ _ (files "c2" false) refl refl refl) in
    let r8 = later r7 (ends _ _ _ (files "c2" true) refl refl refl) in
    let r9 = later r8 (unlocks _ refl refl) in (_, later r9 (rlocks refl))

runs_see_example :
    All (λ saw. (saw ≡ pulled.0.tree) × (pulled.0.spoiled ≡ false → Ready saw)) pulled.0.runs
unfolding pulled
runs_see_example = runs_see Ends checkout Whole Ready documented refl pulled.1
