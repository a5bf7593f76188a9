-- ===== src/Git/Lock/Laws.antt =====
-- What the lock of git/repository.go is for: a script runs on files that nothing changes.
use jec.Prelude.{
  String, ◌≡◌, length, length-append, ◌∙◌, refl, sym, ap, inl, inr, subst, false, ◌||◌, List, [],
  ◌∷◌, ◌++◌, Option, none, some, All, arith,
}
use jec.Git.Repositories.{Repository}
use jec.Git.Sync.{GoGit, Call, fetches, resets, chmods, pull}
use jec.Git.Sync.Laws.{asked}
use jec.Git.Lock.{
  Request, to_pull, to_remove, Holder, Checkout, spoils, calls_of, Step, asks, locks, changes, ends,
  unlocks, rlocks, runlocks, new_checkout, Reach, fresh, later,
}

-- What the calls of go-git and of the file system are documented to do with the files. `Whole` files
-- are those of one commit, and `Ready` ones are also executable.
pub record Documented {Tree : Type 0} (Ends : GoGit → Call → Tree → Tree → Type 0)
    (Whole Ready : Tree → Type 0) : Type 0 where
  pub ready_whole : {t : Tree} → Ready t → Whole t
  pub fetch_keeps :
      {g : GoGit} {p : String} {a : Option (String × String)} {t t' : Tree}
      → Ends g (fetches p a) t t'
      → Whole t
      → Whole t'
  pub reset_whole :
      {g : GoGit} {p c : String} {t t' : Tree}
      → g.reset_error ≡ none
      → Ends g (resets p c) t t'
      → Whole t'
  pub chmod_ready :
      {g : GoGit} {p : String} {t t' : Tree}
      → g.chmod_error ≡ none
      → Ends g (chmods p) t t'
      → Whole t
      → Ready t'

module _ {Tree : Type 0} (Ends : GoGit → Call → Tree → Tree → Type 0) (r : Repository)
    (Whole Ready : Tree → Type 0) (d : Documented Ends Whole Ready) where
  -- However the calls end, they leave files that are ready.
  abbrev Leads : GoGit → List Call → Tree → Type 0
  Leads g [] t = Ready t
  Leads g (c ∷ cs) t = (t' : Tree) → Ends g c t t' → Leads g cs t'

  -- The change of the modes is the last call.
  chmods-Leads :
      (g : GoGit) (p : String) (t : Tree)
      → g.chmod_error ≡ none
      → Whole t
      → Leads g (chmods p ∷ []) t
  chmods-Leads g p t e w t' h = d.chmod_ready e h w

  fetches-Leads :
      (g : GoGit) (p : String) (a : Option (String × String)) (cs : List Call) (t : Tree)
      → ((t : Tree) → Whole t → Leads g cs t)
      → Whole t
      → Leads g (fetches p a ∷ cs) t
  fetches-Leads g p a cs t rest w t' h = rest t' (d.fetch_keeps h w)

  pull-Leads :
      (g : GoGit) (t : Tree)
      → g.reset_error ≡ none
      → g.chmod_error ≡ none
      → Ready t
      → Leads g (pull g r).1 t
  unfolding pull
  pull-Leads g t a b y =
      let o = r.options in
      let w = d.ready_whole y in
      let last : (t : Tree) → Whole t → Leads g (chmods r.path ∷ []) t =
        λ t. chmods-Leads g r.path t b in
      elim (asked g r.path o.private_key_filepath o.passphrase) [
        | inl e ↦ rw e (last t w)
        | inr (inl e) ↦ rw e (fetches-Leads g r.path _ (chmods r.path ∷ []) t last w)
        | inr (inr (c, e)) ↦ rw e (
            fetches-Leads g r.path _ (resets r.path c ∷ chmods r.path ∷ []) t
              (λ t w t' h. last t' (d.reset_whole a h)) w)
      ]

  -- What each run can rely on.
  abbrev Met : Checkout Tree → Tree → Type 0
  Met s saw = (saw ≡ s.tree) × (s.spoiled ≡ false → Ready saw)

  -- With the lock held nothing runs; free, it leaves files that are ready.
  abbrev Holds : Checkout Tree → Option (Holder Tree) → Type 0
  Holds s none = s.spoiled ≡ false → Ready s.tree
  Holds s (some w) =
      (s.runs ≡ [])
      × (s.spoiled ≡ false → Leads w.go_git w.left w.met)
      × (w.left ≡ [] → s.tree ≡ w.met)

  record Sound (s : Checkout Tree) : Type 0 where
    met : All (Met s) s.runs
    holds : Holds s s.writer

  All-drop :
      (P : Tree → Type 0) (us vs : List Tree) (t : Tree) → All P (us ++ t ∷ vs) → All P (us ++ vs)
  All-drop P [] vs t (p, ps) = ps
  All-drop P (u ∷ us) vs t (p, ps) = (p, All-drop P us vs t ps)

  no_runs : (s : Checkout Tree) → s.runs ≡ [] → All (Met s) s.runs
  no_runs s e = subst (All (Met s)) (sym e) tt

  runlocks-Holds :
      (us vs : List Tree) (t : Tree) (s : Checkout Tree) (w : Option (Holder Tree))
      → s.runs ≡ us ++ t ∷ vs
      → Holds s w
      → Holds (record s { runs = us ++ vs }) w
  runlocks-Holds us vs t s none e h = h
  runlocks-Holds us vs t s (some w) e (idle, leads, settled) =
      absurd (omega (arith, ap length (sym e ∙ idle), length-append us (t ∷ vs)))

  calls_of-Leads :
      (q : Request) (g : GoGit) (t : Tree)
      → spoils q g ≡ false
      → Ready t
      → Leads g (calls_of q g r) t
  calls_of-Leads to_pull g t h y = pull-Leads g t (ground (arith, h)) (ground (arith, h)) y
  calls_of-Leads to_remove g t h y = absurd (ground (arith, h))

  Step-Sound : {s s' : Checkout Tree} → Step Ends r s s' → Sound s → Sound s'
  Step-Sound (asks q) v = record { met = v.met; holds = v.holds }
  Step-Sound {s} (locks us vs q g e free idle) v =
      let y : s.spoiled ≡ false → Ready s.tree = subst (Holds s) free v.holds in
      record {
        met = no_runs (record s { spoiled = s.spoiled || spoils q g }) idle;
        holds = (
          idle,
          λ h. calls_of-Leads q g s.tree (ground (arith, h)) (y (ground (arith, h))),
          λ e. refl,
        );
      }
  Step-Sound {s} (changes w c cs t h e) v =
      let (idle, leads, settled) = subst (Holds s) h v.holds in
      record {
        met = no_runs (record s { tree = t }) idle;
        holds =
            subst (Holds (record s { tree = t })) (sym h)
              (idle, leads, λ z. absurd (ground (arith, z, e)));
      }
  Step-Sound {s} (ends w c cs t h e f) v =
      let (idle, leads, settled) = subst (Holds s) h v.holds in
      record {
        met = no_runs (record s { tree = t; writer = none }) idle;
        holds = (idle, λ y. subst (λ l. Leads w.go_git l w.met) e (leads y) t f, λ z. refl);
      }
  Step-Sound {s} (unlocks w h e) v =
      let (idle, leads, settled) = subst (Holds s) h v.holds in
      record {
        met = no_runs (record s { writer = none }) idle;
        holds =
            λ y. subst Ready (sym (settled e)) (subst (λ l. Leads w.go_git l w.met) e (leads y));
      }
  Step-Sound {s} (rlocks free) v =
      let y : s.spoiled ≡ false → Ready s.tree = subst (Holds s) free v.holds in
      record {
        met = ((refl, y), v.met);
        holds = subst (Holds (record s { runs = s.tree ∷ s.runs })) (sym free) y;
      }
  Step-Sound {s} (runlocks us vs t e) v = record {
    met = All-drop (Met s) us vs t (subst (All (Met s)) e v.met);
    holds = runlocks-Holds us vs t s s.writer e v.holds;
  }

  sound : {t : Tree} {s : Checkout Tree} → Ready t → Reach Ends r t s → Sound s
  unfolding new_checkout
  sound y fresh = record { met = tt; holds = λ e. y }
  sound y (later h st) = Step-Sound st (sound y h)

  -- With calls that do what they are documented to do: each script of the repository that runs, in any
  -- order of Pull, Remove, RLock and RUnlock, sees the files that it met at its start, whatever other
  -- calls are in progress; and unless Remove has begun, or a Pull whose reset or whose change of the
  -- modes fails, those files are of one commit and executable if the files of the clone are.
  pub runs_see :
      {t : Tree} {s : Checkout Tree}
      → Ready t
      → Reach Ends r t s
      → All (λ saw. (saw ≡ s.tree) × (s.spoiled ≡ false → Ready saw)) s.runs
  runs_see y h = (sound y h).met
