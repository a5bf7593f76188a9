-- ===== src/Queue/Processor/Laws.antt =====
-- Which pollers refreshPollers of queue/processor.go leaves.
use jec.Prelude.{
  ◌≡◌, refl, ap, ◌∙◌, inl, inr, ◌≤ℤ◌, ◌<ℤ◌, pos, String, Bool, true, false, not, ◌&&◌, ◌||◌, List,
  [], ◌∷◌, none, some, if◌then◌else◌, lookup, insert, delete, lookup-insert, lookup-delete, str_eq,
  is_some, arith, Bool-cases, Option-cases,
}
use text.Mathlib.TextEquality.{eq_iff}
use jec.Config.Types.{PollerConf}
use jec.Queue.Token.{Properties, Token, url, region}
use jec.Queue.Sqs.{Client, Provider, new_sqs_provider, new_config}
use jec.Queue.Poller.{Poller, start, new_poller}
use jec.Queue.Processor.{
  Pollers, Processor, keys, mem, without, refresh, add, refresh_one, refresh_each, remove_each,
  refresh_pollers, new_poller_conf, set_periods,
}

-- After the defaults every number is one that the poller can work with.
pub new_poller_conf_bounds :
    (c : PollerConf)
    → (pos 0 <ℤ (new_poller_conf c).max_number_of_messages)
      × (pos 0 <ℤ (new_poller_conf c).polling_wait_interval_in_millis)
      × (pos 15 ≤ℤ (new_poller_conf c).visibility_timeout_in_seconds)
unfolding new_poller_conf
new_poller_conf_bounds c = ground arith

-- Numbers that the poller can work with are kept.
pub new_poller_conf_keeps :
    (c : PollerConf)
    → pos 0 <ℤ c.max_number_of_messages
    → pos 0 <ℤ c.polling_wait_interval_in_millis
    → pos 15 ≤ℤ c.visibility_timeout_in_seconds
    → new_poller_conf c ≡ c
unfolding new_poller_conf
new_poller_conf_keeps c some_messages some_wait visible = ground arith

mem-without :
    (u k : String) (ks : List String)
    → mem u (without k ks) ≡ (if str_eq k u then false else mem u ks)
mem-without u k [] = ground arith
mem-without u k (j ∷ ks) = ground (arith, eq_iff j k, eq_iff j u, eq_iff k u, mem-without u k ks)

mem-keys : (u : String) (ps : Pollers) → mem u (keys ps) ≡ is_some (lookup u ps)
unfolding lookup
mem-keys u [] = refl
mem-keys u ((k, p) ∷ ps) = ground (arith, mem-keys u ps)

lookup-remove_each :
    (u : String) (ks : List String) (ps : Pollers)
    → lookup u (remove_each ks ps).0 ≡ (if mem u ks then none else lookup u ps)
unfolding remove_each
lookup-remove_each u [] ps = refl
lookup-remove_each u (k ∷ ks) ps =
    ground (arith, lookup-remove_each u ks (delete k ps), lookup-delete k u ps)

abbrev pub can_connect : (Client → Bool) → Properties → Bool
can_connect connects q =
    connects
      (record { client_region = region q; client_credentials = q.assume_role_result.credentials })

-- The token has an entry for the queue `u`, and one for which a client can be made.
abbrev pub listed : String → List Properties → Bool
listed u [] = false
listed u (q ∷ qs) = str_eq (url q) u || listed u qs

abbrev pub connectable : (Client → Bool) → String → List Properties → Bool
connectable connects u [] = false
connectable connects u (q ∷ qs) =
    (str_eq (url q) u && can_connect connects q) || connectable connects u qs

connectable-listed :
    (connects : Client → Bool) (u : String) (qs : List Properties)
    → connectable connects u qs ≡ true
    → listed u qs ≡ true
connectable-listed connects u [] h = cc
connectable-listed connects u (q ∷ qs) h = ground (arith, connectable-listed connects u qs)

pub set_periods_pollers :
    (qs : List Properties) (s : Processor) → (set_periods qs s).pollers ≡ s.pollers
unfolding set_periods
set_periods_pollers [] s = refl
set_periods_pollers (q ∷ qs) s = refl

module _ (connects : Client → Bool) (conf : PollerConf) (owner : String) where
  abbrev provider_for : Properties → Provider
  provider_for q = record {
    queue_properties = q;
    client = some (record {
      client_region = region q;
      client_credentials = q.assume_role_result.credentials;
    });
    is_token_expired = false;
  }

  abbrev poller_for : Properties → Poller
  poller_for q = (start (new_poller (provider_for q) conf owner)).0

  new_provider :
      (q : Properties)
      → new_sqs_provider connects q
        ≡ (if can_connect connects q then some (provider_for q) else none)
  unfolding new_sqs_provider new_config
  new_provider q = elim (Bool-cases (can_connect connects q)) [
    | inl made ↦ rw (made, new_sqs_provider) refl
    | inr missed ↦ rw (missed, new_sqs_provider) refl
  ]

  add_lem :
      (q : Properties) (ps : Pollers)
      → add connects conf owner q ps
        ≡ (if can_connect connects q then insert (url q) (poller_for q) ps else ps)
  unfolding add
  add_lem q ps = elim (Bool-cases (can_connect connects q)) [
    | inl made ↦ rw (add, new_provider q, made) refl
    | inr missed ↦ rw (add, new_provider q, missed) refl
  ]

  lookup-add :
      (u : String) (q : Properties) (ps : Pollers)
      → is_some (lookup u (add connects conf owner q ps))
        ≡ ((str_eq (url q) u && can_connect connects q) || is_some (lookup u ps))
  lookup-add u q ps = ground (arith, add_lem q ps, lookup-insert (url q) u (poller_for q) ps)

  refresh_one-pollers :
      (u : String) (q : Properties) (ps : Pollers) (ks : List String)
      → is_some (lookup u (refresh_one connects conf owner q (ps, ks)).0)
        ≡ (is_some (lookup u ps) || (str_eq (url q) u && can_connect connects q))
  unfolding refresh_one
  refresh_one-pollers u q ps ks = elim (Option-cases (lookup (url q) ps)) [
    | inl absent ↦ rw (absent, refresh_one) (lookup-add u q ps ∙ ground arith)
    | inr (p, there) ↦
        rw (there, refresh_one)
          (ground (
            arith,
            lookup-insert (url q) u (refresh connects conf owner q p) ps,
            eq_iff (url q) u,
            there,
          ))
  ]

  refresh_one-keys :
      (u : String) (q : Properties) (ps : Pollers) (ks : List String)
      → (mem u ks ≡ true → is_some (lookup u ps) ≡ true)
      → mem u (refresh_one connects conf owner q (ps, ks)).1 ≡ (mem u ks && not (str_eq (url q) u))
  unfolding refresh_one
  refresh_one-keys u q ps ks h = elim (Option-cases (lookup (url q) ps)) [
    | inl absent ↦ rw (absent, refresh_one) (ground (arith, eq_iff (url q) u))
    | inr (p, there) ↦ rw (there, refresh_one) (ground (arith, mem-without u (url q) ks))
  ]

  refresh_each-pollers :
      (u : String) (qs : List Properties) (ps : Pollers) (ks : List String)
      → is_some (lookup u (refresh_each connects conf owner qs (ps, ks)).0)
        ≡ (is_some (lookup u ps) || connectable connects u qs)
  unfolding refresh_each
  refresh_each-pollers u [] ps ks = ground arith
  refresh_each-pollers u (q ∷ qs) ps ks =
      let s = refresh_one connects conf owner q (ps, ks) in
      refresh_each-pollers u qs s.0 s.1 ∙ ground (arith, refresh_one-pollers u q ps ks)

  refresh_each-keys :
      (u : String) (qs : List Properties) (ps : Pollers) (ks : List String)
      → (mem u ks ≡ true → is_some (lookup u ps) ≡ true)
      → mem u (refresh_each connects conf owner qs (ps, ks)).1 ≡ (mem u ks && not (listed u qs))
  unfolding refresh_each
  refresh_each-keys u [] ps ks h = ground arith
  refresh_each-keys u (q ∷ qs) ps ks h =
      let s = refresh_one connects conf owner q (ps, ks) in
      refresh_each-keys u qs s.0 s.1
        (ground (arith, refresh_one-pollers u q ps ks, refresh_one-keys u q ps ks h))
      ∙ ground (arith, refresh_one-keys u q ps ks h)

-- After a refresh there is a poller for exactly those queues that the token lists and that either had
-- one before or have an entry for which a client can be made.
pub refresh_pollers-exact :
    (connects : Client → Bool) (t : Token) (s : Processor) (u : String)
    → is_some (lookup u (refresh_pollers connects t s).0.pollers) ≡ (
        listed u t.queue_properties_list
        && (is_some (lookup u s.pollers) || connectable connects u t.queue_properties_list))
unfolding refresh_pollers
refresh_pollers-exact connects t s u =
    let qs = t.queue_properties_list in
    let loop = refresh_each connects s.poller_conf t.owner_id qs (s.pollers, keys s.pollers) in
    let left = (remove_each loop.1 loop.0).0 in
    ap (λ (ps : Pollers). is_some (lookup u ps))
      (set_periods_pollers qs (record s { pollers = left }))
    ∙ ap is_some (lookup-remove_each u loop.1 loop.0)
    ∙ ground (
      arith,
      mem-keys u s.pollers,
      refresh_each-pollers connects s.poller_conf t.owner_id u qs s.pollers (keys s.pollers),
      refresh_each-keys connects s.poller_conf t.owner_id u qs s.pollers (keys s.pollers),
      connectable-listed connects u qs,
    )
