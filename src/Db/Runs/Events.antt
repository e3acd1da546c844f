-- ===== src/Db/Runs/Events.antt =====
-- packages/db/src/db/repositories/run_repository.py: the log of the events of a run.
use governed_agent_platform.Prelude.{
  ℕ, suc, ◌+◌, max, ◌≡◌, ◌≢◌, refl, ap, sym, ◌∙◌, subst, String, false, Bool-cases, inl, inr,
  Option, List, [], ◌∷◌, ◌++◌, keep, keep-append, append-nil, keep_one_lem, keep_none_lem, length,
  ◌==◌, id_eq, arith, Uuid, Payload,
}
use governed_agent_platform.Prelude.Exec.{Result, ok, raised}
use governed_agent_platform.Prelude.Sorting.{sort, place}
use governed_agent_platform.Orchestrator.Errors.{Error}
use governed_agent_platform.Db.Session.{RunEvent, Session, IsSession}
use governed_agent_platform.Db.Runs.{
  is_event_of, max_sequence, earlier, add_event, next_sequence, append_run_event, list_run_events,
}

-- Events with the numbers that follow `n`, one after the other.
abbrev pub IsNumbered : ℕ → List RunEvent → Type 0
IsNumbered n [] = Unit
IsNumbered n (e ∷ events) = (e.sequence ≡ suc n) × IsNumbered (suc n) events

IsNumbered-append :
    (n : ℕ) (events : List RunEvent) (e : RunEvent)
    → IsNumbered n events
    → e.sequence ≡ suc (n + length events)
    → IsNumbered n (events ++ e ∷ [])
IsNumbered-append n [] e h k = (omega arith, tt)
IsNumbered-append n (x ∷ events) e h k = (h.0, IsNumbered-append (suc n) events e h.1 (omega arith))

max_numbered_lem :
    (n : ℕ) (events : List RunEvent)
    → IsNumbered n events
    → max n (max_sequence events) ≡ n + length events
unfolding max_sequence
max_numbered_lem n [] h = omega arith
max_numbered_lem n (e ∷ events) h = omega (arith, h.0, max_numbered_lem (suc n) events h.1)

place_numbered_lem :
    (n : ℕ) (x : RunEvent) (events : List RunEvent)
    → x.sequence ≡ suc n
    → IsNumbered (suc n) events
    → place earlier x events ≡ x ∷ events
unfolding place
place_numbered_lem n x [] k h = refl
place_numbered_lem n x (e ∷ events) k h =
    let later : earlier e x ≡ false = ground (arith, h.0) in rw later refl

-- Numbered events are in the order of their numbers.
sort_numbered_lem :
    (n : ℕ) (events : List RunEvent) → IsNumbered n events → sort earlier events ≡ events
unfolding sort
sort_numbered_lem n [] h = refl
sort_numbered_lem n (e ∷ events) h =
    ap (place earlier e) (sort_numbered_lem (suc n) events h.1)
    ∙ place_numbered_lem n e events h.0 h.1

module _ {W : Type 0} (s : Session W) where
  -- The rows of the events of a run.
  abbrev pub events_of : Uuid → W → List RunEvent
  events_of run_id w = keep (is_event_of run_id) (s.tables w).run_events

  -- The events of each run are numbered from 1 on, in the order in which they were added.
  abbrev pub IsLog : W → Type 0
  IsLog w = (run_id : Uuid) → IsNumbered 0 (events_of run_id w)

  list_run_events_lem : (w : W) → IsLog w → (id : Uuid) → list_run_events s id w ≡ events_of id w
  unfolding list_run_events
  list_run_events_lem w log id = sort_numbered_lem 0 (events_of id w) (log id)

  -- What an append gives: an event with the next number, at the end of the run's log, and the logs of
  -- other runs as they were.
  abbrev pub Appended : Uuid → String → Option Payload → W → Result Error RunEvent × W → Type 0
  Appended run_id event_type payload w (raised e, w') = ⊥
  Appended run_id event_type payload w (ok e, w') =
      ((e.run_id ≡ run_id) × ((e.event_type ≡ event_type) × (e.payload ≡ payload)))
      × ((e.sequence ≡ suc (length (list_run_events s run_id w)))
          × ((list_run_events s run_id w' ≡ list_run_events s run_id w ++ e ∷ [])
              × (((other : Uuid)
                    → other ≢ run_id
                    → list_run_events s other w' ≡ list_run_events s other w)
                  × IsLog w')))

  module _ (laws : IsSession s) where
    added_lem :
        (e : RunEvent) (w : W) (id : Uuid)
        → events_of id (s.flush (add_event s e w)).1
          ≡ events_of id w ++ keep (is_event_of id) (e ∷ [])
    added_lem e w id =
        ap (λ t. keep (is_event_of id) t.run_events)
          (laws.writes (λ t. record t { run_events = t.run_events ++ e ∷ [] }) w)
        ∙ keep-append (is_event_of id) (s.tables w).run_events (e ∷ [])

    same_lem :
        (e : RunEvent) (w : W)
        → events_of e.run_id (s.flush (add_event s e w)).1 ≡ events_of e.run_id w ++ e ∷ []
    same_lem e w =
        added_lem e w e.run_id
        ∙ ap (◌++◌ (events_of e.run_id w))
            (keep_one_lem (is_event_of e.run_id) e ((id_eq.decides e.run_id e.run_id).1 refl))

    other_lem :
        (e : RunEvent) (w : W) (id : Uuid)
        → id ≢ e.run_id
        → events_of id (s.flush (add_event s e w)).1 ≡ events_of id w
    other_lem e w id differs =
        let miss : is_event_of id e ≡ false = elim (Bool-cases (e.run_id == id)) [
          | inl same ↦ absurd (differs (sym ((id_eq.decides e.run_id id).0 same)))
          | inr not_it ↦ not_it
        ] in
        added_lem e w id
        ∙ ap (◌++◌ (events_of id w)) (keep_none_lem (is_event_of id) e miss)
        ∙ append-nil (events_of id w)

    log_lem :
        (e : RunEvent) (w : W)
        → IsLog w
        → e.sequence ≡ suc (length (events_of e.run_id w))
        → IsLog (s.flush (add_event s e w)).1
    log_lem e w log next id = elim (Bool-cases (id == e.run_id)) [
      | inl same ↦
          subst (λ i. IsNumbered 0 (events_of i (s.flush (add_event s e w)).1))
            (sym ((id_eq.decides id e.run_id).0 same))
            (subst (IsNumbered 0) (sym (same_lem e w))
              (IsNumbered-append 0 (events_of e.run_id w) e (log e.run_id) (omega (arith, next))))
      | inr not_it ↦
          subst (IsNumbered 0)
            (sym
              (other_lem e w id (λ eq. ground (arith, not_it, (id_eq.decides id e.run_id).1 eq))))
            (log id)
    ]

    next_lem : (id : Uuid) (w : W) → IsLog w → next_sequence s id w ≡ suc (length (events_of id w))
    unfolding next_sequence
    next_lem id w log = omega (arith, max_numbered_lem 0 (events_of id w) (log id))

    -- Where the events of each run are numbered from 1 on in the order in which they were added, an
    -- append returns an event with the next number; `list_run_events` then gives the earlier events of
    -- the run and this one behind them, gives the same as before for any other run, and the events are
    -- numbered so again.
    pub append_run_event-Appended :
        (run_id : Uuid) (event_type : String) (payload : Option Payload) (w : W)
        → IsLog w
        → Appended run_id event_type payload w (append_run_event s run_id event_type payload w)
    unfolding append_run_event
    append_run_event-Appended run_id event_type payload w log =
        let e : RunEvent = record {
          id = s.uuid4 w;
          run_id = run_id;
          sequence = next_sequence s run_id w;
          event_type = event_type;
          payload = payload;
          created_at = s.now w;
        } in
        let after : W = (s.flush (add_event s e w)).1 in
        let listed = list_run_events_lem w log run_id in
        let next = next_lem run_id w log in
        let still : IsLog after = log_lem e w log next in
        rw (laws.flush_returns (add_event s e w)) (
          (refl, (refl, refl)),
          (
            next ∙ ap (λ l. suc (length l)) (sym listed),
            (
              list_run_events_lem after still run_id
                  ∙ same_lem e w
                  ∙ ap (λ l. l ++ e ∷ []) (sym listed),
              (
                λ other differs.
                    list_run_events_lem after still other
                    ∙ other_lem e w other differs
                    ∙ sym (list_run_events_lem w log other),
                still,
              ),
            ),
          ),
        )
