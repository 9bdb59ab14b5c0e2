-- ===== src/Listener/Events/Order.antt =====
-- The two channels of `get_next_event`, over any run of arrivals, tasks and polls.
use libp2p_transport_veilid.Prelude.{
  ◌≡◌, refl, sym, ap, ◌∙◌, false, Option, List, [], ◌∷◌, ◌++◌, append_assoc,
}
use libp2p_transport_veilid.External.{External}
use libp2p_transport_veilid.Address.{Api}
use libp2p_transport_veilid.Connection.{Poll, pending, ready}
use libp2p_transport_veilid.Stream.Outbound.{Routing}
use libp2p_transport_veilid.Listener.{Clock, TransportEvent}
use libp2p_transport_veilid.Listener.Message.{Outcome, polled, task_panicked}
use libp2p_transport_veilid.Listener.Updates.{VeilidUpdate, convert_update}
use libp2p_transport_veilid.Listener.Events.{
  Pump, get_next_event, next_result, next_update, run_task, sent_result,
}

abbrev Result : External → Type 0
Result X = Poll (Option (TransportEvent X))

-- What happened so far: the updates that arrived, the results of the tasks in the order in which
-- they were sent, and the answers of the polls.
pub record History (X : External) : Type 0 where
  pub arrived : List (VeilidUpdate X)
  pub results : List (Poll (Option (TransportEvent X)))
  pub answers : List (Poll (Option (TransportEvent X)))

pub data Pumped {X : External} (p : Pump X) : History X → Pump X → Type 0 where
  start : Pumped p (record { arrived = []; results = []; answers = [] }) p
  arrive :
      {h : History X} {q : Pump X} (update : VeilidUpdate X)
      → Pumped p h q
      → Pumped p
          (record h { arrived = h.arrived ++ update ∷ [] })
          (record q { rx = q.rx ++ update ∷ [] })
  finish :
      {h : History X} {q : Pump X} (clock : Clock) (api : Api X) (r : Routing)
      (update : VeilidUpdate X)
      → Pumped p h q
      → Pumped p
          (record h {
            results = sent_result h.results (convert_update clock api r q.listener update).outcome;
          })
          (run_task clock api r update q).0
  poll :
      {h : History X} {q : Pump X}
      → Pumped p h q
      → Pumped p
          (record h { answers = h.answers ++ (get_next_event q).1 ∷ [] })
          (get_next_event q).0

module _ {X : External} where
  -- The results that are not `pending`.
  unfoldable pub settled :
      List (Poll (Option (TransportEvent X))) → List (Poll (Option (TransportEvent X)))
  settled [] = []
  settled (pending ∷ rest) = settled rest
  settled (ready event ∷ rest) = ready event ∷ settled rest

  settled-append :
      (xs ys : List (Poll (Option (TransportEvent X))))
      → settled (xs ++ ys) ≡ settled xs ++ settled ys
  unfolding settled
  settled-append [] ys = refl
  settled-append (pending ∷ xs) ys = settled-append xs ys
  settled-append (ready event ∷ xs) ys = ap (λ l. ready event ∷ l) (settled-append xs ys)

  -- The updates that arrived are those with a task and those that wait, in this order; the results
  -- that were sent are those that were answered and those that wait.
  pub record IsOrdered (h : History X) (q : Pump X) : Type 0 where
    pub opened : q.rx_ended ≡ false
    pub updates : q.tasks ++ q.rx ≡ h.arrived
    pub events : settled h.answers ++ settled q.async_rx ≡ settled h.results

  -- A poll adds one result of the channel to the answers, or none.
  next_result-settled :
      (p : Pump X) (results : List (Poll (Option (TransportEvent X))))
      → p.async_rx ≡ results
      → settled ((next_result p results).1 ∷ []) ++ settled (next_result p results).0.async_rx
        ≡ settled results
  unfolding settled
  next_result-settled p [] e = ap settled e
  next_result-settled p (pending ∷ rest) e = refl
  next_result-settled p (ready event ∷ rest) e = refl

  answered :
      (answers results rest : List (Poll (Option (TransportEvent X))))
      (answer : Poll (Option (TransportEvent X)))
      (waiting : List (Poll (Option (TransportEvent X))))
      → settled answers ++ settled waiting ≡ settled results
      → settled (answer ∷ []) ++ settled rest ≡ settled waiting
      → settled (answers ++ answer ∷ []) ++ settled rest ≡ settled results
  answered answers results rest answer waiting before taken =
      ap (λ t. t ++ settled rest) (settled-append answers (answer ∷ []))
      ∙ append_assoc (settled answers) (settled (answer ∷ [])) (settled rest)
      ∙ ap (λ t. settled answers ++ t) taken
      ∙ before

  next_result-IsOrdered :
      (h : History X) (q : Pump X) (results : List (Poll (Option (TransportEvent X))))
      → q.async_rx ≡ results
      → IsOrdered h q
      → IsOrdered
          (record h { answers = h.answers ++ (next_result q results).1 ∷ [] })
          (next_result q results).0
  unfolding settled
  next_result-IsOrdered h q [] e v = record {
    opened = v.opened;
    updates = v.updates;
    events = answered h.answers h.results q.async_rx pending q.async_rx v.events refl;
  }
  next_result-IsOrdered h q (result ∷ rest) e v = record {
    opened = v.opened;
    updates = v.updates;
    events =
        answered h.answers h.results rest result q.async_rx v.events
          (next_result-settled q (result ∷ rest) e ∙ sym (ap settled e));
  }

  next_update-IsOrdered :
      (h : History X) (q : Pump X) (updates : List (VeilidUpdate X))
      → q.rx ≡ updates
      → IsOrdered h q
      → IsOrdered
          (record h { answers = h.answers ++ (next_update q updates).1 ∷ [] })
          (next_update q updates).0
  next_update-IsOrdered h q [] e v = simp v.opened (next_result-IsOrdered h q q.async_rx refl v)
  next_update-IsOrdered h q (update ∷ rest) e v =
      let p = record q { rx = rest; tasks = q.tasks ++ update ∷ [] } in
      next_result-IsOrdered h p q.async_rx refl (record {
        opened = v.opened;
        updates =
            append_assoc q.tasks (update ∷ []) rest ∙ ap (λ t. q.tasks ++ t) (sym e) ∙ v.updates;
        events = v.events;
      })

  -- Sending a result keeps the order.
  sent_result-settled :
      (results : List (Poll (Option (TransportEvent X))))
      (waiting answers : List (Poll (Option (TransportEvent X)))) (o : Outcome X)
      → settled answers ++ settled waiting ≡ settled results
      → settled answers ++ settled (sent_result waiting o) ≡ settled (sent_result results o)
  sent_result-settled results waiting answers task_panicked e = e
  sent_result-settled results waiting answers (polled result) e =
      ap (λ t. settled answers ++ t) (settled-append waiting (result ∷ []))
      ∙ sym (append_assoc (settled answers) (settled waiting) (settled (result ∷ [])))
      ∙ ap (λ t. t ++ settled (result ∷ [])) e
      ∙ sym (settled-append results (result ∷ []))

  -- From an open pump with empty channels and no tasks, in any interleaving of arrivals, tasks and
  -- polls: every update that arrived either waits or was given one task, in the order of arrival,
  -- and the answers that are not `pending`, followed by the results that still wait, are the
  -- results that the tasks sent but for those that are `pending`, each once and in the order in
  -- which they were sent.
  pub Pumped-IsOrdered :
      {p q : Pump X} {h : History X}
      → p.rx_ended ≡ false
      → p.rx ≡ []
      → p.tasks ≡ []
      → p.async_rx ≡ []
      → Pumped p h q
      → IsOrdered h q
  unfolding settled run_task get_next_event
  Pumped-IsOrdered opened no_rx no_tasks no_results start = record {
    opened = opened;
    updates = cc;
    events = ap settled no_results;
  }
  Pumped-IsOrdered opened no_rx no_tasks no_results (arrive {q} update run) =
      let v = Pumped-IsOrdered opened no_rx no_tasks no_results run in
      record {
        opened = v.opened;
        updates =
            sym (append_assoc q.tasks q.rx (update ∷ [])) ∙ ap (λ t. t ++ update ∷ []) v.updates;
        events = v.events;
      }
  Pumped-IsOrdered opened no_rx no_tasks no_results (finish {h = g} {q} clock api r update run) =
      let v = Pumped-IsOrdered opened no_rx no_tasks no_results run in
      record {
        opened = v.opened;
        updates = v.updates;
        events =
            sent_result-settled g.results q.async_rx g.answers
              (convert_update clock api r q.listener update).outcome v.events;
      }
  Pumped-IsOrdered opened no_rx no_tasks no_results (poll {h = g} {q} run) =
      next_update-IsOrdered g q q.rx refl (Pumped-IsOrdered opened no_rx no_tasks no_results run)
