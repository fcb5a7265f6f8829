-- ===== src/Client/Loop/Accounts.antt =====
-- Which callbacks a run of the event loop of a client makes, whatever the order of its handlers.
use jsonrpc_for_cpp.Client.Loop.Events.{
  silent, Calls-append, Calls-more, outcome_of, outcomes_by, Calls, Calls-events,
  outcomes_by-append, outcomes_by-events, outcomes_by-events_ne,
}
use jsonrpc_for_cpp.Client.Loop.Asking.{Asks-called}
use jsonrpc_for_cpp.Converter.Args.{Param, Tuple}
use jsonrpc_for_cpp.ClientSession.{Network}
use jsonrpc_for_cpp.Asio.{Report}
use jsonrpc_for_cpp.Client.{Client, typed_request, generate_id}
use jsonrpc_for_cpp.Client.Loop.{
  Exchange, Loop, Event, open_loop, async_call, Step, calls, completes, Run, rest, step, asks,
}
use jsonrpc_for_cpp.Client.Loop.Handlers.{Handled, complete-Handled}
use jsonrpc_for_cpp.Json.{JsonLib}
use jsonrpc_for_cpp.Prelude.{
  ℕ, suc, zero, List, [], ◌∷◌, ◌++◌, String, Option, none, some, get_elem?, map, ◌≡◌, refl,
  get_elem?-set_self, get_elem?-set_ne, get_elem?-map, map-set, subst, ◌≢◌, sym, ◌∙◌, ap,
}
use jsonrpc_for_cpp.Results.{Result}
use jsonrpc_for_cpp.Types.Response.{Response}
use mathlib.Core.List.{append-nil, append_assoc, map-append}
use native.Mathlib.Decide.{ℕ_discrete}

module _ ⦃J : JsonLib⦄ where
  module _ {N : Type 0} where
    -- The outcome of a session that is through.
    abbrev pub ended : Option (Exchange N) → List (Report String)
    ended none = []
    ended (some e) = outcome_of e.phase

    abbrev pub callbacks_of : List (Exchange N) → List (Response → Result (Unit {0}))
    callbacks_of = map (λ e. e.callback)

    -- What a run from a client without sessions leaves: each session that is through had one event
    -- with its outcome, and no other session had any; and for each event, in order, the callback
    -- of its session got what the outcome stands for.
    pub record Accounts (c : Client N) (es : List Event) (l : Loop N) : Type 0 where
      pub once : (i : ℕ) → outcomes_by i es ≡ ended (get_elem? l.exchanges i)
      pub responses : List Response
      pub called : l.client.called ≡ c.called ++ responses
      pub answers : Calls (callbacks_of l.exchanges) es responses

    ended_snoc :
        (xs : List (Exchange N)) (x : Exchange N) (i : ℕ)
        → outcome_of x.phase ≡ []
        → ended (get_elem? (xs ++ x ∷ []) i) ≡ ended (get_elem? xs i)
    ended_snoc [] x zero h = h
    ended_snoc [] x (suc i) h = refl
    ended_snoc (y ∷ xs) x zero h = refl
    ended_snoc (y ∷ xs) x (suc i) h = ended_snoc xs x i h

  pub Handled-callbacks :
      {N : Type 0} {i : ℕ} {l k : Loop N} {es : List Event}
      → Handled i l es k
      → callbacks_of k.exchanges ≡ callbacks_of l.exchanges
  Handled-callbacks {i = i} {l = l} d = rw d.stored (
      map-set (λ e. e.callback) l.exchanges i
        (record d.exchange { phase = d.next; session = d.left }) d.found refl)

  module _ {N : Type 0} {c : Client N} {l : Loop N} {es : List Event} (a : Accounts c es l) where
    module _ {i : ℕ} {fs : List Event} {k : Loop N} (d : Handled i l fs k) where
      unheard : outcomes_by i es ≡ []
      unheard = a.once i ∙ ap ended d.found ∙ ap outcome_of d.waiting

      once_self : outcomes_by i (es ++ fs) ≡ ended (get_elem? k.exchanges i)
      once_self =
          rw
            (
              outcomes_by-append i es fs,
              unheard,
              d.made,
              outcomes_by-events i d.next d.result,
              d.stored,
              get_elem?-set_self l.exchanges i
                  (record d.exchange { phase = d.next; session = d.left }) d.found,
            )
            refl

      once_other : (j : ℕ) → i ≢ j → outcomes_by j (es ++ fs) ≡ ended (get_elem? k.exchanges j)
      once_other j h =
          rw
            (
              outcomes_by-append j es fs,
              d.made,
              outcomes_by-events_ne i j d.next d.result h,
              append-nil,
              d.stored,
              get_elem?-set_ne l.exchanges {i = i} {j = j}
                  (record d.exchange { phase = d.next; session = d.left }) h,
            )
            (a.once j)

      once_more : (j : ℕ) → outcomes_by j (es ++ fs) ≡ ended (get_elem? k.exchanges j)
      once_more j = elim (ℕ_discrete i j) [
        | yes h ↦
            subst (λ z. outcomes_by z (es ++ fs) ≡ ended (get_elem? k.exchanges z)) h once_self
        | no h ↦ once_other j h
      ]

      Handled-Accounts : Accounts c (es ++ fs) k
      Handled-Accounts = record {
        once = once_more;
        responses = a.responses ++ d.responses;
        called = rw (d.called, a.called, append_assoc) refl;
        answers =
            rw (Handled-callbacks d, d.made)
              (Calls-append a.answers (
                Calls-events (callbacks_of l.exchanges) i d.next d.exchange.callback d.result
                  d.responses (get_elem?-map (λ e. e.callback) l.exchanges i d.found) d.passed));
      }

    async_call-Accounts :
        (n : Network N) (method : String) (callback : Response → Result (Unit {0}))
        (ps : List Param) (args : Tuple ps)
        → Accounts c (es ++ []) (async_call n method callback ps args l)
    unfolding async_call typed_request generate_id
    async_call-Accounts n method callback ps args = record {
      once = λ i. rw append-nil (a.once i ∙ sym (ended_snoc l.exchanges _ i refl));
      responses = a.responses;
      called = a.called;
      answers =
          rw (append-nil, map-append)
            (Calls-more (callbacks_of l.exchanges) (callback ∷ []) a.answers);
    }

  Step-Accounts :
      {N : Type 0} (c : Client N) (es fs : List Event) (l k : Loop N)
      → Accounts c es l
      → Step l fs k
      → Accounts c (es ++ fs) k
  Step-Accounts c es fs l k a (calls n method callback ps args quiet made) =
      subst (Accounts c (es ++ fs)) (sym made) (
        subst (λ z. Accounts c (es ++ z) (async_call n method callback ps args l)) (sym quiet)
          (async_call-Accounts a n method callback ps args))
  Step-Accounts c es fs l k a (asks d asked quiet made) =
      subst (Accounts c (es ++ fs)) (sym made) (record {
        once = rw (quiet, append-nil) a.once;
        responses = a.responses;
        called = Asks-called l.client d asked ∙ a.called;
        answers = rw (quiet, append-nil) a.answers;
      })
  Step-Accounts c es fs l k a (completes i h) = Handled-Accounts a (complete-Handled i l fs k h)

  -- Whatever calls the user makes, those that wait and the asynchronous ones, and in whatever order
  -- the handlers run between them, from a client without sessions, the callbacks of the asynchronous
  -- calls are accounted for: each session that is through had one event with its outcome, no other
  -- had any, and for each event, in order, the callback of its session got what the outcome stands
  -- for.
  pub Run-Accounts :
      {N : Type 0} (c : Client N) (es : List Event) (l : Loop N)
      → Run (open_loop c) es l
      → Accounts c es l
  Run-Accounts c es l rest = record {
    once = λ i. refl;
    responses = [];
    called = rw append-nil refl;
    answers = silent;
  }
  Run-Accounts c es l (step r s) = Step-Accounts c _ _ _ l (Run-Accounts c _ _ r) s
