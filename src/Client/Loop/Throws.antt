-- ===== src/Client/Loop/Throws.antt =====
-- A call of `run`, `poll` or `run_for` of include/jsonrpc/impl/client.ipp that an exception of a
-- callback may end, against the handlers of several such calls.
use jsonrpc_for_cpp.Client.Loop.Orders.{run_handlers-called}
use jsonrpc_for_cpp.Client.Loop.Handlers.{Handled, Phase-cases, complete-Handled}
use native.Mathlib.Omega.{arith}
use jsonrpc_for_cpp.Client.Loop.Accounts.{callbacks_of, Handled-callbacks}
use jsonrpc_for_cpp.ClientSession.Pending.Called.{Called, unreached, unreadable, answered, rejected}
use jsonrpc_for_cpp.Client.Loop.Counts.{IsCalm}
use jsonrpc_for_cpp.Asio.{Report}
use jsonrpc_for_cpp.Client.Loop.{Loop, run_for, run_handlers, complete, result_of, Event}
use jsonrpc_for_cpp.Prelude.{
  refl, List, All, String, ℕ, ◌≡◌, ◌++◌, ◌⊎◌, inl, ◌∷◌, Option-cases, [], inr, ◌∙◌, All-get, ap,
  sym, get_elem?-map, subst,
}
use jsonrpc_for_cpp.Results.{
  Result, ◌>>=◌, ok, Exception, throw, Yields, Result-cases, Yields-append,
}
use jsonrpc_for_cpp.Types.Response.{Response, failure}
use mathlib.Core.List.{append-nil, append_assoc}
use jsonrpc_for_cpp.Json.{JsonLib, null_value}

module _ ⦃J : JsonLib⦄ where
  Called-calm :
      (callback : Response → Result (Unit {0})) (outcome : Report String) (xs : List Response)
      (y : Result (Unit {0}))
      → IsCalm callback
      → Called callback outcome xs y
      → (r : Response) × (xs ≡ r ∷ []) × (callback r ≡ y)
  Called-calm callback outcome xs y calm (unreached {x = x} same) = (x, refl, refl)
  Called-calm callback outcome xs y calm (unreadable {e = e} p) = (failure e null_value, refl, refl)
  Called-calm callback outcome xs y calm (answered {r = r} p same other) = (r, refl, same)
  Called-calm callback outcome xs y calm (rejected {r = r} {e = e} p thrown) =
      absurd (calm r e thrown)

  module _ {N : Type 0} where
    -- A call that an exception ended goes on, when it is made again, with the handlers after the
    -- one that threw; and a call that none ended has run them all.
    pub run_for-resumes :
        (is : List ℕ) (l : Loop N)
        → (run_for is l ≡ (ok tt, (run_handlers is l).1))
          ⊎ ((x : Exception) × (rest : List ℕ) × ((run_for is l).0 ≡ throw x)
              × ((run_handlers is l).1 ≡ (run_handlers rest (run_for is l).1).1))
    unfolding run_for run_handlers
    run_for-resumes [] l = inl refl
    run_for-resumes (i ∷ is) l = elim (Option-cases (complete i l)) [
      | inl h ↦ rw (h, run_for, run_handlers) (run_for-resumes is l)
      | inr ((es, k), h) ↦ elim (Result-cases (result_of es)) [
        | inl (u, g) ↦ rw (h, g, run_for, run_handlers) (run_for-resumes is k)
        | inr (x, g) ↦ inr (x, is, rw (h, g, run_for) refl, rw (h, g, run_for, run_handlers) refl)
      ]
    ]

    pub run_for-append_ok :
        (is js : List ℕ) (l : Loop N)
        → (run_for is l).0 ≡ ok tt
        → run_for (is ++ js) l ≡ run_for js (run_for is l).1
    unfolding run_for
    run_for-append_ok [] js l h = refl
    run_for-append_ok (i ∷ is) js l h = elim (Option-cases (complete i l)) [
      | inl e ↦ rw (e, run_for) (run_for-append_ok is js l (rw (e, run_for) at h))
      | inr ((es, k), e) ↦ elim (Result-cases (result_of es)) [
        | inl (u, g) ↦ rw (e, g, run_for) (run_for-append_ok is js k (rw (e, g, run_for) at h))
        | inr (x, g) ↦ absurd (let k = rw (e, g, run_for) at h in ground arith)
      ]
    ]

    pub run_for-append_throw :
        (is js : List ℕ) (l : Loop N) (x : Exception)
        → (run_for is l).0 ≡ throw x
        → run_for (is ++ js) l ≡ run_for is l
    unfolding run_for
    run_for-append_throw [] js l x h = absurd (ground arith)
    run_for-append_throw (i ∷ is) js l x h = elim (Option-cases (complete i l)) [
      | inl e ↦ rw (e, run_for) (run_for-append_throw is js l x (rw (e, run_for) at h))
      | inr ((es, k), e) ↦ elim (Result-cases (result_of es)) [
        | inl (u, g) ↦ rw (e, g, run_for) (run_for-append_throw is js k x (rw (e, g, run_for) at h))
        | inr (y, g) ↦ rw (e, g, run_for) refl
      ]
    ]

  -- A callback that prints.
  abbrev pub lined : {B : Type 0} → (Response → Result B) → Response → Result (Unit {0})
  lined line r = line r >>= λ y. ok tt

  module _ {B : Type 0} (line : Response → Result B) {N : Type 0} where
    abbrev pub AllLined : Loop N → Type 0
    AllLined l = All (λ c. c ≡ lined line) (callbacks_of l.exchanges)

    -- The call ran all of the handlers, whose callbacks took these responses.
    pub record Returns (is : List ℕ) (l : Loop N) : Type 1 where
      pub ran : run_for is l ≡ (ok tt, (run_handlers is l).1)
      pub responses : List Response
      pub lines : List B
      pub called : (run_handlers is l).1.client.called ≡ l.client.called ++ responses
      pub taken : Yields line responses lines

    -- The call ended at this response, after these.
    pub record Throws (is : List ℕ) (l : Loop N) : Type 1 where
      pub exception : Exception
      pub responses : List Response
      pub lines : List B
      pub last : Response
      pub later : List Response
      pub ended : (run_for is l).0 ≡ throw exception
      pub called : (run_for is l).1.client.called ≡ l.client.called ++ (responses ++ last ∷ [])
      pub taken : Yields line responses lines
      pub thrown : line last ≡ throw exception
      pub goes_on : (run_handlers is l).1.client.called ≡ (run_for is l).1.client.called ++ later

    Handled-lined :
        {i : ℕ} {l k : Loop N} {es : List Event}
        → IsCalm (lined line)
        → AllLined l
        → Handled i l es k
        → ((es ≡ []) × (k.client.called ≡ l.client.called))
          ⊎ ((r : Response) × (k.client.called ≡ l.client.called ++ r ∷ [])
              × (result_of es ≡ lined line r))
    Handled-lined {i} {l} calm all d = elim (Phase-cases d.next) [
      | inl (operation, h) ↦
          inl (d.made ∙ rw h refl, d.called ∙ rw (rw h at d.passed) (append-nil l.client.called))
      | inr (outcome, h) ↦
          let same : d.exchange.callback ≡ lined line =
            All-get (λ c. c ≡ lined line) (callbacks_of l.exchanges) i all
              (get_elem?-map (λ e. e.callback) l.exchanges i d.found) in
          let (r, one, gave) =
            Called-calm (lined line) outcome d.responses d.result calm
              (subst (λ c. Called c outcome d.responses d.result) same (rw h at d.passed)) in
          inr (
            r,
            d.called ∙ ap (λ z. l.client.called ++ z) one,
            ap result_of d.made ∙ rw h (sym gave),
          )
    ]

    -- A handler first that threw nothing, and then the others.
    extends :
        (i : ℕ) (is : List ℕ) (l k : Loop N) (zs : List Response) (ls : List B)
        → run_for (i ∷ is) l ≡ run_for is k
        → (run_handlers (i ∷ is) l).1 ≡ (run_handlers is k).1
        → k.client.called ≡ l.client.called ++ zs
        → Yields line zs ls
        → Returns is k ⊎ Throws is k
        → Returns (i ∷ is) l ⊎ Throws (i ∷ is) l
    extends i is l k zs ls a b c y (inl v) = inl (record {
      ran = a ∙ v.ran ∙ ap (λ z. (ok tt, z)) (sym b);
      responses = zs ++ v.responses;
      lines = ls ++ v.lines;
      called =
          ap (λ z. z.client.called) b
          ∙ v.called
          ∙ ap (λ z. z ++ v.responses) c
          ∙ append_assoc l.client.called zs v.responses;
      taken = Yields-append line zs v.responses ls v.lines y v.taken;
    })
    extends i is l k zs ls a b c y (inr v) = inr (record {
      exception = v.exception;
      responses = zs ++ v.responses;
      lines = ls ++ v.lines;
      last = v.last;
      later = v.later;
      ended = ap (λ z. z.0) a ∙ v.ended;
      called =
          ap (λ z. z.1.client.called) a
          ∙ v.called
          ∙ ap (λ z. z ++ (v.responses ++ v.last ∷ [])) c
          ∙ append_assoc l.client.called zs (v.responses ++ v.last ∷ [])
          ∙ ap (λ z. l.client.called ++ z) (sym (append_assoc zs v.responses (v.last ∷ [])));
      taken = Yields-append line zs v.responses ls v.lines y v.taken;
      thrown = v.thrown;
      goes_on =
          ap (λ z. z.client.called) b ∙ v.goes_on ∙ ap (λ z. z.1.client.called ++ v.later) (sym a);
    })

    -- With callbacks that print and throw no `Error`, such a call runs all of the handlers, and
    -- their responses are taken, or it ends at the first response that is not.
    pub run_for-lined :
        (is : List ℕ) (l : Loop N) → IsCalm (lined line) → AllLined l → Returns is l ⊎ Throws is l
    unfolding run_for run_handlers
    run_for-lined [] l calm all = inl (record {
      ran = refl;
      responses = [];
      lines = [];
      called = sym (append-nil l.client.called);
      taken = tt;
    })
    run_for-lined (i ∷ is) l calm all = elim (Option-cases (complete i l)) [
      | inl h ↦
          extends i is l l [] [] (rw (h, run_for) refl) (rw (h, run_handlers) refl)
            (sym (append-nil l.client.called)) tt (run_for-lined is l calm all)
      | inr ((es, k), h) ↦
          let d = complete-Handled i l es k h in
          let kept : AllLined k =
            subst (All (λ c. c ≡ lined line)) (sym (Handled-callbacks d)) all in
          elim (Handled-lined calm all d) [
            | inl (quiet, same) ↦
                let silent : result_of es ≡ ok tt = ap result_of quiet in
                extends i is l k [] [] (rw (h, silent, run_for) refl) (rw (h, run_handlers) refl)
                  (same ∙ sym (append-nil l.client.called)) tt (run_for-lined is k calm kept)
            | inr (r, more, gave) ↦ elim (Result-cases (line r)) [
              | inl (y, g) ↦
                  let fine : result_of es ≡ ok tt = gave ∙ rw g refl in
                  extends i is l k (r ∷ []) (y ∷ []) (rw (h, fine, run_for) refl)
                    (rw (h, run_handlers) refl) more (g, tt) (run_for-lined is k calm kept)
              | inr (x, g) ↦
                  let broken : result_of es ≡ throw x = gave ∙ rw g refl in
                  let (later, adds) = run_handlers-called is k in
                  inr (record {
                    exception = x;
                    responses = [];
                    lines = [];
                    last = r;
                    later = later;
                    ended = rw (h, broken, run_for) refl;
                    called = rw (h, broken, run_for) more;
                    taken = tt;
                    thrown = g;
                    goes_on = rw (h, broken, run_for, run_handlers) adds;
                  })
            ]
          ]
    ]
