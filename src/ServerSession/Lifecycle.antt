-- ===== src/ServerSession/Lifecycle.antt =====
-- The read and write loop of a session: its handlers as steps on what the network reports, and the
-- order of its messages. `exchanges` are the requests read and the responses written, newest first.
use native.Mathlib.Omega.{arith}
use jsonrpc_for_cpp.Registry.{Registry}
use jsonrpc_for_cpp.Json.{JsonLib}
use Prim.Native.String.{◌++◌ as append}
use jsonrpc_for_cpp.Prelude.{
  List, [], ◌∷◌, none, some, Bool, String, Option, not, ◌++◌, All, subst, true, ◌≡◌, false, refl,
  if◌then◌else◌, inl, ◌⊎◌, inr,
}
use jsonrpc_for_cpp.ServerSession.{
  HttpRequest, HttpResponse, Received, answers, receive, Processes, calls_for, escapes,
}

-- What the session waits for: a request, or the end of a write, after which it closes or not.
-- `closed` is after `do_close`; `abandoned` is after a return with no operation pending.
pub data Phase : Type 0 where
  reading : Phase
  writing : Bool → Phase
  closed abandoned : Phase

-- `logger` tells whether there is one, and `logs` what was passed to it.
pub record Session (W : Type 0) : Type 0 where
  pub phase : Phase
  pub exchanges : List (HttpRequest × HttpResponse)
  pub logger : Bool
  pub logs : List String
  pub world : W

module _ ⦃J : JsonLib⦄ where
  -- What `process_request` logs.
  unfoldable pub received_logs : Received → List String
  received_logs (answers message res) = message ∷ []
  received_logs (calls_for requests is_batch) = []
  received_logs (escapes x) = []

  module _ {W : Type 0} where
    -- The constructor and `start`.
    unfoldable pub start : Bool → W → Session W
    start logger w = record {
      phase = reading;
      exchanges = [];
      logger = logger;
      logs = [];
      world = w;
    }

    unfoldable pub log : List String → Session W → Session W
    log messages s = record s { logs = if s.logger then s.logs ++ messages else s.logs }

    -- `on_read` with an error: the end of the stream closes, any other error gives up.
    unfoldable pub on_end_of_stream : Session W → Session W
    on_end_of_stream s = record s { phase = closed }

    unfoldable pub on_read_error : String → Session W → Session W
    unfolding log
    on_read_error message s = record (log (append "读取请求失败: " message ∷ []) s) { phase = abandoned }

    -- `on_read` with a request that was processed, up to `do_write`.
    unfoldable pub do_write : Bool → HttpRequest → HttpResponse → W → Session W → Session W
    unfolding received_logs log
    do_write fresh req res w s = record (log (received_logs (receive fresh req)) s) {
      phase = writing (not res.keep_alive);
      exchanges = (req, res) ∷ s.exchanges;
      world = w;
    }

    -- `on_write`
    unfoldable pub on_write : Option String → Bool → Session W → Session W
    unfolding log
    on_write (some message) close s = record (log (append "写入响应失败: " message ∷ []) s) {
      phase = abandoned;
    }
    on_write none true s = record s { phase = closed }
    on_write none false s = record s { phase = reading }

    module _ (fresh : Bool) (g : Registry W) where
      pub data SessionStep (s t : Session W) : Type 0 where
        ends : s.phase ≡ reading → t ≡ on_end_of_stream s → SessionStep s t
        fails :
            (message : String) → s.phase ≡ reading → t ≡ on_read_error message s → SessionStep s t
        processes :
            (req : HttpRequest) (res : HttpResponse) (w : W)
            → s.phase ≡ reading
            → Processes fresh g req s.world res w
            → t ≡ do_write fresh req res w s
            → SessionStep s t
        writes :
            (ec : Option String) (close : Bool)
            → s.phase ≡ writing close
            → t ≡ on_write ec close s
            → SessionStep s t

      pub data SessionRun (s : Session W) : Session W → Type 0 where
        rest : SessionRun s s
        then_step : {t u : Session W} → SessionRun s t → SessionStep t u → SessionRun s u

      -- Each exchange is one that `process_request` makes, from the state that the one before left.
      abbrev pub Chain : W → List (HttpRequest × HttpResponse) → W → Type 0
      Chain w [] w' = w ≡ w'
      Chain w ((req, res) ∷ es) w' = (v : W) × Chain w es v × Processes fresh g req v res w'

      -- A session that reads has kept the connection in every response; one that writes, in every
      -- response but perhaps the one that is being written, after which it closes if it did not.
      abbrev pub Kept : Phase → List (HttpRequest × HttpResponse) → Type 0
      Kept reading es = All (λ e. e.1.keep_alive ≡ true) es
      Kept (writing close) [] = ⊥
      Kept (writing close) (e ∷ es) =
          (close ≡ not e.1.keep_alive) × All (λ e. e.1.keep_alive ≡ true) es
      Kept closed es = Unit
      Kept abandoned es = Unit

      pub record IsOrderly (w : W) (s : Session W) : Type 0 where
        pub chain : Chain w s.exchanges s.world
        pub kept : Kept s.phase s.exchanges

      written-Kept :
          (ec : Option String) (close : Bool) (s : Session W)
          (es : List (HttpRequest × HttpResponse))
          → s.exchanges ≡ es
          → Kept (writing close) es
          → Kept (on_write ec close s).phase es
      unfolding on_write
      written-Kept (some message) close s es e k = tt
      written-Kept none true s es e k = tt
      written-Kept none false s [] e k = elim k [ ]
      written-Kept none false s (x ∷ xs) e k = (ground arith, k.1)

      -- What a step adds to the exchanges: nothing, or one that `process_request` makes.
      abbrev pub Adds : Session W → Session W → Type 0
      Adds s t =
          ((t.exchanges ≡ s.exchanges) × (t.world ≡ s.world))
          ⊎ ((req : HttpRequest) × (res : HttpResponse) × (t.exchanges ≡ (req, res) ∷ s.exchanges)
              × Processes fresh g req s.world res t.world)

      written-Adds :
          (ec : Option String) (close : Bool) (s : Session W)
          → ((on_write ec close s).exchanges ≡ s.exchanges)
            × ((on_write ec close s).world ≡ s.world)
      unfolding on_write
      written-Adds (some message) close s = (refl, refl)
      written-Adds none true s = (refl, refl)
      written-Adds none false s = (refl, refl)

      pub Step-Adds : {s t : Session W} → SessionStep s t → Adds s t
      unfolding on_end_of_stream on_read_error do_write
      Step-Adds (ends p e) = rw e (inl (refl, refl))
      Step-Adds (fails m p e) = rw e (inl (refl, refl))
      Step-Adds (processes req res v p c e) = rw e (inr (req, res, refl, c))
      Step-Adds {s} (writes ec close p e) = rw e (inl (written-Adds ec close s))

      pub Step-Kept :
          {s t : Session W} → SessionStep s t → Kept s.phase s.exchanges → Kept t.phase t.exchanges
      unfolding on_end_of_stream on_read_error do_write
      Step-Kept (ends p e) k = rw e tt
      Step-Kept (fails m p e) k = rw e tt
      Step-Kept {s} (processes req res v p c e) k = rw e (refl, subst (λ z. Kept z s.exchanges) p k)
      Step-Kept {s} (writes ec close p e) k =
          rw (e, (written-Adds ec close s).0)
            (written-Kept ec close s s.exchanges refl (subst (λ z. Kept z s.exchanges) p k))

      pub Adds-Chain :
          (w : W) (s t : Session W)
          → Adds s t
          → Chain w s.exchanges s.world
          → Chain w t.exchanges t.world
      Adds-Chain w s t (inl (same, still)) c = rw (same, still) c
      Adds-Chain w s t (inr (req, res, more, made)) c = rw more (s.world, c, made)

      Step-IsOrderly : {w : W} {s t : Session W} → SessionStep s t → IsOrderly w s → IsOrderly w t
      Step-IsOrderly {w} {s} {t} step o = record {
        chain = Adds-Chain w s t (Step-Adds step) o.chain;
        kept = Step-Kept step o.kept;
      }

      -- On every run of a session from its start its exchanges form a chain: each response is one
      -- that `process_request` makes for its request, from the state that the exchange before
      -- left. A session that reads has kept the connection in every response, and one that writes
      -- will close it exactly if the response that it writes does not keep it.
      pub SessionRun-IsOrderly :
          (logger : Bool) (w : W) {s : Session W} → SessionRun (start logger w) s → IsOrderly w s
      SessionRun-IsOrderly logger w rest = unfold start in record { chain = refl; kept = tt }
      SessionRun-IsOrderly logger w (then_step run step) =
          Step-IsOrderly step (SessionRun-IsOrderly logger w run)
