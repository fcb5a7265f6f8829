-- ===== src/Server/Connections.antt =====
-- The sessions of one server, which include/jsonrpc/impl/server.ipp starts in `on_accept`. One
-- thread runs the event loop, so that a handler of a session runs to its end before another; the
-- sessions share the state of the user's functions.
use jsonrpc_for_cpp.Registry.{Registry}
use jsonrpc_for_cpp.ServerSession.{HttpRequest, HttpResponse}
use jsonrpc_for_cpp.Prelude.{List, Bool, ℕ, get_elem?, ◌++◌, All, [], ◌∷◌, ◌≡◌, some, set}
use jsonrpc_for_cpp.Json.{JsonLib}
use mathlib.Core.List.{Perm, Sublist}
use mathlib.Core.List.Perm
use mathlib.Core.List.Sublist
use mathlib.Core.List.Sublistᴰ
use jsonrpc_for_cpp.ServerSession.Lifecycle.{Session, start, SessionStep, Chain, Kept}

pub record Host (W : Type 0) : Type 0 where
  pub connections : List (Session W)
  pub world : W

-- A session, at the state that all share.
abbrev pub at_world : {W : Type 0} → W → Session W → Session W
at_world w s = record s { world = w }

-- All exchanges, by session.
abbrev pub exchanged : {W : Type 0} → List (Session W) → List (HttpRequest × HttpResponse)
exchanged [] = []
exchanged (s ∷ ss) = s.exchanges ++ exchanged ss

module _ ⦃J : JsonLib⦄ where
  module _ {W : Type 0} (fresh : Bool) (g : Registry W) where
    -- A client connects, or a handler of one session runs.
    pub data HostStep (h k : Host W) : Type 0 where
      connects :
          (logger : Bool)
          → k ≡ record h { connections = h.connections ++ start logger h.world ∷ [] }
          → HostStep h k
      moves :
          (i : ℕ) (s t : Session W)
          → get_elem? h.connections i ≡ some s
          → SessionStep fresh g (at_world h.world s) t
          → k ≡ record { connections = set h.connections i t; world = t.world }
          → HostStep h k

    pub data HostRun (h : Host W) : Host W → Type 0 where
      rest : HostRun h h
      then_step : {k l : Host W} → HostRun h k → HostStep k l → HostRun h l

    -- One history of all exchanges, newest first, explains what every session answered: it is a
    -- chain from the first state to the present one, it has the exchanges of all sessions and no
    -- others, each session's in their order, and every session keeps or closes its connection as
    -- its responses say.
    pub record IsServed (w : W) (h : Host W) : Type 0 where
      pub history : List (HttpRequest × HttpResponse)
      pub chain : Chain fresh g w history h.world
      pub complete : Perm history (exchanged h.connections)
      pub in_order : All (λ s. Sublist s.exchanges history) h.connections
      pub kept : All (λ s. Kept fresh g s.phase s.exchanges) h.connections
