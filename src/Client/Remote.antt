-- ===== src/Client/Remote.antt =====
-- A typed call through a server session to a registered function and back.
use jsonrpc_for_cpp.Errors.ErrorCode
use jsonrpc_for_cpp.Client.Task.{call-task_response}
use jsonrpc_for_cpp.Prelude.Int.{ℤ, InRange}
use jsonrpc_for_cpp.Errors.{Error, error_of, error_with}
use jsonrpc_for_cpp.Asio.{done}
use Prim.Native.String.{◌++◌ as append}
use native.Mathlib.Omega.{arith}
use jsonrpc_for_cpp.Client.{Client, call, create_session, typed_request, unpack}
use jsonrpc_for_cpp.ClientSession.{Network, exchange}
use jsonrpc_for_cpp.Converter.{Converter}
use jsonrpc_for_cpp.Converter.Args.{Param, Tuple}
use jsonrpc_for_cpp.Converter.Args.Laws.{AreFaithful, extract_args-pack_args}
use jsonrpc_for_cpp.Results.{ok, throw, rpc}
use jsonrpc_for_cpp.Json.{JsonLib, int64, IsStable, null_value}
use jsonrpc_for_cpp.Protocol.{request_value, response_value, serialize_request}
use jsonrpc_for_cpp.Protocol.RoundTrip.{failed_with, succeeded, Sound}
use jsonrpc_for_cpp.Prelude.{
  Bool, List, some, String, ◌≡◌, true, no_nul, no_nul-append, refl, ap, ◌∙◌, none, subst, sym, ◌^◌,
}
use jsonrpc_for_cpp.Registry.{Registry, find_entry, invoke, respond}
use jsonrpc_for_cpp.Registry.Batch.{task_response}
use jsonrpc_for_cpp.ServerSession.{HttpRequest, HttpResponse, Processes}
use jsonrpc_for_cpp.ServerSession.Receives.{IsJsonPost}
use jsonrpc_for_cpp.Wrapper.{Action, wrap, invoke_and_convert}
use jsonrpc_for_cpp.Types.Request.{request_of}
use jsonrpc_for_cpp.Types.Response.{success, result, Response, error, failure}

module _ ⦃J : JsonLib⦄ where
  open J use {Value, value}

  module _ {W S N : Type 0} (ps : List Param) (args : Tuple ps) (converter : Converter S)
      (method : String) (n : Network N) (g : Registry W) (c : Client N) where
    -- The task of the call, whatever the function does.
    module _ {R : Type 0} (func : Tuple ps → Action W R) (encode : R → Value) (w v : W)
        (found : find_entry method g.methods ≡ some (wrap ps func encode))
        (faithful : AreFaithful ps args) where
      task_returns :
          (r : R)
          → func args w ≡ (ok r, v)
          → task_response g (typed_request method ps args c).0 w
            ≡ (success (encode r) (value (int64 c.next_id)), v)
      unfolding task_response invoke respond wrap invoke_and_convert typed_request request_of
      task_returns r returns = ground (arith, extract_args-pack_args ps args faithful)

      task_throws :
          (e : Error)
          → func args w ≡ (throw (rpc e), v)
          → task_response g (typed_request method ps args c).0 w
            ≡ (failure e (value (int64 c.next_id)), v)
      unfolding task_response invoke respond wrap invoke_and_convert typed_request request_of
      task_throws e throws = ground (arith, extract_args-pack_args ps args faithful)

    task_unknown :
        (w : W)
        → find_entry method g.methods ≡ none
        → task_response g (typed_request method ps args c).0 w ≡ (
          failure
              (error_of ErrorCode.method_not_found (append "方法不存在: " method))
              (value (int64 c.next_id)),
          w,
        )
    unfolding task_response invoke respond typed_request request_of
    task_unknown w missing = ground arith

    module _ (fresh : Bool) (req : HttpRequest) (w w' : W) (res : HttpResponse)
        (clean : no_nul method ≡ true)
        (stable : IsStable (request_value (typed_request method ps args c).0)) (p : IsJsonPost req)
        (b : req.body ≡ serialize_request (typed_request method ps args c).0)
        (processed : Processes fresh g req w res w')
        (sent : (exchange n
            (serialize_request (typed_request method ps args c).0)
            (create_session (typed_request method ps args c).1)).0
          ≡ done res.body) where
      -- What the client sees of a task whose response is known.
      seen :
          (x : Response) (v : W)
          → task_response g (typed_request method ps args c).0 w ≡ (x, v)
          → Sound x
          → IsStable (response_value x)
          → ((call n converter method ps args c).0 ≡ unpack converter x) × (w' ≡ v)
      seen x v task sound k =
          let (shown, left) =
            call-task_response n g converter method ps args fresh c req w w' res clean
              (subst Sound (ap (λ z. z.0) (sym task)) sound) stable
              (subst (λ z. IsStable (response_value z)) (ap (λ z. z.0) (sym task)) k) p b processed
              sent in
          (shown ∙ ap (λ z. unpack converter z.0) task, left ∙ ap (λ z. z.1) task)

      module _ {R : Type 0} (func : Tuple ps → Action W R) (encode : R → Value) where
        -- A typed call returns what the function returns on the same arguments at the state of the
        -- server's functions that the session finds, as the caller's type reads the JSON value of
        -- that, and leaves the state that the function leaves: if the server's registry holds the
        -- function under the method's name, which has no NUL; if the conversions give back the
        -- arguments, and the caller's conversion reads the value; if the texts of the request and of
        -- its response are read back as written; and if the body that the network delivers is what a
        -- session of that server writes for the body that the client sent.
        pub call-wrap :
            (r : R) (s : S) (v : W)
            → find_entry method g.methods ≡ some (wrap ps func encode)
            → AreFaithful ps args
            → converter.from_json (encode r) ≡ ok s
            → func args w ≡ (ok r, v)
            → IsStable (response_value (success (encode r) (value (int64 c.next_id))))
            → ((call n converter method ps args c).0 ≡ ok s) × (w' ≡ v)
        call-wrap r s v found faithful back returns k =
            let (shown, left) =
              seen (success (encode r) (value (int64 c.next_id))) v
                (task_returns func encode w v found faithful r returns)
                (succeeded (encode r) (value (int64 c.next_id))) k in
            (shown ∙ (unfold unpack success result in back), left)

        -- If the function throws an `Error` with an `int` code and no NUL in its message, a typed
        -- call of it throws the same error, its data included, and leaves the state that the
        -- function left when it threw: if the server's registry holds the function under the
        -- method's name, which has no NUL; if the conversions give back the arguments; if the
        -- texts of the request and of its response are read back as written; and if the body that
        -- the network delivers is what a session of that server writes for the body that the
        -- client sent.
        pub call_throws :
            (code : ℤ) (message : String) (extra : Value) (v : W)
            → find_entry method g.methods ≡ some (wrap ps func encode)
            → AreFaithful ps args
            → func args w ≡ (throw (rpc (error_with code message extra)), v)
            → InRange (2 ^ 31) code
            → no_nul message ≡ true
            → IsStable
                (response_value (failure (error_with code message extra) (value (int64 c.next_id))))
            → ((call n converter method ps args c).0 ≡ throw (rpc (error_with code message extra)))
              × (w' ≡ v)
        call_throws code message extra v found faithful throws range text k =
            let (shown, left) =
              seen (failure (error_with code message extra) (value (int64 c.next_id))) v
                (task_throws func encode w v found faithful (error_with code message extra) throws)
                (failed_with code message extra (value (int64 c.next_id)) range text) k in
            (shown ∙ (unfold unpack failure error in refl), left)

      -- A typed call of a method that the server does not have throws a MethodNotFound that names
      -- it, and leaves the state of the server's functions as it was: if the name has no NUL, and
      -- under the same conditions on the texts and on what the network delivers.
      pub call_unknown :
          find_entry method g.methods ≡ none
          → IsStable (
              response_value (
                failure
                  (error_of ErrorCode.method_not_found (append "方法不存在: " method))
                  (value (int64 c.next_id))))
          → ((call n converter method ps args c).0
              ≡ throw (rpc (error_of ErrorCode.method_not_found (append "方法不存在: " method))))
            × (w' ≡ w)
      call_unknown missing k =
          let (shown, left) =
            seen
              (failure (error_of ErrorCode.method_not_found (append "方法不存在: " method))
                (value (int64 c.next_id)))
              w (task_unknown w missing)
              (unfold error_of error_with in
                failed_with ErrorCode.method_not_found (append "方法不存在: " method) null_value
                  (value (int64 c.next_id)) (omega arith)
                  (no_nul-append "方法不存在: " method refl clean))
              k in
          (shown ∙ (unfold unpack failure error in refl), left)
