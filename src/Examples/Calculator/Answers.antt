-- ===== src/Examples/Calculator/Answers.antt =====
-- What a typed call to the calculator gives its caller.
use jsonrpc_for_cpp.Types.Request.{request_of}
use jsonrpc_for_cpp.Registry.Batch.{task_response}
use jsonrpc_for_cpp.Converter.Args.Laws.{AreFaithful, extract_args-pack_args}
use jsonrpc_for_cpp.Converter.Args.{Tuple, pack_args}
use native.Mathlib.Omega.{arith}
use jsonrpc_for_cpp.Asio.{done}
use jsonrpc_for_cpp.Client.{Client, call, create_session, typed_request}
use jsonrpc_for_cpp.Client.Remote.{call-wrap, call_throws}
use jsonrpc_for_cpp.ClientSession.{Network, exchange}
use jsonrpc_for_cpp.Converter.{Converter, int_converter, double_converter}
use jsonrpc_for_cpp.Converter.RoundTrip.{int_converter-IsFaithful}
use jsonrpc_for_cpp.Errors.ErrorCode
use jsonrpc_for_cpp.Errors.{error_of, error_with}
use jsonrpc_for_cpp.Examples.Calculator.{Arithmetic, two_ints, add, subtract, multiply, divide}
use jsonrpc_for_cpp.Examples.Calculator.Serves.{Offers}
use jsonrpc_for_cpp.Json.{JsonLib, IsStable, int64, null_value, array}
use jsonrpc_for_cpp.Prelude.{Bool, String, refl, true, ◌≡◌, ◌^◌, some, no_nul, ◌∷◌, []}
use jsonrpc_for_cpp.Prelude.Int.{ℤ, pos, InRange, in_range-InRange, ◌+ℤ◌, ◌-ℤ◌, ◌*ℤ◌}
use jsonrpc_for_cpp.Protocol.{request_value, response_value, serialize_request}
use jsonrpc_for_cpp.Registry.{Registry, find_entry, invoke, respond}
use jsonrpc_for_cpp.Results.{ok, throw, rpc}
use jsonrpc_for_cpp.ServerSession.{HttpRequest, HttpResponse, Processes}
use jsonrpc_for_cpp.ServerSession.Receives.{IsJsonPost}
use jsonrpc_for_cpp.Types.Response.{failure, success}
use jsonrpc_for_cpp.Wrapper.{Action, wrap, invoke_and_convert}

-- The operations that give an `int`, with the names that the server registers.
pub data Operation : Type 0 where
  adding subtracting multiplying : Operation

abbrev pub name : Operation → String
name adding = "add"
name subtracting = "subtract"
name multiplying = "multiply"

abbrev pub meaning : Operation → ℤ → ℤ → ℤ
meaning adding a b = a +ℤ b
meaning subtracting a b = a -ℤ b
meaning multiplying a b = a *ℤ b

pub clean : (o : Operation) → no_nul (name o) ≡ true
clean adding = refl
clean subtracting = refl
clean multiplying = refl

module _ ⦃J : JsonLib⦄ where
  open J use {Value, value}

  module _ (m : Arithmetic) {W : Type 0} where
    abbrev operate : Operation → Tuple two_ints → Action W ℤ
    operate adding = add m
    operate subtracting = subtract m
    operate multiplying = multiply m

    found :
        (g : Registry W) (o : Operation)
        → Offers m g
        → find_entry (name o) g.methods ≡ some (wrap two_ints (operate o) int_converter.to_json)
    found g adding offers = offers.adds
    found g subtracting offers = offers.subtracts
    found g multiplying offers = offers.multiplies

    returns :
        (o : Operation) (a b : ℤ) (w : W)
        → InRange (2 ^ 31) (meaning o a b)
        → operate o (a, (b, tt)) w ≡ (ok (meaning o a b), w)
    unfolding add subtract multiply
    returns adding a b w h = rw (in_range-InRange (2 ^ 31) (a +ℤ b) h) refl
    returns subtracting a b w h = rw (in_range-InRange (2 ^ 31) (a -ℤ b) h) refl
    returns multiplying a b w h = rw (in_range-InRange (2 ^ 31) (a *ℤ b) h) refl

  -- Two `int`s survive the way to the function.
  two_ints-AreFaithful :
      (a b : ℤ) → InRange (2 ^ 31) a → InRange (2 ^ 31) b → AreFaithful two_ints (a, (b, tt))
  two_ints-AreFaithful a b h k = (int_converter-IsFaithful a h, (int_converter-IsFaithful b k, tt))

  module _ (m : Arithmetic) {W : Type 0} (g : Registry W) (offers : Offers m g) where
    -- The task of a request for an operation answers with its meaning.
    pub task_operation :
        (o : Operation) (a b : ℤ) (id : Value) (w : W)
        → InRange (2 ^ 31) a
        → InRange (2 ^ 31) b
        → InRange (2 ^ 31) (meaning o a b)
        → task_response g
            (request_of (name o) (value (array (value (int64 a) ∷ value (int64 b) ∷ []))) id)
            w
          ≡ (success (value (int64 (meaning o a b))) id, w)
    unfolding task_response invoke respond wrap invoke_and_convert request_of pack_args
    task_operation o a b id w h k l = ground (
      arith,
      found m g o offers,
      extract_args-pack_args two_ints (a, (b, tt)) (two_ints-AreFaithful a b h k),
      returns m o a b w l,
    )

  module _ (m : Arithmetic) {W N : Type 0} (n : Network N) (g : Registry W) (c : Client N)
      (offers : Offers m g) (a : ℤ) (left_range : InRange (2 ^ 31) a) where
    module _ (o : Operation) (b : ℤ) (right_range : InRange (2 ^ 31) b)
        (fits : InRange (2 ^ 31) (meaning o a b)) where
      -- An operation of the calculator, called through a session of a server that offers its
      -- functions, returns the number that the operation means, and changes nothing on the server:
      -- if the arguments and that number are `int`s; if the texts of the request and of the
      -- response are read back as written; and if the body that the network delivers is what the
      -- session writes for the body that the client sent.
      pub call_operation :
          (fresh : Bool) (req : HttpRequest) (w w' : W) (res : HttpResponse)
          → IsStable (request_value (typed_request (name o) two_ints (a, (b, tt)) c).0)
          → IsJsonPost req
          → req.body ≡ serialize_request (typed_request (name o) two_ints (a, (b, tt)) c).0
          → Processes fresh g req w res w'
          → (exchange n
              (serialize_request (typed_request (name o) two_ints (a, (b, tt)) c).0)
              (create_session (typed_request (name o) two_ints (a, (b, tt)) c).1)).0
            ≡ done res.body
          → IsStable
              (response_value (success (value (int64 (meaning o a b))) (value (int64 c.next_id))))
          → ((call n int_converter (name o) two_ints (a, (b, tt)) c).0 ≡ ok (meaning o a b))
            × (w' ≡ w)
      call_operation fresh req w w' res stable p body processed sent k =
          call-wrap two_ints (a, (b, tt)) int_converter (name o) n g c fresh req w w' res (clean o)
            stable p body processed sent (operate m o) int_converter.to_json (meaning o a b)
            (meaning o a b) w (found m g o offers) (two_ints-AreFaithful a b left_range right_range)
            (int_converter-IsFaithful (meaning o a b) fits) (returns m o a b w fits) k

    -- To divide an `int` by zero, whatever result type the caller asked for, throws InvalidParams
    -- with the server's message, and changes nothing on the server: under the same conditions on
    -- the texts, the session and the network.
    pub divide_by_zero :
        {R : Type 0} (converter : Converter R) (fresh : Bool) (req : HttpRequest) (w w' : W)
        (res : HttpResponse)
        → IsStable (request_value (typed_request "divide" two_ints (a, (pos 0, tt)) c).0)
        → IsJsonPost req
        → req.body ≡ serialize_request (typed_request "divide" two_ints (a, (pos 0, tt)) c).0
        → Processes fresh g req w res w'
        → (exchange n
            (serialize_request (typed_request "divide" two_ints (a, (pos 0, tt)) c).0)
            (create_session (typed_request "divide" two_ints (a, (pos 0, tt)) c).1)).0
          ≡ done res.body
        → IsStable (
            response_value
              (failure (error_of ErrorCode.invalid_params "除数不能为 0") (value (int64 c.next_id))))
        → ((call n converter "divide" two_ints (a, (pos 0, tt)) c).0
            ≡ throw (rpc (error_of ErrorCode.invalid_params "除数不能为 0")))
          × (w' ≡ w)
    divide_by_zero converter fresh req w w' res stable p body processed sent k =
        unfold error_of error_with in
        call_throws two_ints (a, (pos 0, tt)) converter "divide" n g c fresh req w w' res refl
          stable p body processed sent (divide m) (double_converter m.floats).to_json
          ErrorCode.invalid_params "除数不能为 0" null_value w offers.divides
          (two_ints-AreFaithful a (pos 0) left_range (omega arith)) (unfold divide in refl)
          (omega arith) refl k
