-- ===== src/Tests/Conversations.antt =====
-- The coroutine server on one request, in two pieces.
use boost.Prelude.{◌≡◌, refl, false, List, [], ◌∷◌, ◌++◌, some, Bytes, codes, take, drop}
use boost.Asio.Reply.{Reply, ok, to_buffers}
use boost.Asio.Connection.{success}
use boost.Asio.RequestParser.Wire.{print}
use boost.Asio.CoroutineServer.{Coroutine, Environment, accepting, writing, invoke}
use boost.Asio.CoroutineServer.Delivery.{receive_all, reply_to, invoke-receive_all}
use boost.Tests.Coroutine.{
  cast, post, used_parser, post-IsWire, two_bytes-IsPlainValue, two-find_length,
}

abbrev no_reply : Reply
no_reply = record { status = ok; headers = []; content = [] }

-- The handler sends the content back.
abbrev mirror : Environment
mirror = record {
  request_handler = λ request content reply. record reply { content = content };
  new_reply = no_reply;
  cast = cast;
  lexical_cast = λ n. [];
}

abbrev listener : Coroutine
listener = record {
  place = accepting;
  request_parser = used_parser;
  reply = no_reply;
  is_shut_down = false;
}

abbrev two_pieces : List Bytes
two_pieces = let text = print post (codes "hi" ++ codes "x") in take 9 text ∷ drop 9 text ∷ []

invoke-receive_all_example :
    (child : Coroutine) × (invoke mirror success [] listener ≡ (listener, some child))
    × ((receive_all mirror child two_pieces).place
        ≡ writing (to_buffers (reply_to mirror post (codes "hi"))))
invoke-receive_all_example =
    invoke-receive_all mirror listener post (codes "hi") (codes "x") two_pieces refl refl
      post-IsWire (λ e. cc) (two_bytes-IsPlainValue, tt) two-find_length refl
