-- ===== src/Asio/Porthopper/Client.antt =====
-- doc_searcher/data/input/html/boost_asio/example/porthopper/client.cpp: the loop of main, which
-- receives frames and moves from port to port. A socket is its port. A frame that is shown is kept
-- whole: what is printed is its payload.
use boost.Prelude.{
  ◌-◌, ℕ, Bool, true, false, Option, List, [], ◌∷◌, ◌++◌, none, some, ltb, if◌then◌else◌, Bytes,
}
use boost.Asio.Connection.{ErrorCode, success, operation_aborted, failure}
use boost.Asio.Stream.{Hex}
use boost.Asio.Porthopper.{start, change, number}

-- Frames are received, so many more before the next move; or the client moves to a new port, with
-- what the write of the request and the first receive there have come to; or main has thrown.
pub data Phase : Type 0 where
  receiving : (left : ℕ) → Phase
  moving :
      (port : ℕ) (control_result : Option ErrorCode) (new_data : Option (ErrorCode × Bytes)) → Phase
  thrown : Phase

pub record Client : Type 0 where
  pub last_frame_number : ℕ
  pub data_socket : Option ℕ
  pub data_endpoint : ℕ
  pub phase : Phase
  pub is_receiving : Bool
  pub requests : List Bytes
  pub shown : List Bytes

-- `if (data_socket)`, and the receive on it.
abbrev pub listen : Client → Client
listen c = record c { is_receiving = elim c.data_socket [ none ↦ false | some port ↦ true ] }

-- A receive of the fifty that fails throws.
abbrev pub throw : Client → Client
throw c = record c { phase = thrown }

module _ (hex : Hex) where
  -- The client when it has bound its first socket.
  unfoldable pub connect : (port : ℕ) → Client
  connect port = record {
    last_frame_number = 0;
    data_socket = some port;
    data_endpoint = port;
    phase = receiving 50;
    is_receiving = false;
    requests = start hex port ∷ [];
    shown = [];
  }

  unfoldable pub show_frame : Bytes → Client → Client
  unfolding number
  show_frame f c =
      if ltb c.last_frame_number (number hex f)
      then record c { last_frame_number = number hex f; shown = c.shown ++ f ∷ [] }
      else c

  -- The start of a move.
  unfoldable pub renegotiate : (port : ℕ) → Client → Client
  renegotiate port c = listen (record c {
    phase = moving port none none;
    requests = c.requests ++ change hex c.data_endpoint port ∷ [];
  })

  -- A frame of the fifty, of which so many are left, and the port that is bound behind the last.
  unfoldable pub receive : (left port : ℕ) → Bytes → Client → Client
  unfolding show_frame renegotiate
  receive left port f c =
      let next = show_frame f c in
      if ltb 1 left then record next { phase = receiving (left - 1) } else renegotiate port next

  -- The end of a move.
  unfoldable pub finish : (port : ℕ) → ErrorCode → ErrorCode → Bytes → Client → Client
  unfolding show_frame
  finish port success success f1 c =
      show_frame f1
        (record c { data_socket = some port; data_endpoint = port; phase = receiving 50 })
  finish port success operation_aborted f1 c = record c { phase = thrown }
  finish port success failure f1 c = record c { phase = thrown }
  finish port operation_aborted new_result f1 c = record c { phase = thrown }
  finish port failure new_result f1 c = record c { phase = thrown }

  -- `run` returns when all operations have finished.
  unfoldable pub settle : Phase → Client → Client
  unfolding finish
  settle (moving port (some control_result) (some (new_result, f1))) c =
      if c.is_receiving then c else finish port control_result new_result f1 c
  settle _ c = c

  -- The handlers of a move: of the request, of the receive on the new socket, which closes the old
  -- one, and of the receive on the old one, behind which the frame is shown and the loop goes on.
  unfoldable pub handle_control :
      (port : ℕ) → Option (ErrorCode × Bytes) → ErrorCode → Client → Client
  unfolding settle
  handle_control port new_data e c =
      let phase = moving port (some e) new_data in settle phase (record c { phase = phase })

  unfoldable pub handle_new : (port : ℕ) → Option ErrorCode → ErrorCode → Bytes → Client → Client
  unfolding settle
  handle_new port control_result success f1 c =
      let phase = moving port control_result (some (success, f1)) in
      settle phase (record c { phase = phase; data_socket = none })
  handle_new port control_result operation_aborted f1 c =
      let phase = moving port control_result (some (operation_aborted, f1)) in
      settle phase (record c { phase = phase })
  handle_new port control_result failure f1 c =
      let phase = moving port control_result (some (failure, f1)) in
      settle phase (record c { phase = phase })

  unfoldable pub handle_old : ErrorCode → Bytes → Client → Client
  unfolding settle show_frame
  handle_old success f2 c = let next = listen (show_frame f2 c) in settle next.phase next
  handle_old operation_aborted f2 c = settle c.phase (record c { is_receiving = false })
  handle_old failure f2 c = settle c.phase (record c { is_receiving = false })
