-- ===== src/Rpc/Tests.antt =====
-- The calls of guest/shim/src/gl_rpc.h at concrete inputs.
use vw_firmware_mac.Base.{
  ℕ, zero, suc, ◌+◌, ◌<◌, ◌≡◌, refl, arith, replicate, length, All, map, le32,
}
use vw_firmware_mac.Base.{List, [], ◌∷◌, ◌++◌, none, some, true, false}
use vw_firmware_mac.Rpc.Link.{moves, interrupted, fails, Link, send_from, send_all, recv_exact}
use vw_firmware_mac.Rpc.Link.Delivery.{Sent, send_all-Sends}
use vw_firmware_mac.Rpc.Link.Progress.{Willing, Leaves, send_all-progress, recv_exact-progress}
use vw_firmware_mac.Rpc.Request.{
  RpcArg, arg_length, arg_bytes, payload, payload_bytes, arg_header, send_batched, send_request,
  fill_batch, request_header,
}
use vw_firmware_mac.Rpc.Request.Wire.{
  request_bytes, IsReadable, FitsBatch, fill_batch-FitsBatch, send_request-Sends,
}
use vw_firmware_mac.Rpc.Request.Progress.{IsSmall, send_request-Delivers}
use vw_firmware_mac.Rpc.Server.{read, read_command, Response, reply_bytes}
use vw_firmware_mac.Rpc.Server.RoundTrip.{item_of, read_command-request_bytes}
use vw_firmware_mac.Rpc.Client.{
  Client, no_host, rpc, rpc_on, exchange, fail, settle, overlay, Return, dial_link,
}
use vw_firmware_mac.Rpc.Client.Outputs.{Answers, done, input, output}
use vw_firmware_mac.Rpc.Client.Exchange.{Replies, rpc-returns}
use vw_firmware_mac.Rpc.Client.Failure.{Ended, rpc-Ended}

Willing-replicate : (k n : ℕ) → 0 < n → Willing k (replicate k (moves n))
Willing-replicate zero n h = tt
Willing-replicate (suc k) n h = (h, Willing-replicate k n h)

-- A scalar of 1, and room for one word of output.
abbrev scalar : RpcArg
scalar = record { memory = some (1 ∷ 0 ∷ 0 ∷ 0 ∷ []); size = 4; mode = 0 }

abbrev buffer : RpcArg
buffer = record { memory = some (0 ∷ 0 ∷ 0 ∷ 0 ∷ []); size = 4; mode = 2 }

abbrev two_args : List RpcArg
two_args = scalar ∷ buffer ∷ []

-- The result 7 and the word 9.
abbrev response : Response
response = record { result = 7; extra = []; outputs = (9 ∷ 0 ∷ 0 ∷ 0 ∷ []) ∷ [] }

two_args-IsSmall : All IsSmall two_args
unfolding arg_length
two_args-IsSmall = (omega arith, (omega arith, tt))

two_args-IsReadable : All IsReadable two_args
two_args-IsReadable = (omega arith, (omega arith, tt))

two_args-answers : Answers two_args response.outputs
two_args-answers = input refl (output refl (omega arith, omega arith, λ e. cc) done)

response-replies : Replies two_args 0 response
response-replies = record {
  outputs = two_args-answers;
  result = omega arith;
  extra = omega arith;
  room = omega arith;
}

-- A kernel that moves one byte at a time, once for each byte of the exchange.
abbrev patient : ℕ → List ℕ → Link
patient k inbox = record { answers = replicate k (moves 1); outbox = []; inbox = inbox }

abbrev call_bytes : ℕ
call_bytes = length (request_bytes 90 two_args) + (length (reply_bytes response) + 0)

rpc-returns_example :
    (l' : Link) × (rpc
        (record { link = some (patient call_bytes (reply_bytes response ++ [])); rpc_error = 5 })
        no_host
        90
        two_args
        []
        0
      ≡ some (record {
        result = 7;
        extra = [];
        args = scalar ∷ record buffer { memory = some (9 ∷ 0 ∷ 0 ∷ 0 ∷ []) } ∷ [];
        client = record { link = some l'; rpc_error = 5 };
      }))
    × Leaves 0 ([] ++ request_bytes 90 two_args) [] l'
unfolding overlay two_args-answers response-replies
rpc-returns_example =
    rpc-returns two_args 0 response response-replies [] 90 0 5 []
      (patient call_bytes (reply_bytes response ++ [])) no_host two_args-IsSmall refl
      (Willing-replicate call_bytes 1 (omega arith))

-- The kernel refuses the first call of `send`.
abbrev broken : Link
broken = record { answers = fails ∷ []; outbox = []; inbox = [] }

abbrev broken_client : Client
broken_client = record { link = some broken; rpc_error = 0 }

abbrev broken_return : Return
broken_return = record {
  result = 0;
  extra = [];
  args = two_args;
  client = record { link = none; rpc_error = 1282 };
}

broken-send_request :
    send_request 90 two_args broken ≡ some (false, record { answers = []; outbox = []; inbox = [] })
unfolding send_request fill_batch send_batched request_header arg_header arg_length payload
    payload_bytes arg_bytes le32 send_all send_from
broken-send_request = refl

broken-rpc : rpc broken_client no_host 90 two_args [] 0 ≡ some broken_return
unfolding rpc rpc_on dial_link exchange fail settle send_request send_batched fill_batch arg_length
    arg_bytes arg_header payload payload_bytes send_all send_from request_header le32
broken-rpc = refl

rpc-Ended_example : Ended broken_client (some broken) 90 two_args broken_return
unfolding dial_link
rpc-Ended_example = rpc-Ended broken_client no_host 90 two_args [] 0 broken_return broken-rpc

read_command_example :
    read_command (request_bytes 90 two_args ++ []) ≡ read (90, map item_of two_args) []
read_command_example = read_command-request_bytes 90 two_args [] (omega arith) (omega arith) (
  (omega arith, two_args-IsReadable.0, two_args-IsSmall.0),
  ((omega arith, two_args-IsReadable.1.0, two_args-IsSmall.1.0), tt),
)

send_request-Sends_example :
    Sent (request_bytes 90 two_args) broken false (record { answers = []; outbox = []; inbox = [] })
send_request-Sends_example =
    send_request-Sends 90 two_args broken false (record { answers = []; outbox = []; inbox = [] })
      broken-send_request

send_request-Delivers_example :
    (l' : Link) × (send_request 90 two_args (patient (length (request_bytes 90 two_args) + 0) [])
      ≡ some (true, l'))
    × Leaves 0 ([] ++ request_bytes 90 two_args) [] l'
send_request-Delivers_example =
    send_request-Delivers 90 two_args two_args-IsSmall 0
      (patient (length (request_bytes 90 two_args) + 0) [])
      (Willing-replicate (length (request_bytes 90 two_args) + 0) 1 (omega arith))

fill_batch_example : FitsBatch (fill_batch two_args 8 (request_header 90 2))
unfolding request_header le32
fill_batch_example =
    fill_batch-FitsBatch two_args 8 (request_header 90 2) two_args-IsReadable refl (omega arith)

abbrev five : List ℕ
five = 1 ∷ 2 ∷ 3 ∷ 4 ∷ 5 ∷ []

-- Two bytes, an interruption, and then a failure.
abbrev halting : Link
halting = record { answers = moves 2 ∷ interrupted ∷ fails ∷ []; outbox = []; inbox = [] }

send_all_example :
    Sent five halting false (record { answers = []; outbox = 1 ∷ 2 ∷ []; inbox = [] })
unfolding send_all send_from
send_all_example =
    send_all-Sends five halting false (record { answers = []; outbox = 1 ∷ 2 ∷ []; inbox = [] })
      refl

send_all-progress_example :
    (l' : Link) × (send_all five (patient 5 []) ≡ some (true, l')) × Leaves 0 ([] ++ five) [] l'
send_all-progress_example =
    send_all-progress five 0 (patient 5 []) (Willing-replicate 5 1 (omega arith))

recv_exact-progress_example :
    (l' : Link) × (recv_exact 5 (patient 5 (five ++ [])) ≡ some ((true, five), l'))
    × Leaves 0 [] [] l'
recv_exact-progress_example =
    recv_exact-progress 5 five [] 0 (patient 5 (five ++ [])) refl refl
      (Willing-replicate 5 1 (omega arith))
