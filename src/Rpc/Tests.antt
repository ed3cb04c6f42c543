-- ===== src/Rpc/Tests.antt =====
-- Calls with given bytes, on a socket that holds what is to be read and what was written.
use demo.Common.{
  ℕ, zero, suc, ◌≤◌, ◌<◌, ◌≡◌, refl, arith, sym, Bool, true, false, List, [], ◌∷◌, ◌++◌, length,
  take, drop, Option, none, some, inr, ◌⊎◌, length-take, take-drop,
}
use demo.Common.Effect.{◌>>=◌, pure, Holds}
use demo.Common.Alloc.{Heap, IsPlenty}
use demo.Rpc.{rpc_err, s32, s8cp, s64, success, failure, magic_num}
use demo.Rpc.Bytes.{IsText, le_bytes}
use demo.Rpc.Buffer.{
  Buffer, number, text, buffer_append, buffer_append_u8, buffer_append_u32, copy_in, rpc_make_req,
}
use demo.Rpc.Buffer.Laws.{Appended, Refused, buffer_append-Outcome}
use demo.Rpc.Buffer.Macros.{Made, empty_buffer, two_more, rpc_make_req-Made}
use demo.Rpc.Message.{word, counted_bytes, call_message, result_bytes, framed}
use demo.Rpc.Args.{Arg, AllArgs, feed, args_bytes}
use demo.Rpc.Reader.{Reader, reader_init, rpc_parse_req_args}
use demo.Rpc.Reader.Laws.{Ahead, reader_init-Ahead}
use demo.Rpc.Reader.Args.{outcome, rpc_parse_req_args-feed}
use demo.Rpc.Net.{Net}
use demo.Rpc.Net.Read.{read_sock_until}
use demo.Rpc.Net.Stream.{Stream, Whole, After, read_sock_until-some}
use demo.Rpc.Server.{Table, handle_client, rpc_server_register, answer, find_handler, not_found}
use demo.Rpc.Server.Ended.{one_more, Ended, Rejected}
use demo.Rpc.Server.Header.{handle_client-refuses}
use demo.Rpc.Server.Balance.{AllThrifty}
use demo.Rpc.Server.Closed.{Closed, handle_client-Closed}
use demo.Rpc.Server.Cut.{handle_client-cut}
use demo.Rpc.Server.Call.{at_args, handle_client-Ended}
use demo.Rpc.Server.Registry.{Registered, rpc_server_register-Outcome}
use demo.Rpc.Client.{RpcRsp, nothing, rsp_base_data, call_on}
use demo.Rpc.Client.Call.{Called, with_live, call_on-Called}
use demo.Rpc.Demo.{ReqLogin, server, sum_name, sum_handler, concat}
use demo.Rpc.Demo.Sum.{sum_answer}
use demo.Rpc.Demo.Exchange.{sum_result, sum-exchange}

-- What is to be read, what was written, and whether the socket is closed.
record Pipe : Type 0 where
  pub input : List ℕ
  pub output : List ℕ
  pub shut : Bool

abbrev pipes : Net
pipes = record {
  Sock = Pipe;
  read = λ n s. (take n s.input, record s { input = drop n s.input });
  write = λ bs s. (length bs, record s { output = s.output ++ bs });
  close = λ s. record s { shut = true };
}

take-most : (n : ℕ) (s : List ℕ) → length (take n s) ≤ n
take-most zero s = omega arith
take-most (suc n) [] = omega arith
take-most (suc n) (x ∷ s) = omega (arith, take-most n s)

take-some : (n : ℕ) (s : List ℕ) → 0 < n → 0 < length s → 0 < length (take n s)
take-some zero s lt some_left = absurd (omega arith)
take-some (suc n) [] lt some_left = absurd (omega arith)
take-some (suc n) (x ∷ s) lt some_left = omega arith

abbrev stream : Stream pipes
stream = record {
  incoming = λ s. s.input;
  outgoing = λ s. s.output;
  closed = λ s. s.shut;
  read_front = λ n s. sym (take-drop n s.input);
  read_most = λ n s. take-most n s.input;
  read_some = λ n s. take-some n s.input;
  read_quiet = λ n s. refl;
  write_quiet = λ bs s. refl;
  close_quiet = λ s. refl;
  closes = λ s. refl;
}

pipes-Whole : Whole pipes stream
pipes-Whole = record {
  read_word = λ s. length-take 4 s.input;
  write_all = λ bs s. refl;
  write_count = λ bs s. refl;
}

abbrev with_input : List ℕ → Pipe
with_input bytes = record { input = bytes; output = []; shut = false }

-- A heap with some blocks, in which no allocation fails.
abbrev heap_of : ℕ → Heap
heap_of live = record { fails = λ k. false; calls = 0; live = live }

heap_of-IsPlenty : (live : ℕ) → IsPlenty (heap_of live)
heap_of-IsPlenty live = record { plenty = λ k. refl }

abbrev no_login : List ℕ → Option ReqLogin
no_login bytes = none

-- The arguments 10 and 20.
abbrev ten_twenty : List Arg
ten_twenty = (s32, number 10) ∷ (s32, number 20) ∷ []

ten_twenty-AllArgs : AllArgs ten_twenty
ten_twenty-AllArgs = ((omega arith, omega arith), ((omega arith, omega arith), tt))

abbrev sum_request : Buffer
sum_request = record { bytes = call_message sum_name (counted_bytes ten_twenty); cap = 1024 }

abbrev no_result : RpcRsp
no_result = record { res = 0; data_of = record { type = s64; v = nothing } }

abbrev server_pipe : Pipe
server_pipe = with_input (framed 7 sum_request.bytes ++ [])

abbrev client_pipe : Pipe
client_pipe = with_input (framed 7 (sum_answer ten_twenty) ++ [])

sum-exchange_example :
    Ended pipes stream
      (server no_login)
      server_pipe
      (framed 7 (sum_answer ten_twenty))
      3
      (handle_client pipes (server no_login) server_pipe (heap_of 3))
    × Called pipes stream client_pipe
        (framed 7 sum_request.bytes)
        success
        (sum_result ten_twenty)
        5
        (call_on pipes 7 sum_request client_pipe no_result (heap_of 7))
sum-exchange_example =
    sum-exchange pipes stream pipes-Whole no_login ten_twenty 7 server_pipe client_pipe sum_request
      no_result (heap_of 3) (heap_of 7) [] [] 5 ten_twenty-AllArgs (omega arith, (omega arith, tt))
      (omega arith) (omega arith) (omega arith) (omega arith) (heap_of-IsPlenty 3)
      (heap_of-IsPlenty 7) refl refl refl refl

-- A request for a function that is not there.
abbrev ghost : List ℕ
ghost = b'g' ∷ b'h' ∷ []

ghost-IsText : IsText ghost
ghost-IsText = ((λ e. absurd (omega arith)), ((λ e. absurd (omega arith)), tt))

abbrev ghost_pipe : Pipe
ghost_pipe = with_input (framed 7 (call_message ghost (0 ∷ [])) ++ [])

abbrev not_found_answer : Buffer
not_found_answer = record { bytes = rpc_err ∷ (le_bytes 4 18 ++ not_found); cap = 256 }

ghost-answer :
    answer
      (find_handler [] ghost)
      (at_args ghost (0 ∷ []))
      (empty_buffer 256)
      (two_more (one_more (heap_of 3)))
    ≡ some (not_found_answer, two_more (one_more (heap_of 3)))
unfolding answer find_handler buffer_append_u8 buffer_append_u32 buffer_append copy_in
ghost-answer = refl

handle_client-Ended_example :
    Ended pipes stream [] ghost_pipe
      (framed 7 not_found_answer.bytes)
      3
      (handle_client pipes [] ghost_pipe (heap_of 3))
handle_client-Ended_example =
    handle_client-Ended pipes stream pipes-Whole [] 7 ghost (0 ∷ []) [] ghost_pipe (heap_of 3)
      (two_more (one_more (heap_of 3))) not_found_answer 3 (omega arith) ghost-IsText (omega arith)
      (omega arith) (heap_of-IsPlenty 3) refl ghost-answer refl (omega arith)

-- A header with a message of 70000 bytes.
abbrev long_pipe : Pipe
long_pipe = with_input (word magic_num ++ (word 7 ++ (word 70000 ++ (1 ∷ []))))

handle_client-refuses_example :
    Rejected pipes stream [] long_pipe (heap_of 3) (handle_client pipes [] long_pipe (heap_of 3))
handle_client-refuses_example =
    handle_client-refuses pipes stream pipes-Whole [] magic_num 7 70000 (1 ∷ []) long_pipe
      (heap_of 3) (omega arith) (omega arith) (omega arith) (inr (inr (omega arith))) refl

-- A header that says five bytes, and two bytes.
abbrev cut_pipe : Pipe
cut_pipe = with_input (word magic_num ++ (word 7 ++ (word 5 ++ (1 ∷ 2 ∷ []))))

handle_client-cut_example :
    Ended pipes stream [] cut_pipe [] 3 (handle_client pipes [] cut_pipe (heap_of 3))
handle_client-cut_example =
    handle_client-cut pipes stream pipes-Whole [] 7 5 (1 ∷ 2 ∷ []) cut_pipe (heap_of 3)
      (omega arith) (omega arith) (omega arith) (heap_of-IsPlenty 3) refl

-- A function that answers nothing, under the name `ghost`.
abbrev quiet_table : Table
quiet_table = record { name = ghost; handler = λ r out. pure out } ∷ []

quiet_table-AllThrifty : AllThrifty quiet_table
quiet_table-AllThrifty = ((λ r out h. refl), tt)

handle_client-Closed_example :
    Holds
      (Closed pipes stream quiet_table 3)
      (handle_client pipes quiet_table ghost_pipe (heap_of 3))
handle_client-Closed_example =
    handle_client-Closed pipes stream quiet_table quiet_table-AllThrifty ghost_pipe (heap_of 3)

-- An answer with a result and no values.
abbrev empty_answer : Pipe
empty_answer = with_input (framed 7 (result_bytes 1 []) ++ [])

abbrev error_result : RpcRsp
error_result = record { res = 1; data_of = no_result.data_of }

nothing_fed :
    feed rsp_base_data [] 0 no_result.data_of (one_more (with_live (heap_of 7) 5))
    ≡ some ((success, no_result.data_of), one_more (with_live (heap_of 7) 5))
unfolding feed
nothing_fed = refl

call_on-Called_example :
    Called pipes stream empty_answer
      (framed 7 sum_request.bytes)
      success
      error_result
      5
      (call_on pipes 7 sum_request empty_answer no_result (heap_of 7))
call_on-Called_example =
    call_on-Called pipes stream pipes-Whole 7 1 [] [] sum_request empty_answer no_result (heap_of 7)
      (one_more (with_live (heap_of 7) 5)) success no_result.data_of 5 5 (omega arith) (omega arith)
      tt (omega arith) (omega arith) (heap_of-IsPlenty 7) refl (omega arith) refl nothing_fed refl

-- The text "hi" as an argument of `concat`.
abbrev hi : List Arg
hi = (s8cp, text (b'h' ∷ b'i' ∷ [])) ∷ []

abbrev hi_reader : Reader
hi_reader = reader_init (le_bytes 1 1 ++ (args_bytes hi ++ [])) 6

hi_reader-Ahead : Ahead hi_reader (le_bytes 1 1 ++ (args_bytes hi ++ []))
hi_reader-Ahead = reader_init-Ahead (le_bytes 1 1 ++ (args_bytes hi ++ [])) (omega arith)

rpc_parse_req_args-feed_example :
    (rpc_parse_req_args concat hi_reader [] >>= outcome concat) (heap_of 0)
    ≡ feed concat hi 0 [] (heap_of 0)
rpc_parse_req_args-feed_example =
    rpc_parse_req_args-feed concat hi hi_reader [] [] (heap_of 0)
      ((refl, omega arith, ((λ e. absurd (omega arith)), ((λ e. absurd (omega arith)), tt))), tt)
      (omega arith) hi_reader-Ahead

rpc_make_req-Made_example :
    Made
      (heap_of 0)
      (call_message sum_name (counted_bytes ten_twenty))
      (rpc_make_req sum_name ten_twenty (heap_of 0))
rpc_make_req-Made_example =
    rpc_make_req-Made (heap_of 0) sum_name ten_twenty (heap_of-IsPlenty 0) (omega arith)
      ten_twenty-AllArgs (omega arith)

-- A buffer that is full.
abbrev full_buffer : Buffer
full_buffer = record { bytes = 1 ∷ 2 ∷ []; cap = 2 }

buffer_append-Outcome_example :
    Appended (heap_of 2) full_buffer (3 ∷ []) (buffer_append full_buffer (3 ∷ []) (heap_of 2))
    ⊎ Refused (heap_of 2) full_buffer (3 ∷ []) (buffer_append full_buffer (3 ∷ []) (heap_of 2))
buffer_append-Outcome_example =
    buffer_append-Outcome full_buffer (3 ∷ []) (heap_of 2) (record { fits = omega arith })
      (omega arith)

abbrev five_pipe : Pipe
five_pipe = with_input (1 ∷ 2 ∷ 3 ∷ 4 ∷ 5 ∷ [])

read_sock_until-some_example :
    (s : Pipe) × (read_sock_until pipes 3 five_pipe ≡ (some (1 ∷ 2 ∷ 3 ∷ []), s))
    × After pipes stream five_pipe (4 ∷ 5 ∷ []) s
read_sock_until-some_example =
    read_sock_until-some pipes stream five_pipe (1 ∷ 2 ∷ 3 ∷ []) (4 ∷ 5 ∷ []) (omega arith) refl

rpc_server_register-Outcome_example :
    ((0 < 128) × Registered [] sum_name sum_handler (rpc_server_register [] sum_name sum_handler))
    ⊎ ((zero ≡ 128) × (rpc_server_register [] sum_name sum_handler ≡ (failure, [])))
rpc_server_register-Outcome_example =
    rpc_server_register-Outcome [] sum_name sum_handler (omega arith) (omega arith)
