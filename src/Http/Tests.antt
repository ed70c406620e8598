-- ===== src/Http/Tests.antt =====
-- The HTTP transport at concrete states, and the theorems about it.
use cppmcp.Base.{
  pos, nat_eq, ◌==◌, ◌≡◌, refl, inr, true, false, List, [], ◌∷◌, ◌++◌, none, some, if◌then◌else◌,
  All, arith,
}
use cppmcp.Json.Example.{Value, value_json, string, object, end}
use cppmcp.Map.{find}
use cppmcp.RequestId.{int_id}
use cppmcp.Jsonrpc.{ParsedMessage, request}
use cppmcp.Text.{Bytes, codes, bytes_eq, is_nil, cut, find_text, strip_prefix, to_lower}
use cppmcp.Http.Guard.{hostport_of, is_origin_allowed, is_host_allowed}
use cppmcp.Http.Guarded.{IsOrigin, IsLocal, is_origin_allowed-IsLocal}
use cppmcp.Http.Response.{build_http_response}
use cppmcp.Http.Response.Head.{read_head, head_of, is_clean, build_http_response-head}
use cppmcp.Http.Connection.{Reading, on_header_field, on_url}
use cppmcp.Http.Limits.{IsWithin, url, Reads, begun, Reads-IsWithin}
use cppmcp.Http.Split.{on_header_field-split}
use cppmcp.Http.Transport.{
  JsonText, HttpTransport, HttpTransportConfig, HttpSession, streamable_http, no_cleanup, enqueued,
  header_of, find_session,
}
use cppmcp.Http.Push.{send_to_session}
use cppmcp.Http.Post.{to_sink, to_session, Handled, post_initialize, session_refusal}
use cppmcp.Http.Handlers.{handle_post_batch}
use cppmcp.Http.Lifecycle.{new_connection, new_reading, sweep_sessions, at_capacity}
use cppmcp.Http.Dispatch.{route_of, handle_request}
use cppmcp.Http.Sound.{IsSound}
use cppmcp.Http.Reach.{here, next, requests, Reach-IsSound}
use cppmcp.Http.Responses.{
  first_responses, messages_of, send_each, batch_response, is_accepted, handle_post_batch-responses,
  post_initialize-outcome,
}
use cppmcp.Http.Sweep.{AllFresh, sweep_sessions-reaps}
use cppmcp.Http.Routing.{frames_for, streams_of, send_to_session-frames}
use cppmcp.Http.Slots.{visits, visits-at_capacity}

abbrev plain_text : JsonText Value
plain_text = record {
  dump = λ v. elim v [ string s ↦ codes s | _ ↦ codes "{}" ];
  parse_text = λ s. if is_nil s then none else some (object end);
}

abbrev config : HttpTransportConfig
config = record {
  mode = streamable_http;
  host = codes "127.0.0.1";
  path = codes "/mcp";
  sse_path = codes "/sse";
  message_path = codes "/messages";
  max_body_size = 100;
  max_connections = 1;
  max_header_count = 3;
  max_header_line_size = 50;
  max_sessions = 2;
  session_idle_timeout = 1000;
  enforce_host_header = true;
}

abbrev a_reading : Reading
a_reading = record {
  current_url = [];
  current_method = [];
  current_body = [];
  headers = [];
  current_header_field = [];
  current_header_value = [];
  request_complete = false;
  max_body_size = 100;
  max_header_count = 3;
  max_header_line_size = 50;
}

abbrev a_session : HttpSession
a_session = record { initialized = true; sse_connections = 0 ∷ 1 ∷ []; last_activity = 0 }

-- Two connections, the second one's stream is over; one session.
abbrev a_transport : HttpTransport
a_transport = record {
  config = config;
  running = true;
  has_message_handler = true;
  connections = λ k. record {
    reading = a_reading;
    active = true;
    is_streaming = false;
    on_disconnect = no_cleanup;
  };
  next_connection = 2;
  streams = λ k. record { conn = k; active = k == 0 };
  next_stream = 2;
  sessions = (codes "s", a_session) ∷ [];
  active_sse_connections = [];
  active_connection_count = 0;
  trace = [];
}

abbrev echo : Value → Bytes → Handled Value
echo message sid = record { calls = to_sink message ∷ []; returned = true }

a_transport-IsSound : IsSound a_transport
a_transport-IsSound = record { bound = inr (omega arith); live = (refl, tt) }

Reach-IsSound_example : IsSound (handle_request plain_text (codes "t") 5 echo 0 a_transport).0
Reach-IsSound_example =
    Reach-IsSound plain_text a_transport-IsSound (next here (requests (codes "t") 5 echo 0))

build_http_response-head_example :
    (read_head 5 (
        build_http_response 200
          (codes "text/plain")
          (codes "hi")
          ((codes "a", codes "b\r\nc: d") ∷ []))
      ≡ some (
        head_of 200 (codes "text/plain") (codes "hi") ((codes "a", codes "b\r\nc: d") ∷ []),
        codes "hi",
      ))
    × All
        (λ line. is_clean line ≡ true)
        (head_of 200 (codes "text/plain") (codes "hi") ((codes "a", codes "b\r\nc: d") ∷ []))
build_http_response-head_example =
    build_http_response-head 200 (codes "text/plain") (codes "hi")
      ((codes "a", codes "b\r\nc: d") ∷ [])

abbrev a_page : Bytes
a_page = codes "http://me@LocalHost:3000/x"

is_origin_allowed-IsLocal_example :
    (scheme user host port path : Bytes) × IsOrigin a_page scheme user host port path
    × IsLocal (to_lower host) (codes "127.0.0.1")
unfolding is_origin_allowed hostport_of find_text strip_prefix cut
is_origin_allowed-IsLocal_example = is_origin_allowed-IsLocal a_page (codes "127.0.0.1") refl

abbrev hello : ParsedMessage Value
hello =
    request (record { jsonrpc = "2.0"; id = int_id (pos 1); method = "initialize"; params = none })

post_initialize-outcome_example :
    find
      (codes "t")
      (post_initialize plain_text (codes "t") 7 echo 0 [] hello (object end) a_transport).0.sessions
    ≡ (if is_accepted (echo (object end) (codes "t"))
        then some (record { initialized = true; sse_connections = []; last_activity = 7 })
        else none)
post_initialize-outcome_example =
    post_initialize-outcome plain_text (codes "t") 7 echo 0 hello (object end) a_transport refl refl

abbrev a_batch : List Value
a_batch = string "x" ∷ string "y" ∷ []

-- The handler of the batch sends a message to the session before it responds.
abbrev chatty : Value → Bytes → Handled Value
chatty message sid = record {
  calls = to_session sid (string "m") ∷ to_sink message ∷ [];
  returned = true;
}

handle_post_batch-responses_example :
    handle_post_batch plain_text chatty 0 (codes "s") a_batch a_transport ≡ (
      let sent = send_each plain_text (messages_of chatty (codes "s") a_batch) a_transport in
      record sent {
        trace =
            enqueued 0
              (batch_response plain_text (codes "s") (first_responses chatty (codes "s") a_batch))
            ∷ sent.trace;
      })
unfolding session_refusal find_session find
handle_post_batch-responses_example =
    handle_post_batch-responses plain_text chatty 0 (codes "s") a_batch a_transport refl refl refl

send_to_session-frames_example :
    send_to_session plain_text (codes "s") (string "m") a_transport ≡ record a_transport {
      trace =
          frames_for a_transport.streams
            (codes "data: " ++ (plain_text.dump (string "m") ++ (10 ∷ 10 ∷ [])))
            (streams_of (find (codes "s") a_transport.sessions))
          ++ [];
    }
send_to_session-frames_example =
    send_to_session-frames plain_text (codes "s") (string "m") a_transport refl

sweep_sessions-reaps_example :
    AllFresh 2000000000 1000 (sweep_sessions false 2000000000 a_transport).sessions
    × All
        (λ k.
          (((sweep_sessions false 2000000000 a_transport).streams k).active ≡ false)
          × (((sweep_sessions false 2000000000 a_transport).connections k).active ≡ false))
        (0 ∷ 1 ∷ [])
unfolding find
sweep_sessions-reaps_example =
    sweep_sessions-reaps 2000000000 (codes "s") a_session a_transport refl refl refl

visits-at_capacity_example : at_capacity (visits plain_text 1 a_reading a_transport) ≡ true
unfolding route_of is_host_allowed header_of new_connection new_reading find
visits-at_capacity_example =
    visits-at_capacity plain_text 1 a_reading a_transport (omega arith) refl refl

a_reading-IsWithin : IsWithin a_reading
a_reading-IsWithin = record {
  url_size = omega arith;
  body_size = omega arith;
  header_count = omega arith;
  field_size = omega arith;
  value_size = omega arith;
  value_sizes = tt;
}

abbrev with_page : Reading
with_page = record a_reading { current_url = codes "/mcp" }

Reads-IsWithin_example : IsWithin with_page
unfolding on_url
Reads-IsWithin_example =
    Reads-IsWithin a_reading-IsWithin (Reads.next (url (codes "/mcp")) begun refl)

on_header_field-split_example :
    (r' r'' : Reading) × (on_header_field (codes "Ho") a_reading ≡ some r')
    × (on_header_field (codes "st") r' ≡ some r'')
    × (find (codes "ho") r''.headers ≡ some [])
    × (r''.current_header_field ≡ codes "st")
on_header_field-split_example =
    on_header_field-split (codes "Ho") (codes "st") a_reading refl refl refl (omega arith)
      (omega arith) (omega arith)
